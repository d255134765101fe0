-- ===== src/Uio/Tests.antt =====
-- kern/userprog/uio.c: the theorems at a block of five bytes.
use ece344_operating_systems.Base.{
  ℕ, ◌+◌, ◌%◌, ◌<◌, ◌≤◌, ◌≡◌, ◌⊎◌, refl, Bool, true, false, ◌&&◌, arith, ltb, leb, if◌then◌else◌,
  done,
}
use ece344_operating_systems.Base.Errno.{efault}
use ece344_operating_systems.Copy.{User}
use ece344_operating_systems.Copy.Block.{in_user, all_of}
use ece344_operating_systems.Uio.{Uio, Memory, uio_read, uio_userspace, uiomove}
use ece344_operating_systems.Uio.Move.{IsValid, least, moved, uiomove-userspace}

-- The addresses from 4096 to 8191.
abbrev page : ℕ → Bool
page a = leb 4096 a && ltb a 8192

abbrev memory : Memory
memory = record {
  kernel = λ a. a % 256;
  user = record { readable = page; writable = page; byte = λ a. 0; badfaultfunc = false };
}

abbrev five : Uio
five = record {
  base = 4100;
  len = 5;
  offset = 30;
  resid = 5;
  segflg = uio_userspace;
  rw = uio_read;
  space_ok = true;
}

five-IsValid : IsValid five
five-IsValid = record {
  whole = refl;
  in_memory = omega arith;
  in_file = omega arith;
  in_space = refl;
}

abbrev three : ℕ
three = 3

uiomove-userspace_example :
    (u' : User) × (uiomove 9000 3 five memory
      ≡ done (
          if in_user 4100 (least 3 5) && all_of page 4100 (least 3 5)
          then (0, moved (least 3 5) five, record memory { user = u' })
          else (efault, five, record memory { user = u' })))
    × ((a : ℕ) → (a < 4100) ⊎ (4100 + least 3 5 ≤ a) → u'.byte a ≡ 0)
    × (in_user 4100 (least 3 5) && all_of page 4100 (least 3 5) ≡ true
        → (i : ℕ) → i < least 3 5
        → u'.byte (4100 + i) ≡ (9000 + i) % 256)
uiomove-userspace_example =
    uiomove-userspace 9000 3 five memory five-IsValid refl refl (omega arith) (omega arith) refl
