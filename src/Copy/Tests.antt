-- ===== src/Copy/Tests.antt =====
-- kern/lib/copyinout.c: the theorems at a page of user memory.
use ece344_operating_systems.Base.{
  ℕ, ◌+◌, ◌-◌, ◌<◌, ◌≤◌, ◌≡◌, ◌⊎◌, refl, Bool, true, false, ◌&&◌, none, some, [], ◌∷◌, ◌++◌, arith,
  ltb, leb, if◌then◌else◌, get_or, done, ◌%◌,
}
use ece344_operating_systems.Base.Errno.{efault, enametoolong}
use ece344_operating_systems.Copy.{
  User, usertop, copyin, copyout, copycheck, fetch, set_handler, fault,
}
use ece344_operating_systems.Copy.Block.{in_user, all_of, bytes_at, copyin_lem, copyout_lem}
use ece344_operating_systems.Copy.Strings.{copyinstr, copystr, move_in, NoNul, copyinstr_lem}

-- The addresses from 4096 to 8191; every eighth byte is 0.
abbrev page : ℕ → Bool
page a = leb 4096 a && ltb a 8192

abbrev user : User
user = record { readable = page; writable = page; byte = λ a. a % 8; badfaultfunc = false }

copyin_runs : copyin user 4097 3 ≡ done (0, some (1 ∷ 2 ∷ 3 ∷ []), user)
unfolding copyin copycheck fetch set_handler
copyin_runs = refl

copyin_faults : copyin user 8190 3 ≡ done (efault, none, user)
unfolding copyin copycheck fetch set_handler fault
copyin_faults = refl

copyin_lem_example :
    copyin user 4097 0
    ≡ done (
        if in_user 4097 0 && all_of page 4097 0
        then (0, some (bytes_at user.byte 4097 0), user)
        else (efault, none, user))
copyin_lem_example = copyin_lem user 4097 0 (omega arith) (omega arith) refl

copyout_lem_example :
    (u' : User) × (copyout user (5 ∷ 6 ∷ []) 4100 2
      ≡ done ((if in_user 4100 2 && all_of page 4100 2 then 0 else efault), u'))
    × (u'.badfaultfunc ≡ false)
    × ((a : ℕ) → (a < 4100) ⊎ (4100 + 2 ≤ a) → u'.byte a ≡ user.byte a)
    × (in_user 4100 2 && all_of page 4100 2 ≡ true
        → (i : ℕ) → i < 2
        → u'.byte (4100 + i) ≡ get_or (5 ∷ 6 ∷ []) i 0)
copyout_lem_example = copyout_lem user (5 ∷ 6 ∷ []) 4100 (omega arith) (omega arith) refl

copyinstr_lem_example :
    ((k : ℕ)
      → k < 20
      → 4101 + k < usertop
      → NoNul page user.byte 4101 k
      → page (4101 + k) ≡ true
      → user.byte (4101 + k) ≡ 0
      → copyinstr user 4101 20 ≡ done (0, some (k + 1), bytes_at user.byte 4101 k ++ 0 ∷ [], user))
    × (4101 + 20 ≤ usertop
        → NoNul page user.byte 4101 20
        → copyinstr user 4101 20 ≡ done (enametoolong, none, bytes_at user.byte 4101 20, user))
    × (usertop < 4101 + 20
        → NoNul page user.byte 4101 (usertop - 4101)
        → copyinstr user 4101 20
          ≡ done (efault, none, bytes_at user.byte 4101 (usertop - 4101), user))
copyinstr_lem_example =
    copyinstr_lem user 4101 20 (omega arith) (omega arith) (omega arith) (omega arith) refl

copyinstr_runs : copyinstr user 4101 20 ≡ done (0, some 4, 5 ∷ 6 ∷ 7 ∷ 0 ∷ [], user)
unfolding copyinstr copystr move_in copycheck set_handler
copyinstr_runs = refl
