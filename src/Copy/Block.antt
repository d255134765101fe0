-- ===== src/Copy/Block.antt =====
-- kern/lib/copyinout.c: when copyin and copyout succeed, and what they leave.
use ece344_operating_systems.Base.{
  ℕ, zero, suc, ◌+◌, ◌≤◌, ◌<◌, ◌^◌, ◌≡◌, ◌⊎◌, ◌∙◌, inl, inr, refl, ap, Bool, true, false, ◌&&◌,
  Bool-cases, none, some, List, [], ◌∷◌, arith, ltb, leb, ◌==◌, if◌then◌else◌, done, panic, length,
  get_or,
}
use ece344_operating_systems.Base.Errno.{efault}
use ece344_operating_systems.Copy.{
  User, copycheck, usertop, returned, jumped, fetch, fault, poke, spill, set_handler, copyin,
  copyout,
}

-- The `n` bytes from `addr` on may all be read, or written.
abbrev pub all_of : (ℕ → Bool) → ℕ → ℕ → Bool
all_of may addr zero = true
all_of may addr (suc n) = may addr && all_of may (addr + 1) n

abbrev pub bytes_at : (ℕ → ℕ) → ℕ → ℕ → List ℕ
bytes_at byte addr zero = []
bytes_at byte addr (suc n) = byte addr ∷ bytes_at byte (addr + 1) n

-- A block that is not empty and lies in user space.
abbrev pub in_user : ℕ → ℕ → Bool
in_user addr len = ltb 0 len && leb (addr + len) usertop

fetch_lem :
    (u : User) (addr n : ℕ)
    → u.badfaultfunc ≡ true
    → fetch u addr n
      ≡ done (if all_of u.readable addr n then returned (bytes_at u.byte addr n) else jumped)
unfolding fetch fault
fetch_lem u addr zero armed = refl
fetch_lem u addr (suc n) armed = ground (arith, fetch_lem u (addr + 1) n)

check_pass : (addr len : ℕ) → in_user addr len ≡ true → copycheck addr len ≡ (0, len)
unfolding copycheck
check_pass addr len inside = ground arith

check_fail :
    (addr len : ℕ)
    → addr < 2 ^ 32
    → len < 2 ^ 32
    → in_user addr len ≡ false
    → ((copycheck addr len).0 ≡ efault)
      ⊎ (((copycheck addr len).0 ≡ 0) × (((copycheck addr len).1 == len) ≡ false))
unfolding copycheck
check_fail addr len ha hl outside = elim (Bool-cases ((copycheck addr len).0 == 0)) [
  | inl passed ↦ inr (ground arith, ground arith)
  | inr refused ↦ inl (ground arith)
]

-- copyin succeeds exactly on a block that is not empty, lies in user space and can be read; then it
-- gives the bytes of the block. Otherwise it says EFAULT. It never brings the kernel down, and
-- leaves the user's memory and the fault handler as they were.
pub copyin_lem :
    (u : User) (addr len : ℕ)
    → addr < 2 ^ 32
    → len < 2 ^ 32
    → u.badfaultfunc ≡ false
    → copyin u addr len
      ≡ done (
          if in_user addr len && all_of u.readable addr len
          then (0, some (bytes_at u.byte addr len), u)
          else (efault, none, u))
unfolding copyin set_handler
copyin_lem u addr len ha hl off = elim (Bool-cases (in_user addr len)) [
  | inl inside ↦
      ground (arith, check_pass addr len inside, fetch_lem (set_handler u true) addr len refl)
  | inr outside ↦ elim (check_fail addr len ha hl outside) [
    | inl e ↦ ground (arith, e)
    | inr (z, ne) ↦ ground (arith, z, ne)
  ]
]

-- What memcpy to the `bs` bytes from `addr` on has done to the user's memory.
pub record Wrote (u : User) (addr : ℕ) (bs : List ℕ) (u' : User) : Type 0 where
  pub same_rights : (u'.readable ≡ u.readable) × (u'.writable ≡ u.writable)
  pub frame : (a : ℕ) → (a < addr) ⊎ (addr + length bs ≤ a) → u'.byte a ≡ u.byte a
  pub block :
      all_of u.writable addr (length bs) ≡ true
      → (i : ℕ) → i < length bs
      → u'.byte (addr + i) ≡ get_or bs i 0

frame-cons :
    (u u' : User) (addr b : ℕ) (bs : List ℕ)
    → Wrote (poke u addr b) (addr + 1) bs u'
    → (a : ℕ) → (a < addr) ⊎ (addr + suc (length bs) ≤ a)
    → u'.byte a ≡ u.byte a
frame-cons u u' addr b bs w a (inl lo) = ground (arith, w.frame a (inl (omega arith)))
frame-cons u u' addr b bs w a (inr hi) = ground (arith, w.frame a (inr (omega arith)))

block-cons :
    (u u' : User) (addr b : ℕ) (bs : List ℕ)
    → Wrote (poke u addr b) (addr + 1) bs u'
    → all_of u.writable (addr + 1) (length bs) ≡ true
    → (i : ℕ) → i < suc (length bs)
    → u'.byte (addr + i) ≡ get_or (b ∷ bs) i 0
block-cons u u' addr b bs w ok zero lt =
    ap u'.byte {x = addr + 0} {y = addr} (omega arith)
    ∙ w.frame addr (inl (omega arith))
    ∙ ground arith
block-cons u u' addr b bs w ok (suc i) lt =
    ap u'.byte {x = addr + suc i} {y = addr + 1 + i} (omega arith) ∙ w.block ok i (omega arith)

spill_lem :
    (u : User) (addr : ℕ) (bs : List ℕ)
    → u.badfaultfunc ≡ true
    → (u' : User) × (spill u addr bs
        ≡ done ((if all_of u.writable addr (length bs) then returned tt else jumped), u'))
      × (u'.badfaultfunc ≡ true)
      × Wrote u addr bs u'
unfolding spill fault
spill_lem u addr [] armed = (
  u,
  refl,
  armed,
  record {
    same_rights = (refl, refl);
    frame = λ a out. refl;
    block = λ may i lt. absurd (omega arith);
  },
)
spill_lem u addr (b ∷ bs) armed = elim (Bool-cases (u.writable addr)) [
  | inl may ↦
      let (u', e, still, w) = spill_lem (poke u addr b) (addr + 1) bs armed in
      (
        u',
        ground (arith, may, e),
        still,
        record {
          same_rights = w.same_rights;
          frame = frame-cons u u' addr b bs w;
          block = λ ok i lt. block-cons u u' addr b bs w (ground arith) i lt;
        },
      )
  | inr may_not ↦ (
    u,
    ground (arith, may_not),
    armed,
    record {
      same_rights = (refl, refl);
      frame = λ a out. refl;
      block = λ ok i lt. absurd (ground arith);
    },
  )
]

-- copyout succeeds exactly on a block that is not empty, lies in user space and can be written;
-- otherwise it says EFAULT. It never brings the kernel down, leaves the fault handler as it was,
-- touches no byte outside the block, and after a success the block holds the bytes of `src`.
pub copyout_lem :
    (u : User) (src : List ℕ) (addr : ℕ)
    → addr < 2 ^ 32
    → length src < 2 ^ 32
    → u.badfaultfunc ≡ false
    → (u' : User) × (copyout u src addr (length src)
        ≡ done (
          (if in_user addr (length src) && all_of u.writable addr (length src) then 0 else efault),
          u',
        ))
      × (u'.badfaultfunc ≡ false)
      × ((a : ℕ) → (a < addr) ⊎ (addr + length src ≤ a) → u'.byte a ≡ u.byte a)
      × (in_user addr (length src) && all_of u.writable addr (length src) ≡ true
          → (i : ℕ) → i < length src
          → u'.byte (addr + i) ≡ get_or src i 0)
unfolding copyout set_handler
copyout_lem u src addr ha hl off = elim (Bool-cases (in_user addr (length src))) [
  | inl inside ↦
      let (u', e, still, w) = spill_lem (set_handler u true) addr src refl in
      (
        set_handler u' false,
        ground (arith, check_pass addr (length src) inside, e),
        refl,
        w.frame,
        λ ok i lt. w.block (ground arith) i lt,
      )
  | inr outside ↦ elim (check_fail addr (length src) ha hl outside) [
    | inl e ↦ (u, ground (arith, e), off, λ a out. refl, λ ok i lt. absurd (ground arith))
    | inr (z, ne) ↦ (u, ground (arith, z, ne), off, λ a out. refl, λ ok i lt. absurd (ground arith))
  ]
]

-- A write to memory that may all be written needs no handler.
pub spill-writable :
    (u : User) (addr : ℕ) (bs : List ℕ)
    → all_of u.writable addr (length bs) ≡ true
    → (u' : User) × (spill u addr bs ≡ done (returned tt, u')) × Wrote u addr bs u'
unfolding spill
spill-writable u addr [] may = (
  u,
  refl,
  record {
    same_rights = (refl, refl);
    frame = λ a out. refl;
    block = λ may i lt. absurd (omega arith);
  },
)
spill-writable u addr (b ∷ bs) may =
    let first : u.writable addr ≡ true = ground arith in
    let (u', e, w) = spill-writable (poke u addr b) (addr + 1) bs (ground arith) in
    (
      u',
      ground (arith, first, e),
      record {
        same_rights = w.same_rights;
        frame = frame-cons u u' addr b bs w;
        block = λ ok i lt. block-cons u u' addr b bs w (ground arith) i lt;
      },
    )

-- Without a handler a write to memory of which some may not be written is fatal.
pub spill-fatal :
    (u : User) (addr : ℕ) (bs : List ℕ)
    → u.badfaultfunc ≡ false
    → all_of u.writable addr (length bs) ≡ false
    → spill u addr bs ≡ panic
unfolding spill fault
spill-fatal u addr [] off e = cc
spill-fatal u addr (b ∷ bs) off e = elim (Bool-cases (u.writable addr)) [
  | inl may ↦
      ground (arith, may, spill-fatal (poke u addr b) (addr + 1) bs off (ground (arith, may, e)))
  | inr may_not ↦ ground (arith, may_not)
]
