-- ===== src/Array/Inv.antt =====
-- kern/lib/array.c: the representation invariant, and array_preallocate.
use native.Mathlib.Nat.{zero-add}
use ece344_operating_systems.Base.{
  ℕ, zero, suc, ◌-◌, ◌*◌, ◌/◌, ◌≤◌, ◌<◌, ◌^◌, ◌≡◌, refl, ap, ◌∙◌, Bool, Option, none, some, List,
  [], ◌++◌, arith, if◌then◌else◌, done, length, take, replicate, length-replicate, length-take,
  drop-replicate,
}
use ece344_operating_systems.Base.Errno.{enomem}
use ece344_operating_systems.Array.{Array, bytes, copy_cells, fresh_cells, preallocate}
use ece344_operating_systems.Array.Grow.{grow_max_lem, copy_cells_lem}

module _ {ℓ} {A : Type ℓ} where
  abbrev pub block : Option (List (Option A)) → List (Option A)
  block none = []
  block (some cells) = cells

  -- The block has room for `max` pointers, and the sizes in bytes do not wrap.
  pub record IsValid (a : Array A) : Type 0 where
    pub within : a.num ≤ a.max
    pub stored : length (block a.v) ≡ a.max
    pub small : a.max < 2 ^ 30

  -- The abstract view: the pointers in use, `none` where none has been stored.
  abbrev pub elems : Array A → List (Option A)
  elems a = take a.num (block a.v)

  pub length-elems : (a : Array A) → IsValid a → length (elems a) ≡ a.num
  length-elems a h = omega (arith, length-take a.num (block a.v))

  fresh_cells_lem : (n : ℕ) → n < 2 ^ 30 → fresh_cells {A = A} n ≡ replicate n none
  fresh_cells_lem n small = ap (λ k. replicate k none) {x = bytes n / 4} {y = n} (omega arith)

  copied :
      (n num : ℕ) (v : Option (List (Option A)))
      → n < 2 ^ 30
      → num ≤ length (block v)
      → num ≤ n
      → copy_cells num 0 v (fresh_cells n) ≡ done (take num (block v) ++ replicate (n - num) none)
  unfolding copy_cells
  copied n num (some cells) small p q = rw (fresh_cells_lem n small) (
      copy_cells_lem num 0 cells (replicate n none) (omega arith)
        (omega (arith, length-replicate {A = Option A} n none))
      ∙ ap done (rw (zero-add, drop-replicate {A = Option A} num n none) refl))
  copied n zero none small p q =
      ap done
        (fresh_cells_lem n small ∙ ap (λ k. replicate k none) {x = n} {y = n - 0} (omega arith))
  copied n (suc num) none small p q = absurd (omega arith)

  -- array_preallocate either leaves the array alone and says ENOMEM, exactly where kmalloc refuses
  -- the new block, or keeps the elements and makes room for `nguys`.
  pub preallocate_lem :
      (mem : ℕ → Bool) (a : Array A) (nguys : ℕ)
      → IsValid a
      → nguys < 2 ^ 29
      → (n : ℕ) × (a.max ≤ n)
        × (nguys ≤ n)
        × (n < 2 ^ 30)
        × (preallocate mem a nguys ≡ (
            if mem (n * 4)
            then done (
              0,
              record { num = a.num; max = n; v = some (elems a ++ replicate (n - a.num) none) },
            )
            else done (enomem, a)))
  unfolding preallocate
  preallocate_lem mem a nguys h small =
      let (n, e, lo, room, hi) = grow_max_lem (suc nguys) nguys a.max small (omega arith) in
      (n, lo, room, omega arith, ground (arith, e, copied n a.num a.v))
