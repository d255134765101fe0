-- ===== src/Array/Remove.antt =====
-- kern/lib/array.c: array_remove on the list of pointers in use.
use mathlib.Core.List.{append_assoc}
use native.Mathlib.Numerals.{add-one}
use ece344_operating_systems.Base.{
  ℕ, suc, ◌+◌, ◌-◌, ◌≤◌, ◌<◌, ◌≡◌, refl, ◌∙◌, Option, some, List, ◌++◌, arith, dec_lt, done, panic,
  length, take, drop, length-take, length-drop, length-append, take-append, take-take, drop-take,
}
use ece344_operating_systems.Array.{Array, remove, memmove_cells}
use ece344_operating_systems.Array.Inv.{block, IsValid, elems}
use ece344_operating_systems.Array.Ops.{not_null_some}

module _ {A : Type 0} where
  -- The block after the move: cell `i` is gone, and the last one stays where it was.
  closed : ℕ → ℕ → List (Option A) → List (Option A)
  closed n i cells =
      take i cells ++ (take (n - (i + 1)) (drop (i + 1) cells) ++ drop (i + (n - (i + 1))) cells)

  length-closed :
      (n i : ℕ) (cells : List (Option A))
      → i < n
      → n ≤ length cells
      → length (closed n i cells) ≡ length cells
  unfolding closed
  length-closed n i cells lt le =
      length-append (take i cells) _
      ∙ omega (
        arith,
        length-take i cells,
        length-append (take (n - (i + 1)) (drop (i + 1) cells)) (drop (i + (n - (i + 1))) cells),
        length-take (n - (i + 1)) (drop (i + 1) cells),
        length-drop (i + 1) cells,
        length-drop (i + (n - (i + 1))) cells,
      )

  take-closed :
      (n i : ℕ) (cells : List (Option A))
      → i < n
      → n ≤ length cells
      → take (n - 1) (closed n i cells) ≡ take i (take n cells) ++ drop (suc i) (take n cells)
  unfolding closed
  take-closed n i cells lt le =
      rw
        (
          ← append_assoc (take i cells) (take (n - (i + 1)) (drop (i + 1) cells)),
          take-take i n cells (omega arith),
          drop-take (suc i) n cells,
        )
        (take-append (take i cells ++ take (n - (i + 1)) (drop (i + 1) cells)) _ (n - 1) (
            omega (
              arith,
              length-append (take i cells) (take (n - (i + 1)) (drop (i + 1) cells)),
              length-take i cells,
              length-take (n - (i + 1)) (drop (i + 1) cells),
              length-drop (i + 1) cells,
            ))
          ∙ rw add-one refl)

  -- array_remove closes the gap, and panics on an index that is not in use.
  pub remove_lem :
      (a : Array A) (i : ℕ)
      → IsValid a
      → (i < a.num
          → (a' : Array A) × (remove a i ≡ done a')
            × IsValid a'
            × (elems a' ≡ take i (elems a) ++ drop (suc i) (elems a)))
        × (a.num ≤ i → remove a i ≡ panic)
  unfolding remove memmove_cells closed
  remove_lem a i h = (
    λ lt. (
      record a { num = a.num - 1; v = some (closed a.num i (block a.v)) },
      ground (arith, not_null_some a.v),
      record {
        within = omega arith;
        stored = omega (arith, length-closed a.num i (block a.v));
        small = h.small;
      },
      take-closed a.num i (block a.v) lt (omega arith),
    ),
    λ ge. ground arith,
  )

  -- The block stays as large as it was.
  pub remove-max : (a : Array A) (i : ℕ) {a' : Array A} → remove a i ≡ done a' → a'.max ≡ a.max
  unfolding remove memmove_cells
  remove-max a i {a'} e = elim (dec_lt i a.num) [
    | no out ↦ ground (arith, e, out)
    | yes lt ↦ ground (arith, e, lt)
  ]
