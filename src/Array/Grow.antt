-- ===== src/Array/Grow.antt =====
-- kern/lib/array.c: the block that array_preallocate allocates and fills.
use mathlib.Core.List.{append_assoc}
use native.Mathlib.Nat.{add-zero}
use native.Mathlib.Numerals.{add-one}
use ece344_operating_systems.Base.{
  ℕ, zero, suc, ◌+◌, ◌-◌, ◌*◌, ◌≤◌, ◌<◌, ◌^◌, max, ◌≡◌, refl, ap, sym, ◌∙◌, inl, inr, Option, some,
  List, ◌++◌, arith, ltb, Bool-cases, done, length, take, drop, set, length-set, take-append-drop,
  load_lem, store_lem, get_elem?_of_lt, drop-cons, take-set-suc, drop-set_of_lt, get_elem?,
}
use ece344_operating_systems.Array.{grow_max, copy_cells}

-- The doubling loop ends with room for `nguys`, and does not overflow.
pub grow_max_lem :
    (fuel nguys newmax : ℕ)
    → nguys < 2 ^ 29
    → nguys - newmax < fuel
    → (n : ℕ) × (grow_max fuel nguys newmax ≡ done n)
      × (newmax ≤ n)
      × (nguys ≤ n)
      × (n ≤ max newmax (2 * nguys))
unfolding grow_max
grow_max_lem zero nguys newmax small fuel = absurd (omega arith)
grow_max_lem (suc fuel) nguys newmax small enough = elim (Bool-cases (ltb newmax nguys)) [
  | inl more ↦
      let (n, e, lo, room, hi) = grow_max_lem fuel nguys ((newmax + 1) * 2) small (ground arith) in
      (n, ground arith, omega arith, room, ground arith)
  | inr stop ↦ (newmax, rw stop, omega arith, ground arith, omega arith)
]

module _ {ℓ} {A : Type ℓ} where
  -- The copying loop overlays the first cells of the new block with those of the old one.
  pub copy_cells_lem :
      (rounds i : ℕ) (cells newv : List (Option A))
      → i + rounds ≤ length cells
      → i + rounds ≤ length newv
      → copy_cells rounds i (some cells) newv
        ≡ done (take i newv ++ (take rounds (drop i cells) ++ drop (i + rounds) newv))
  unfolding copy_cells
  copy_cells_lem zero i cells newv h k =
      ap done
        (sym (take-append-drop i newv) ∙ ap (λ n. take i newv ++ drop n newv) (sym (add-zero i)))
  copy_cells_lem (suc rounds) i cells newv h k =
      let (x, e) = get_elem?_of_lt cells i (omega arith) in
      rw (load_lem cells i e, store_lem newv i x (omega arith))
        (copy_cells_lem rounds (i + 1) cells (set newv i x) (omega arith)
            (omega (arith, length-set newv i x))
          ∙ ap done (round x e))
    where
      round :
          (x : Option A)
          → get_elem? cells i ≡ some x
          → take (i + 1) (set newv i x)
              ++ (take rounds (drop (i + 1) cells) ++ drop (i + 1 + rounds) (set newv i x))
            ≡ take i newv ++ (take (suc rounds) (drop i cells) ++ drop (i + suc rounds) newv)
      round x e =
          let shift : i + 1 + rounds ≡ i + suc rounds = omega arith in
          rw
            (
              shift,
              add-one,
              take-set-suc i newv x (omega arith),
              drop-set_of_lt (i + suc rounds) i newv x (omega arith),
              drop-cons cells i e,
              append_assoc,
            )
            refl
