-- ===== src/Array/Tests.antt =====
-- kern/lib/array.c: runs of the operations, and the theorems at small arrays.
use ece344_operating_systems.Base.{
  ℕ, ◌<◌, ◌≤◌, ◌≡◌, refl, Bool, true, false, none, some, [], ◌∷◌, ◌++◌, arith, done, panic, take,
  drop, map,
}
use ece344_operating_systems.Array.{
  Array, preallocate, setsize, add, remove, getguy, grow_max, copy_cells, memmove_cells,
}
use ece344_operating_systems.Base.{load, store}
use ece344_operating_systems.Array.Inv.{IsValid, elems}
use ece344_operating_systems.Array.Remove.{remove_lem}
use ece344_operating_systems.Array.Reserve.{add_all, add_all-preallocate}

abbrev plenty : ℕ → Bool
plenty n = true

abbrev nothing_left : ℕ → Bool
nothing_left n = false

-- two pointers, 10 and 20, in a block of two cells
abbrev pair : Array ℕ
pair = record { num = 2; max = 2; v = some (some 10 ∷ some 20 ∷ []) }

pair-IsValid : IsValid pair
pair-IsValid = record { within = omega arith; stored = refl; small = omega arith }

add_grows :
    add plenty pair 30
    ≡ done (
      0,
      record { num = 3; max = 6; v = some (some 10 ∷ some 20 ∷ some 30 ∷ none ∷ none ∷ none ∷ []) },
    )
unfolding add setsize preallocate grow_max copy_cells load store
add_grows = refl

remove_first : remove pair 0 ≡ done (record { num = 1; max = 2; v = some (some 20 ∷ some 20 ∷ []) })
unfolding remove memmove_cells
remove_first = refl

get_past_end : getguy pair 2 ≡ panic
unfolding getguy
get_past_end = refl

remove_lem_example :
    (0 < 2
      → (a' : Array ℕ) × (remove pair 0 ≡ done a')
        × IsValid a'
        × (elems a' ≡ take 0 (elems pair) ++ drop 1 (elems pair)))
    × (2 ≤ 0 → remove pair 0 ≡ panic)
remove_lem_example = remove_lem pair 0 pair-IsValid

abbrev roomy : Array ℕ
roomy = record { num = 2; max = 6; v = some (some 10 ∷ some 20 ∷ none ∷ none ∷ none ∷ none ∷ []) }

roomy_lem : preallocate plenty pair 5 ≡ done (0, roomy)
unfolding preallocate grow_max copy_cells load store
roomy_lem = refl

add_all-preallocate_example :
    (a'' : Array ℕ) × (add_all nothing_left roomy (30 ∷ 40 ∷ []) ≡ done (0, a''))
    × IsValid a''
    × (elems a'' ≡ elems pair ++ map some (30 ∷ 40 ∷ []))
add_all-preallocate_example =
    add_all-preallocate plenty pair 5 (30 ∷ 40 ∷ []) pair-IsValid (omega arith) roomy_lem
      (omega arith)
