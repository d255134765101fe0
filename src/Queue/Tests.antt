-- ===== src/Queue/Tests.antt =====
-- kern/lib/queue.c: runs of the operations, and the theorems at a full queue of three cells.
use ece344_operating_systems.Base.{
  ℕ, ◌+◌, ◌≡◌, ◌⊎◌, refl, Bool, true, false, Option, none, some, List, [], ◌∷◌, ◌++◌, arith, done,
  panic, load, store,
}
use ece344_operating_systems.Base.Errno.{enomem}
use ece344_operating_systems.Queue.{
  Queue, addtail, addtail_at, grow, grow_size, readd, write, remhead,
}
use ece344_operating_systems.Queue.Ops.{IsValid, contents, count}
use ece344_operating_systems.Queue.Refine.{addtail_lem}
use ece344_operating_systems.Queue.Head.{remhead_lem}

abbrev plenty : ℕ → Bool
plenty n = true

-- 7, then 8, round the end of the block
abbrev wrapped : Queue ℕ
wrapped = record { size = 3; nextwrite = 1; nextread = 2; cells = some 8 ∷ none ∷ some 7 ∷ [] }

wrapped-IsValid : IsValid wrapped
wrapped-IsValid = record {
  read_in = omega arith;
  write_in = omega arith;
  stored = refl;
  small = omega arith;
}

contents-wrapped : contents wrapped ≡ some 7 ∷ some 8 ∷ []
contents-wrapped = refl

-- The full block is doubled, and the contents are moved to its start.
addtail_grows :
    addtail plenty wrapped 9
    ≡ done (
      0,
      record {
        size = 6;
        nextwrite = 3;
        nextread = 0;
        cells = some 7 ∷ some 8 ∷ some 9 ∷ none ∷ none ∷ none ∷ [];
      },
    )
unfolding addtail addtail_at grow grow_size readd write load store
addtail_grows = refl

addtail_lem_example :
    ((n : ℕ) × (plenty n ≡ false)
      × (count wrapped + 1 ≡ 3)
      × (addtail plenty wrapped 9 ≡ done (enomem, wrapped)))
    ⊎ ((q' : Queue ℕ) × (addtail plenty wrapped 9 ≡ done (0, q'))
        × IsValid q'
        × (contents q' ≡ contents wrapped ++ some 9 ∷ []))
addtail_lem_example = addtail_lem plenty wrapped 9 wrapped-IsValid (omega arith)

remhead_lem_example :
    (contents wrapped ≡ [] → remhead wrapped ≡ panic)
    × ((c : Option ℕ) (rest : List (Option ℕ))
        → contents wrapped ≡ c ∷ rest
        → (q' : Queue ℕ) × (remhead wrapped ≡ done (c, q'))
          × IsValid q'
          × (q'.size ≡ 3)
          × (contents q' ≡ rest))
remhead_lem_example = remhead_lem wrapped wrapped-IsValid
