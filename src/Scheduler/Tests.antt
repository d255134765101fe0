-- ===== src/Scheduler/Tests.antt =====
-- kern/thread/scheduler.c: runs, and the theorems at a run queue of two threads.
use ece344_operating_systems.Base.{
  ℕ, suc, ◌<◌, ◌≡◌, refl, Bool, false, Option, none, some, List, [], ◌∷◌, ◌++◌, map, arith,
  replicate, length, done, load, store,
}
use ece344_operating_systems.Queue
use ece344_operating_systems.Queue.{Queue}
use ece344_operating_systems.Queue.Ops.{IsValid, contents}
use ece344_operating_systems.Scheduler.{scheduler, interrupts, make_runnable}
use ece344_operating_systems.Scheduler.Order.{scheduler_lem}

abbrev nothing_left : ℕ → Bool
nothing_left n = false

abbrev two : Queue ℕ
two = record { size = 4; nextwrite = 1; nextread = 3; cells = some 8 ∷ none ∷ none ∷ some 7 ∷ [] }

two-IsValid : IsValid two
two-IsValid = record {
  read_in = omega arith;
  write_in = omega arith;
  stored = refl;
  small = omega arith;
}

abbrev idle : Queue ℕ
idle = record { size = 4; nextwrite = 2; nextread = 2; cells = none ∷ none ∷ none ∷ none ∷ [] }

-- Two interrupts wake nobody, the third wakes 5 and 6.
idles_until_woken :
    scheduler nothing_left 15 ([] ∷ [] ∷ (5 ∷ 6 ∷ []) ∷ (9 ∷ []) ∷ []) (some idle)
    ≡ done (
      some 5,
      (9 ∷ []) ∷ [],
      some (record {
        size = 4;
        nextwrite = 0;
        nextread = 3;
        cells = none ∷ none ∷ some 5 ∷ some 6 ∷ [];
      }),
    )
unfolding scheduler interrupts make_runnable Queue.addtail Queue.addtail_at Queue.write Queue.empty
    Queue.remhead load store
idles_until_woken = refl

scheduler_lem_example :
    ((later : List (List ℕ)) (t : Option ℕ) (rest : List (Option ℕ))
      → contents two ≡ t ∷ rest
      → (q' : Queue ℕ) × (scheduler nothing_left 15 later (some two) ≡ done (t, later, some q'))
        × IsValid q'
        × (contents q' ≡ rest))
    × ((k : ℕ) (t : ℕ) (ts : List ℕ) (later : List (List ℕ))
        → contents two ≡ []
        → suc (length ts) < 4
        → (q' : Queue ℕ) × (scheduler nothing_left 15
              (replicate k [] ++ (t ∷ ts) ∷ later)
              (some two)
            ≡ done (some t, later, some q'))
          × IsValid q'
          × (contents q' ≡ map some ts))
scheduler_lem_example = scheduler_lem nothing_left 15 two two-IsValid (omega arith)
