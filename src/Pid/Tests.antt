-- ===== src/Pid/Tests.antt =====
-- kern/userprog/pid_system.c: the theorems at a list of three pids, of which 2 is free.
use ece344_operating_systems.Base.{
  ℕ, ◌≡◌, refl, Bool, true, false, none, some, List, [], ◌∷◌, arith, done,
}
use ece344_operating_systems.Pid.{Pid, assign_pid, reuse}
use ece344_operating_systems.Pid.Assign.{Assigned, assign_pid_lem}

abbrev plenty : ℕ → Bool
plenty n = true

abbrev nothing_left : ℕ → Bool
nothing_left n = false

abbrev entry : ℕ → ℕ → ℕ → Pid
entry value is_used parent = record {
  pid_value = value;
  is_used = is_used;
  p_pid = parent;
  did_exit = 0;
  exit_code = none;
  my_thread = some value;
  parent_sem = some 1;
}

abbrev third : List Pid
third = entry 2 0 0 ∷ entry 3 1 1 ∷ []

abbrev fourth : List Pid
fourth = entry 2 1 1 ∷ entry 3 1 1 ∷ []

takes_over_2 :
    assign_pid plenty 3 (entry 1 1 0 ∷ third) 77
    ≡ done (2, entry 1 1 0 ∷ reuse 3 77 (entry 2 0 0) ∷ entry 3 1 1 ∷ [])
unfolding assign_pid
takes_over_2 = refl

assign_pid_lem_example :
    (v : ℕ) × (l' : List Pid) × (assign_pid plenty 3 (entry 1 1 0 ∷ third) 77 ≡ done (v, l'))
    × Assigned 3 77 1 (entry 1 1 0 ∷ third) v l'
assign_pid_lem_example =
    assign_pid_lem plenty 3 77 (entry 1 1 0) third refl (refl, (refl, (refl, tt))) (omega arith)
