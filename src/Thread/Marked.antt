-- ===== src/Thread/Marked.antt =====
-- kern/thread/thread.c: what thread_exit leaves in the entry of its pid.
use ece344_operating_systems.Base.{
  ℕ, ◌+◌, ◌≡◌, ◌≢◌, Bool-cases, inl, inr, some, List, [], ◌∷◌, arith, ◌==◌, done, refl,
}
use ece344_operating_systems.Pid.{Pid, pid_search}
use ece344_operating_systems.Thread.Calls.{update_entry, exited, mark_exited}

-- The entry of `v`, which was `p`, says that the thread has exited with the code, and its semaphore
-- is one up from `count`; the other numbers have the entries they had.
pub record IsMarked (v code count : ℕ) (p : Pid) (l l' : List Pid) : Type 0 where
  pub own :
      pid_search l' v
      ≡ some (record p { did_exit = 1; exit_code = some code; parent_sem = some (count + 1) })
  pub others : (w : ℕ) → w ≢ v → pid_search l' w ≡ pid_search l w

-- A write through what pid_search returns is found by the next search.
search-update :
    (l : List Pid) (v code count : ℕ) {p : Pid}
    → pid_search l v ≡ some p
    → pid_search (update_entry l v (exited code count)) v
      ≡ some (record p { did_exit = 1; exit_code = some code; parent_sem = some (count + 1) })
unfolding pid_search update_entry
search-update [] v code count e = cc
search-update (q ∷ l) v code count {p} e = elim (Bool-cases (q.pid_value == v)) [
  | inl y ↦ ground (arith, y, e)
  | inr n ↦ ground (arith, n, e, search-update l v code count {p = p})
]

search-update_ne :
    (l : List Pid) (v code count w : ℕ)
    → w ≢ v
    → pid_search (update_entry l v (exited code count)) w ≡ pid_search l w
unfolding pid_search update_entry
search-update_ne [] v code count w ne = refl
search-update_ne (q ∷ l) v code count w ne = elim (Bool-cases (q.pid_value == v)) [
  | inl y ↦ ground (arith, y, ne)
  | inr n ↦ ground (arith, n, search-update_ne l v code count w ne)
]

pub mark_exited_lem :
    (l : List Pid) (v code count : ℕ) (p : Pid)
    → pid_search l v ≡ some p
    → p.parent_sem ≡ some count
    → (l' : List Pid) × (mark_exited l v code ≡ done l') × IsMarked v code count p l l'
unfolding mark_exited
mark_exited_lem l v code count p e s = (
  update_entry l v (exited code count),
  ground (arith, e, s),
  record {
    own = search-update l v code count e;
    others = λ w ne. search-update_ne l v code count w ne;
  },
)
