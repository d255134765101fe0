-- ===== src/Pid/Numbered.antt =====
-- kern/userprog/pid_system.c: the numbers of the entries, and the search by them.
use ece344_operating_systems.Base.{
  ℕ, suc, ◌+◌, ◌≤◌, ◌<◌, ◌≡◌, refl, Bool, false, not, none, some, List, [], ◌∷◌, arith, ◌==◌,
  if◌then◌else◌, length,
}
use ece344_operating_systems.Pid.{Pid, release_pid, pid_search}

-- The entries are numbered `k`, `k + 1`, and so on.
abbrev pub Numbered : ℕ → List Pid → Type 0
Numbered k [] = Unit
Numbered k (p ∷ ps) = (p.pid_value ≡ k) × Numbered (suc k) ps

-- Whether a pid is taken: its entry is there and not given up.
abbrev pub in_use : List Pid → ℕ → Bool
in_use l v = elim (pid_search l v) [ none ↦ false | some p ↦ not (p.is_used == 0) ]

pub search_below : (k : ℕ) (l : List Pid) (v : ℕ) → Numbered k l → v < k → pid_search l v ≡ none
unfolding pid_search
search_below k [] v n lt = refl
search_below k (p ∷ ps) v n lt = ground (arith, search_below (suc k) ps v n.1)

pub search_above :
    (k : ℕ) (l : List Pid) (v : ℕ) → Numbered k l → k + length l ≤ v → pid_search l v ≡ none
unfolding pid_search
search_above k [] v n le = refl
search_above k (p ∷ ps) v n le = ground (arith, search_above (suc k) ps v n.1)

-- The number that pid_search is given is the number of the entry that it finds.
pub search-value : (l : List Pid) (v : ℕ) {p : Pid} → pid_search l v ≡ some p → p.pid_value ≡ v
unfolding pid_search
search-value [] v e = cc
search-value (q ∷ l) v {p} e = ground (arith, search-value l v {p = p})

-- release_pid frees exactly the entry of that number: it has no parent and no thread afterwards,
-- keeps its exit status, and the search for every other number answers as before.
pub search-release :
    (l : List Pid) (v w : ℕ)
    → pid_search (release_pid l v) w ≡ (
        if v == w
        then elim (pid_search l v) [
          | none ↦ none
          | some p ↦ some (record p { is_used = 0; p_pid = 0; my_thread = none })
        ]
        else pid_search l w)
unfolding pid_search release_pid
search-release [] v w = ground arith
search-release (p ∷ l) v w = ground (arith, search-release l v w)

pub release-Numbered : (k : ℕ) (l : List Pid) (v : ℕ) → Numbered k l → Numbered k (release_pid l v)
unfolding release_pid
release-Numbered k [] v n = tt
release-Numbered k (p ∷ ps) v n = ground (arith, release-Numbered (suc k) ps v n.1)
