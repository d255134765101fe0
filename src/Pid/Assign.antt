-- ===== src/Pid/Assign.antt =====
-- kern/userprog/pid_system.c: the pid that assign_pid hands out.
use ece344_operating_systems.Base.{
  ℕ, suc, ◌+◌, ◌<◌, ◌^◌, ◌≡◌, ◌≢◌, refl, Bool, true, false, some, List, [], ◌∷◌, arith, ◌==◌,
  length, inl, inr, Bool-cases, done, undef,
}
use ece344_operating_systems.Pid.{
  Pid, assign_pid, append_pid, link_last, new_entry, reuse, pid_search,
}
use ece344_operating_systems.Pid.Numbered.{Numbered, in_use}

-- What a thread `thread` of parent `me` has got: a pid that was free, the least one behind the
-- first of the list, with every other entry as it was.
pub record Assigned (me thread k : ℕ) (l : List Pid) (v : ℕ) (l' : List Pid) : Type 0 where
  pub numbered : Numbered k l'
  pub was_free : in_use l v ≡ false
  pub taken :
      (p : Pid) × (pid_search l' v ≡ some p)
      × (p.is_used ≡ 1)
      × (p.p_pid ≡ me)
      × (p.did_exit ≡ 0)
      × (p.my_thread ≡ some thread)
  pub others : (w : ℕ) → w ≢ v → pid_search l' w ≡ pid_search l w
  pub behind : k < v
  pub least : (w : ℕ) → k < w → w < v → in_use l w ≡ true

assign_from :
    (mem : ℕ → Bool) (me thread k : ℕ) (p : Pid) (l : List Pid)
    → mem 32 ≡ true
    → Numbered k (p ∷ l)
    → k + length (p ∷ l) < 2 ^ 31
    → (v : ℕ) × (l' : List Pid) × (assign_pid mem me (p ∷ l) thread ≡ done (v, l'))
      × Assigned me thread k (p ∷ l) v l'
unfolding assign_pid append_pid link_last pid_search new_entry reuse
assign_from mem me thread k p [] granted n small =
    let new = new_entry mem me (k + 1) thread in
    (
      k + 1,
      p ∷ new ∷ [],
      ground (arith, granted),
      record {
        numbered = omega arith;
        was_free = ground arith;
        taken = (new, ground arith, refl, refl, refl, refl);
        others = λ w ne. ground arith;
        behind = omega arith;
        least = λ w lo hi. absurd (omega arith);
      },
    )
assign_from mem me thread k p (q ∷ l) granted n small = elim (Bool-cases (q.is_used == 0)) [
  | inl free ↦ (
    q.pid_value,
    p ∷ reuse me thread q ∷ l,
    ground arith,
    record {
      numbered = (n.0, (n.1.0, n.1.1));
      was_free = ground arith;
      taken = (reuse me thread q, ground arith, refl, refl, refl, refl);
      others = λ w ne. ground arith;
      behind = omega arith;
      least = λ w lo hi. absurd (omega arith);
    },
  )
  | inr used ↦
      let (v, l', e, a) = assign_from mem me thread (suc k) q l granted n.1 (omega arith) in
      let (r, found, isused, parent, live, runs) = a.taken in
      (
        v,
        p ∷ l',
        ground (arith, e),
        record {
          numbered = (n.0, a.numbered);
          was_free = ground (arith, a.was_free, a.behind);
          taken = (r, ground (arith, a.behind), isused, parent, live, runs);
          others = λ w ne. ground (arith, a.others w ne);
          behind = omega (arith, a.behind);
          least = λ w lo hi. ground (arith, a.least w);
        },
      )
]

-- assign_pid, while kmalloc grants an entry, hands out the least free pid behind the first, which is
-- then in use by the new thread with `me` for its parent, and touches no other entry. (The first
-- entry is never given out again.)
pub assign_pid_lem :
    (mem : ℕ → Bool) (me thread : ℕ) (p : Pid) (l : List Pid)
    → mem 32 ≡ true
    → Numbered 1 (p ∷ l)
    → length (p ∷ l) + 1 < 2 ^ 31
    → (v : ℕ) × (l' : List Pid) × (assign_pid mem me (p ∷ l) thread ≡ done (v, l'))
      × Assigned me thread 1 (p ∷ l) v l'
assign_pid_lem mem me thread p l granted n small =
    assign_from mem me thread 1 p l granted n (omega arith)

-- Every pid behind the first is in use.
abbrev pub AllUsed : List Pid → Type 0
AllUsed [] = Unit
AllUsed (p ∷ []) = Unit
AllUsed (p ∷ q ∷ l) = (q.is_used ≢ 0) × AllUsed (q ∷ l)

-- With every pid behind the first in use and no memory left, append_pid writes through NULL: the
-- code does not test what kmalloc returns.
pub assign_pid-no_memory :
    (mem : ℕ → Bool) (me thread : ℕ) (l : List Pid)
    → mem 32 ≡ false
    → AllUsed l
    → assign_pid mem me l thread ≡ undef
unfolding assign_pid append_pid
assign_pid-no_memory mem me thread [] refused used = refl
assign_pid-no_memory mem me thread (p ∷ []) refused used = ground (arith, refused)
assign_pid-no_memory mem me thread (p ∷ q ∷ l) refused used =
    ground (arith, used.0, assign_pid-no_memory mem me thread (q ∷ l) refused used.1)
