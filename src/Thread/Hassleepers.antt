-- ===== src/Thread/Hassleepers.antt =====
-- kern/thread/thread.c: thread_hassleepers over the table of sleepers as a list.
use mathlib.Core.List.{append_assoc}
use ece344_operating_systems.Base.{
  ℕ, zero, suc, ◌+◌, ◌<◌, ◌≡◌, refl, ap, sym, ◌∙◌, inl, inr, Bool, true, false, Bool-cases, Option,
  List, [], ◌∷◌, ◌++◌, arith, if◌then◌else◌, done, length, length-append, subst,
}
use ece344_operating_systems.Array
use ece344_operating_systems.Array.{Array}
use ece344_operating_systems.Thread.{
  Thread, Kernel, thread_wakeup, hassleepers_from, thread_hassleepers,
}
use ece344_operating_systems.Thread.Tables.{Table, Ready, retable, num-Table, getguy-Table}
use ece344_operating_systems.Thread.Wakeup.{
  sleeps_on, woken, left_asleep, AllAllocated, thread_wakeup_lem,
}

-- Whether a thread of the list sleeps on the address.
abbrev pub any_on : (ℕ → Option Thread) → ℕ → List ℕ → Bool
any_on threads addr [] = false
any_on threads addr (t ∷ ts) = if sleeps_on threads addr t then true else any_on threads addr ts

hassleepers_from_lem :
    (addr rounds i : ℕ) (pre rest : List ℕ) (k : Kernel)
    → i ≡ length pre
    → rounds ≡ length rest
    → Table k.sleepers (pre ++ rest)
    → AllAllocated k.threads rest
    → hassleepers_from addr rounds i k ≡ done (if any_on k.threads addr rest then 1 else 0)
unfolding hassleepers_from
hassleepers_from_lem addr zero i pre [] k e n t all = refl
hassleepers_from_lem addr zero i pre (t ∷ rest) k e n tb all = absurd (omega arith)
hassleepers_from_lem addr (suc rounds) i pre [] k e n tb all = absurd (omega arith)
hassleepers_from_lem addr (suc rounds) i pre (t ∷ rest) k e n tb (have, all) = ground (
  arith,
  have.1,
  ap (Array.getguy k.sleepers) e,
  getguy-Table pre t rest tb,
  hassleepers_from_lem addr rounds (i + 1) (pre ++ t ∷ []) rest k
      (omega (arith, length-append pre (t ∷ []))) (omega arith)
      (retable tb (sym (append_assoc pre (t ∷ []) rest))) all,
)

pub thread_hassleepers_lem :
    (addr : ℕ) (ss : List ℕ) (k : Kernel)
    → 0 < k.curspl
    → Table k.sleepers ss
    → AllAllocated k.threads ss
    → thread_hassleepers addr k ≡ done (if any_on k.threads addr ss then 1 else 0)
unfolding thread_hassleepers Array.getnum
thread_hassleepers_lem addr ss k up t all =
    ground (arith, hassleepers_from_lem addr k.sleepers.num 0 [] ss k refl (num-Table t) t all)

any_on-left_asleep :
    (threads : ℕ → Option Thread) (addr : ℕ) (ss : List ℕ)
    → any_on threads addr (left_asleep threads addr ss) ≡ false
any_on-left_asleep threads addr [] = refl
any_on-left_asleep threads addr (t ∷ ts) = ground (arith, any_on-left_asleep threads addr ts)

pub left_asleep-AllAllocated :
    (threads : ℕ → Option Thread) (addr : ℕ) (ss : List ℕ)
    → AllAllocated threads ss
    → AllAllocated threads (left_asleep threads addr ss)
left_asleep-AllAllocated threads addr [] all = tt
left_asleep-AllAllocated threads addr (t ∷ ts) (have, all) =
    elim (Bool-cases (sleeps_on threads addr t)) [
      | inl on ↦ rw on (left_asleep-AllAllocated threads addr ts all)
      | inr off ↦ rw off (have, left_asleep-AllAllocated threads addr ts all)
    ]

-- After thread_wakeup no thread sleeps on the address, as sem_destroy and lock_destroy test.
pub hassleepers-wakeup :
    (mem : ℕ → Bool) (addr : ℕ) (ss rs : List ℕ) (k : Kernel) {k' : Kernel}
    → 0 < k.curspl
    → Table k.sleepers ss
    → (r : Ready k.runqueue rs) → length rs + length (woken k.threads addr ss) < r.q.size
    → AllAllocated k.threads ss
    → thread_wakeup mem addr k ≡ done k'
    → thread_hassleepers addr k' ≡ done 0
hassleepers-wakeup mem addr ss rs k {k'} up t r room all e =
    let (k₁, run, tb, rd, f) = thread_wakeup_lem mem addr ss rs k up t r room all in
    let same : k' ≡ k₁ = ground (arith, run) in
    let here : AllAllocated k₁.threads (left_asleep k.threads addr ss) =
      subst (λ threads. AllAllocated threads (left_asleep k.threads addr ss)) (sym f.threads)
        (left_asleep-AllAllocated k.threads addr ss all) in
    rw same (
      thread_hassleepers_lem addr (left_asleep k.threads addr ss) k₁ (rw f.curspl up) tb here
      ∙ rw (f.threads, any_on-left_asleep k.threads addr ss) refl)
