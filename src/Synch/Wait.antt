-- ===== src/Synch/Wait.antt =====
-- kern/thread/synch.c over the tables of kern/thread/thread.c: what a turn of P and lock_acquire
-- does to the threads, and whom V, lock_release, cv_signal and cv_broadcast wake.
use mathlib.Core.List.{append_assoc}
use ece344_operating_systems.Base.{
  ℕ, ◌+◌, ◌-◌, ◌<◌, ◌^◌, ◌≡◌, ◌≢◌, refl, ap, ◌∙◌, inl, inr, Bool, true, false, Bool-cases, Option,
  none, some, List, [], ◌∷◌, ◌++◌, arith, done, length, length-append, subst,
}
use ece344_operating_systems.Thread.{Thread, Kernel, sleep, set_thread, stack_intact, thread_wakeup}
use ece344_operating_systems.Thread.Tables.{Table, Ready, requeue}
use ece344_operating_systems.Thread.Wakeup.{
  Frame, woken, left_asleep, AllAllocated, sleeps_on, thread_wakeup_lem, thread_wakeup-Woke,
}
use ece344_operating_systems.Thread.Hassleepers.{any_on, left_asleep-AllAllocated}
use ece344_operating_systems.Thread.Switch.{Holds, Switched, switch_out_lem}
use ece344_operating_systems.Thread.Calls.{thread_sleep, spl_high}
use ece344_operating_systems.Synch.{
  Semaphore, Lock, returned, sleeping, at_spl, take_sem, give_sem, sem_turn, proberen, verhogen,
  give_lock, lock_release, cv_signal, cv_broadcast,
}

-- The kernel with the current thread `c` marked as asleep on `addr`, at raised spl.
abbrev pub marked : ℕ → Thread → ℕ → Kernel → Kernel
marked c th addr k = record k {
  threads = set_thread k.threads c (some (record th { sleepaddr = addr }));
  curspl = spl_high;
}

-- P on a semaphore of count 0 puts the current thread behind the sleepers, asleep on the semaphore,
-- and makes the first runnable thread the current one; on any other it takes one from the count,
-- and changes neither the threads nor the spl.
pub proberen_lem :
    (mem : ℕ → Bool) (events : List ℕ) (addr c n : ℕ) (th : Thread) (rs ss zs : List ℕ)
    (s : Semaphore) (k : Kernel)
    → k.curthread ≡ some c
    → k.threads c ≡ some th
    → stack_intact th ≡ true
    → Holds k (n ∷ rs) ss zs
    → (s.count ≡ 0
        → (k' : Kernel) × (proberen mem events false addr s k ≡ done (sleeping s events k'))
          × Switched (marked c th addr k) n rs (ss ++ c ∷ []) zs k')
      × (s.count ≢ 0
          → (s' : Semaphore) × (proberen mem events false addr s k ≡ done (returned s' k))
            × (s'.count + 1 ≡ s.count))
unfolding proberen sem_turn thread_sleep take_sem
proberen_lem mem events addr c n th rs ss zs s k cur here intact h = (
  λ z.
      let held : Holds (marked c th addr k) (n ∷ rs) ss zs = record {
        runnable = h.runnable;
        asleep = h.asleep;
        dead = h.dead;
        run_room = h.run_room;
        sleep_room = h.sleep_room;
        dead_room = h.dead_room;
      } in
      let (k', e, sw) =
        switch_out_lem mem events sleep c n (record th { sleepaddr = addr }) (n ∷ rs) ss zs rs
          (marked c th addr k) (omega arith) cur (ground (arith)) intact held refl in
      (k', ground (arith, cur, here, z, e), sw),
  λ nz. (record s { count = s.count - 1 }, ground (arith, nz), omega (arith, nz)),
)

-- Whoever is left in the table does not sleep on the address.
left_asleep-awake :
    (threads : ℕ → Option Thread) (addr : ℕ) (ss : List ℕ)
    → any_on threads addr (left_asleep threads addr ss) ≡ false
left_asleep-awake threads addr [] = refl
left_asleep-awake threads addr (t ∷ ts) = elim (Bool-cases (sleeps_on threads addr t)) [
  | inl on ↦ rw on (left_asleep-awake threads addr ts)
  | inr off ↦ rw (off, off) (left_asleep-awake threads addr ts)
]

-- V adds one to the count and makes every thread that sleeps on the semaphore runnable, in order,
-- behind those that are; it leaves none asleep on it, and the spl as it was.
pub verhogen_lem :
    (mem : ℕ → Bool) (addr : ℕ) (ss rs : List ℕ) (s : Semaphore) (k : Kernel)
    → s.count + 1 < 2 ^ 31
    → Table k.sleepers ss
    → (r : Ready k.runqueue rs) → length rs + length (woken k.threads addr ss) < r.q.size
    → AllAllocated k.threads ss
    → (k' : Kernel) × (verhogen mem addr s k ≡ done (record s { count = s.count + 1 }, k'))
      × Table k'.sleepers (left_asleep k.threads addr ss)
      × Ready k'.runqueue (rs ++ woken k.threads addr ss)
      × Frame k k'
      × (any_on k'.threads addr (left_asleep k.threads addr ss) ≡ false)
unfolding verhogen give_sem
verhogen_lem mem addr ss rs s k small t r room all =
    let (k', e, t', r', f) =
      thread_wakeup_lem mem addr ss rs (at_spl spl_high k) (omega arith) t r room all in
    (
      at_spl k.curspl k',
      ground (arith, e),
      t',
      r',
      record {
        curthread = f.curthread;
        threads = f.threads;
        zombies = f.zombies;
        numthreads = f.numthreads;
        pids = f.pids;
        curspl = refl;
      },
      ap (λ ths. any_on ths addr (left_asleep k.threads addr ss)) f.threads
          ∙ left_asleep-awake k.threads addr ss,
    )

-- thread_wakeup_lem, with the table of threads known by another name.
wakeup_over :
    (mem : ℕ → Bool) (addr : ℕ) (ss rs : List ℕ) (k : Kernel) {threads : ℕ → Option Thread}
    → k.threads ≡ threads
    → 0 < k.curspl
    → Table k.sleepers ss
    → (r : Ready k.runqueue rs) → length rs + length (woken threads addr ss) < r.q.size
    → AllAllocated threads ss
    → (k' : Kernel) × (thread_wakeup mem addr k ≡ done k')
      × Table k'.sleepers (left_asleep threads addr ss)
      × Ready k'.runqueue (rs ++ woken threads addr ss)
      × Frame k k'
wakeup_over mem addr ss rs k same up t r =
    subst
      (λ ths.
        length rs + length (woken ths addr ss) < r.q.size
        → AllAllocated ths ss
        → (k' : Kernel) × (thread_wakeup mem addr k ≡ done k')
          × Table k'.sleepers (left_asleep ths addr ss)
          × Ready k'.runqueue (rs ++ woken ths addr ss)
          × Frame k k')
      same (thread_wakeup_lem mem addr ss rs k up t r)

-- The threads that cv_signal makes runnable, in order: those asleep on the lock, then on the cv.
abbrev pub signalled : (ℕ → Option Thread) → ℕ → ℕ → List ℕ → List ℕ
signalled threads cv lock ss =
    woken threads lock ss ++ woken threads cv (left_asleep threads lock ss)

-- cv_signal gives the lock back and makes all the threads runnable that sleep on the condition
-- variable, after those that sleep on the lock: it wakes no fewer than cv_broadcast does.
pub cv_signal_lem :
    (mem : ℕ → Bool) (cv lock : ℕ) (ss rs : List ℕ) (l : Lock) (k : Kernel)
    → l.count + 1 < 2 ^ 31
    → Table k.sleepers ss
    → (r : Ready k.runqueue rs)
    → length rs
        + length (woken k.threads lock ss)
        + length (woken k.threads cv (left_asleep k.threads lock ss))
      < r.q.size
    → AllAllocated k.threads ss
    → (k' : Kernel) × (cv_signal mem cv lock l k
        ≡ done (record { count = l.count + 1; lock_thread = none }, k'))
      × (cv_broadcast mem cv lock l k ≡ cv_signal mem cv lock l k)
      × Table k'.sleepers (left_asleep k.threads cv (left_asleep k.threads lock ss))
      × Ready k'.runqueue (rs ++ signalled k.threads cv lock ss)
      × Frame k k'
unfolding cv_signal cv_broadcast lock_release give_lock
cv_signal_lem mem cv lock ss rs l k small t r room all =
    let high = at_spl spl_high k in
    let (k₁, e₁, w₁) = thread_wakeup-Woke mem lock ss rs high (omega arith) t r (omega arith) all in
    let same : k₁.threads ≡ k.threads = w₁.frame.threads in
    let (k₂, e₂, t₂, r₂, f) =
      wakeup_over mem cv (left_asleep k.threads lock ss) (rs ++ woken k.threads lock ss)
        (at_spl spl_high (at_spl spl_high k₁)) same (omega arith) w₁.sleepers w₁.runnable
        (omega (arith, room, w₁.same_size, length-append rs (woken k.threads lock ss)))
        (left_asleep-AllAllocated k.threads lock ss all) in
    (
      at_spl k.curspl k₂,
      ground (arith, e₁, e₂),
      refl,
      t₂,
      requeue r₂ (
          append_assoc rs (woken k.threads lock ss)
            (woken k.threads cv (left_asleep k.threads lock ss))),
      record {
        curthread = f.curthread ∙ w₁.frame.curthread;
        threads = f.threads ∙ w₁.frame.threads;
        zombies = f.zombies ∙ w₁.frame.zombies;
        numthreads = f.numthreads ∙ w₁.frame.numthreads;
        pids = f.pids ∙ w₁.frame.pids;
        curspl = refl;
      },
    )
