-- ===== src/Thread/Wakeup.antt =====
-- kern/thread/thread.c: thread_wakeup over the tables as lists.
use mathlib.Core.List.{append-nil, append_assoc}
use ece344_operating_systems.Base.{
  ℕ, zero, suc, ◌+◌, ◌<◌, ◌≡◌, refl, ap, sym, ◌∙◌, inl, inr, Bool, false, Bool-cases, Option, none,
  some, List, [], ◌∷◌, ◌++◌, arith, ◌==◌, if◌then◌else◌, done, length, length-append,
}
use ece344_operating_systems.Array
use ece344_operating_systems.Array.{Array}
use ece344_operating_systems.Array.Remove.{remove-max}
use ece344_operating_systems.Thread.{Thread, Kernel, wakeup_from, thread_wakeup}
use ece344_operating_systems.Thread.Tables.{
  Table, Ready, retable, requeue, num-Table, getguy-Table, remove-Table, make_runnable-Ready,
}

abbrev pub sleeps_on : (ℕ → Option Thread) → ℕ → ℕ → Bool
sleeps_on threads addr t = elim (threads t) [ none ↦ false | some th ↦ th.sleepaddr == addr ]

-- The threads of a list that sleep on the address, and the others, in their order.
abbrev pub woken : (ℕ → Option Thread) → ℕ → List ℕ → List ℕ
woken threads addr [] = []
woken threads addr (t ∷ ts) =
    if sleeps_on threads addr t then t ∷ woken threads addr ts else woken threads addr ts

abbrev pub left_asleep : (ℕ → Option Thread) → ℕ → List ℕ → List ℕ
left_asleep threads addr [] = []
left_asleep threads addr (t ∷ ts) =
    if sleeps_on threads addr t
    then left_asleep threads addr ts
    else t ∷ left_asleep threads addr ts

abbrev pub Allocated : (ℕ → Option Thread) → ℕ → Type 0
Allocated threads t = (th : Thread) × (threads t ≡ some th)

-- Every thread of the list has its structure.
abbrev pub AllAllocated : (ℕ → Option Thread) → List ℕ → Type 0
AllAllocated threads [] = Unit
AllAllocated threads (t ∷ ts) = Allocated threads t × AllAllocated threads ts

-- What a wakeup leaves alone.
pub record Frame (k k' : Kernel) : Type 0 where
  pub curthread : k'.curthread ≡ k.curthread
  pub threads : k'.threads ≡ k.threads
  pub zombies : k'.zombies ≡ k.zombies
  pub numthreads : k'.numthreads ≡ k.numthreads
  pub pids : k'.pids ≡ k.pids
  pub curspl : k'.curspl ≡ k.curspl

-- The tables after the wakeup of the threads `rest`, behind `pre` in the table of sleepers.
pub record Woke (k : Kernel) (size : ℕ) (pre rest rs : List ℕ) (addr : ℕ) (k' : Kernel)
    : Type 0 where
  pub sleepers : Table k'.sleepers (pre ++ left_asleep k.threads addr rest)
  pub runnable : Ready k'.runqueue (rs ++ woken k.threads addr rest)
  pub same_size : runnable.q.size ≡ size
  pub same_max : k'.sleepers.max ≡ k.sleepers.max
  pub frame : Frame k k'

wakeup_from_lem :
    (mem : ℕ → Bool) (addr fuel i : ℕ) (pre rest rs : List ℕ) (k : Kernel)
    → i ≡ length pre
    → length rest < fuel
    → 0 < k.curspl
    → Table k.sleepers (pre ++ rest)
    → (r : Ready k.runqueue rs) → length rs + length (woken k.threads addr rest) < r.q.size
    → AllAllocated k.threads rest
    → (k' : Kernel) × (wakeup_from mem addr fuel i k ≡ done k')
      × Woke k r.q.size pre rest rs addr k'
unfolding wakeup_from Array.getnum
wakeup_from_lem mem addr zero i pre rest rs k e enough up t r room all = absurd (omega arith)
wakeup_from_lem mem addr (suc fuel) i pre [] rs k e enough up t r room all = (
  k,
  ground (arith, num-Table t, length-append pre []),
  record {
    sleepers = t;
    runnable = requeue r (sym (append-nil rs));
    same_size = refl;
    same_max = refl;
    frame = record {
      curthread = refl;
      threads = refl;
      zombies = refl;
      numthreads = refl;
      pids = refl;
      curspl = refl;
    };
  },
)
wakeup_from_lem mem addr (suc fuel) i pre (t ∷ rest) rs k e enough up tb r room (have, all) =
    let (th, here) = have in
    elim (Bool-cases (th.sleepaddr == addr)) [
      | inl on ↦
          let (sl, rm, tb') = remove-Table pre t rest tb in
          let (rq, mk, r', same) =
            make_runnable-Ready mem k.curspl t r up (ground (arith, here, on)) in
          let k₁ : Kernel = record k { sleepers = sl; runqueue = rq } in
          let (k', run, w) =
            wakeup_from_lem mem addr fuel i pre rest (rs ++ t ∷ []) k₁ e (omega arith) up tb' r'
              (ground (arith, here, on, same, length-append rs (t ∷ []))) all in
          (
            k',
            ground (
              arith,
              run,
              here,
              on,
              num-Table tb,
              length-append pre (t ∷ rest),
              e,
              ap (Array.getguy k.sleepers) e,
              ap (Array.remove k.sleepers) e,
              getguy-Table pre t rest tb,
              rm,
              mk,
            ),
            record {
              sleepers = retable w.sleepers (ap (λ l. pre ++ l) (ground (arith, here, on)));
              runnable = requeue w.runnable (
                  append_assoc rs (t ∷ []) (woken k.threads addr rest)
                  ∙ ap (λ l. rs ++ l) (ground (arith, here, on)));
              same_size = w.same_size ∙ same;
              same_max = w.same_max ∙ remove-max k.sleepers (length pre) rm;
              frame = record {
                curthread = w.frame.curthread;
                threads = w.frame.threads;
                zombies = w.frame.zombies;
                numthreads = w.frame.numthreads;
                pids = w.frame.pids;
                curspl = w.frame.curspl;
              };
            },
          )
      | inr off ↦
          let tb' : Table k.sleepers ((pre ++ t ∷ []) ++ rest) =
            retable tb (sym (append_assoc pre (t ∷ []) rest)) in
          let (k', run, w) =
            wakeup_from_lem mem addr fuel (i + 1) (pre ++ t ∷ []) rest rs k
              (omega (arith, length-append pre (t ∷ []))) (omega arith) up tb' r
              (ground (arith, here, off)) all in
          (
            k',
            ground (
              arith,
              run,
              here,
              off,
              num-Table tb,
              length-append pre (t ∷ rest),
              e,
              ap (Array.getguy k.sleepers) e,
              getguy-Table pre t rest tb,
            ),
            record {
              sleepers = retable w.sleepers (
                  append_assoc pre (t ∷ []) (left_asleep k.threads addr rest)
                  ∙ ap (λ l. pre ++ l) (ground (arith, here, off)));
              runnable = requeue w.runnable (ap (λ l. rs ++ l) (ground (arith, here, off)));
              same_size = w.same_size;
              same_max = w.same_max;
              frame = w.frame;
            },
          )
    ]

-- The same with the size of the run queue, for a wakeup that comes after another.
pub thread_wakeup-Woke :
    (mem : ℕ → Bool) (addr : ℕ) (ss rs : List ℕ) (k : Kernel)
    → 0 < k.curspl
    → Table k.sleepers ss
    → (r : Ready k.runqueue rs) → length rs + length (woken k.threads addr ss) < r.q.size
    → AllAllocated k.threads ss
    → (k' : Kernel) × (thread_wakeup mem addr k ≡ done k') × Woke k r.q.size [] ss rs addr k'
unfolding thread_wakeup Array.getnum
thread_wakeup-Woke mem addr ss rs k up t r room all =
    let (k', e, w) =
      wakeup_from_lem mem addr (suc k.sleepers.num) 0 [] ss rs k refl (omega (arith, num-Table t))
        up t r room all in
    (k', ground (arith, e), w)

-- thread_wakeup takes exactly the threads that sleep on the address out of the table of sleepers,
-- and puts them behind the runnable ones, both in their order. With room in the run queue it
-- needs no memory. It changes nothing else.
pub thread_wakeup_lem :
    (mem : ℕ → Bool) (addr : ℕ) (ss rs : List ℕ) (k : Kernel)
    → 0 < k.curspl
    → Table k.sleepers ss
    → (r : Ready k.runqueue rs) → length rs + length (woken k.threads addr ss) < r.q.size
    → AllAllocated k.threads ss
    → (k' : Kernel) × (thread_wakeup mem addr k ≡ done k')
      × Table k'.sleepers (left_asleep k.threads addr ss)
      × Ready k'.runqueue (rs ++ woken k.threads addr ss)
      × Frame k k'
thread_wakeup_lem mem addr ss rs k up t r room all =
    let (k', e, w) = thread_wakeup-Woke mem addr ss rs k up t r room all in
    (k', e, w.sleepers, w.runnable, w.frame)
