-- ===== src/Thread/Switch.antt =====
-- kern/thread/thread.c: mi_switch up to md_switch.
use mathlib.Core.List.{map-append}
use ece344_operating_systems.Base.{
  ℕ, suc, ◌+◌, ◌<◌, ◌^◌, ◌≡◌, refl, ap, sym, ◌∙◌, Bool, true, false, Option, none, some, List, [],
  ◌∷◌, ◌++◌, map, arith, done, panic, length,
}
use ece344_operating_systems.Array
use ece344_operating_systems.Array.{Array}
use ece344_operating_systems.Array.Ops.{put, put-IsValid, extended, cut-Resized}
use ece344_operating_systems.Array.Reserve.{add_fits}
use ece344_operating_systems.Queue.{Queue}
use ece344_operating_systems.Queue.Head.{empty_iff}
use ece344_operating_systems.Queue.Refine.{addtail-refused}
use ece344_operating_systems.Scheduler.{make_runnable}
use ece344_operating_systems.Scheduler.Order.{scheduler_lem}
use ece344_operating_systems.Thread.{
  Thread, Kernel, ThreadState, ready, sleep, zomb, stash, schedule, switch_out, stack_intact,
}
use ece344_operating_systems.Thread.Tables.{
  Table, Ready, requeue, num-Table, count-Ready, make_runnable-Ready,
}

-- array_add on a table with a cell to spare, whatever kmalloc says.
pub add-Table :
    (mem : ℕ → Bool) {a : Array ℕ} {ts : List ℕ} (t : ℕ)
    → Table a ts
    → length ts < a.max
    → (a' : Array ℕ) × (Array.add mem a t ≡ done (0, a'))
      × Table a' (ts ++ t ∷ [])
      × (a'.max ≡ a.max)
unfolding put
add-Table mem {a} {ts} t tb room =
    let lt : a.num < a.max = omega (arith, num-Table tb) in
    let a₁ : Array ℕ = record a { num = a.num + 1 } in
    let resized = cut-Resized a (a.num + 1) tb.valid (omega arith) in
    (
      put a₁ a.num t,
      add_fits mem a t tb.valid lt,
      record {
        valid = put-IsValid a₁ a.num t resized.valid;
        holds =
            extended a a₁ t tb.valid resized
            ∙ ap (λ l. l ++ some t ∷ []) tb.holds
            ∙ sym (map-append some ts (t ∷ []));
      },
      refl,
    )

-- The three lists after the current thread has been put away.
abbrev pub runnable_after : ThreadState → ℕ → List ℕ → List ℕ
runnable_after ready c rs = rs ++ c ∷ []
runnable_after sleep c rs = rs
runnable_after zomb c rs = rs

abbrev pub asleep_after : ThreadState → ℕ → List ℕ → List ℕ
asleep_after ready c ss = ss
asleep_after sleep c ss = ss ++ c ∷ []
asleep_after zomb c ss = ss

abbrev pub dead_after : ThreadState → ℕ → List ℕ → List ℕ
dead_after ready c zs = zs
dead_after sleep c zs = zs
dead_after zomb c zs = zs ++ c ∷ []

-- The tables hold these threads, each with room for one more.
pub record Holds (k : Kernel) (rs ss zs : List ℕ) : Type 0 where
  pub runnable : Ready k.runqueue rs
  pub asleep : Table k.sleepers ss
  pub dead : Table k.zombies zs
  pub run_room : suc (length rs) < runnable.q.size
  pub sleep_room : length ss < k.sleepers.max
  pub dead_room : length zs < k.zombies.max

pub record Switched (k : Kernel) (next : ℕ) (rs ss zs : List ℕ) (k' : Kernel) : Type 0 where
  pub current : k'.curthread ≡ some next
  pub runnable : Ready k'.runqueue rs
  pub asleep : Table k'.sleepers ss
  pub dead : Table k'.zombies zs
  pub same_threads : k'.threads ≡ k.threads
  pub same_count : k'.numthreads ≡ k.numthreads
  pub same_pids : k'.pids ≡ k.pids
  pub same_spl : k'.curspl ≡ k.curspl

schedule-Ready :
    (mem : ℕ → Bool) (events : List ℕ) (n : ℕ) (rest : List ℕ) (k : Kernel)
    → 0 < k.curspl
    → Ready k.runqueue (n ∷ rest)
    → (rq : Option (Queue ℕ)) × (schedule mem events k
        ≡ done (n, events, record k { runqueue = rq }))
      × Ready rq rest
unfolding schedule
schedule-Ready mem [] n rest k up r =
    let (q', e, v, l) =
      (scheduler_lem mem k.curspl r.q r.valid up).0 [] (some n) (map some rest) r.holds in
    (some q', ground (arith, r.here, e), record { q = q'; here = refl; valid = v; holds = l })
schedule-Ready mem (addr ∷ later) n rest k up r =
    let (q', e, v, l) =
      (scheduler_lem mem k.curspl r.q r.valid up).0 [] (some n) (map some rest) r.holds in
    (
      some q',
      ground (arith, r.here, e, (empty_iff r.q r.valid).0, r.holds),
      record { q = q'; here = refl; valid = v; holds = l },
    )

stash_lem :
    (mem : ℕ → Bool) (state : ThreadState) (c : ℕ) (rs ss zs : List ℕ) (k : Kernel)
    → 0 < k.curspl
    → Holds k rs ss zs
    → (k' : Kernel) × (stash mem state c k ≡ done (0, k'))
      × Ready k'.runqueue (runnable_after state c rs)
      × Table k'.sleepers (asleep_after state c ss)
      × Table k'.zombies (dead_after state c zs)
      × (k'.threads ≡ k.threads)
      × (k'.numthreads ≡ k.numthreads)
      × (k'.pids ≡ k.pids)
      × (k'.curspl ≡ k.curspl)
unfolding stash
stash_lem mem ready c rs ss zs k up h =
    let (rq, e, r, s) = make_runnable-Ready mem k.curspl c h.runnable up h.run_room in
    (record k { runqueue = rq }, ground (arith, e), r, h.asleep, h.dead, refl, refl, refl, refl)
stash_lem mem sleep c rs ss zs k up h =
    let (a, e, t, m) = add-Table mem c h.asleep h.sleep_room in
    (record k { sleepers = a }, ground (arith, e), h.runnable, t, h.dead, refl, refl, refl, refl)
stash_lem mem zomb c rs ss zs k up h =
    let (a, e, t, m) = add-Table mem c h.dead h.dead_room in
    (record k { zombies = a }, ground (arith, e), h.runnable, h.asleep, t, refl, refl, refl, refl)

-- With room in the tables mi_switch fails for no answer of kmalloc: the current thread goes to the
-- table of its new state, and the first runnable thread becomes the current one. A thread that
-- yields is itself the last in that row. No table, count or pid changes otherwise.
pub switch_out_lem :
    (mem : ℕ → Bool) (events : List ℕ) (state : ThreadState) (c n : ℕ) (th : Thread)
    (rs ss zs rest : List ℕ) (k : Kernel)
    → 0 < k.curspl
    → k.curthread ≡ some c
    → k.threads c ≡ some th
    → stack_intact th ≡ true
    → Holds k rs ss zs
    → runnable_after state c rs ≡ n ∷ rest
    → (k' : Kernel) × (switch_out mem events state k ≡ done (events, k'))
      × Switched k n rest (asleep_after state c ss) (dead_after state c zs) k'
unfolding switch_out
switch_out_lem mem events state c n th rs ss zs rest k up cur here intact h e =
    let k₀ : Kernel = record k { curthread = none } in
    let held : Holds k₀ rs ss zs = record {
      runnable = h.runnable;
      asleep = h.asleep;
      dead = h.dead;
      run_room = h.run_room;
      sleep_room = h.sleep_room;
      dead_room = h.dead_room;
    } in
    let (k₁, s, r, a, d, t, c', p, l) = stash_lem mem state c rs ss zs k₀ up held in
    let (rq, sc, r') = schedule-Ready mem events n rest k₁ (rw l up) (requeue r e) in
    (
      record k₁ { runqueue = rq; curthread = some n },
      ground (arith, cur, here, intact, s, sc),
      record {
        current = refl;
        runnable = r';
        asleep = a;
        dead = d;
        same_threads = t;
        same_count = c';
        same_pids = p;
        same_spl = l;
      },
    )

-- A run queue whose block has as many cells as there are threads, which is what thread_fork
-- preallocates, has no room for all of them: when every other thread is runnable and kmalloc
-- gives nothing, a thread that yields trips the assert of mi_switch.
pub switch_out-refused :
    (mem : ℕ → Bool) (events : List ℕ) (c : ℕ) (th : Thread) (rs : List ℕ) (k : Kernel)
    → 0 < k.curspl
    → k.curthread ≡ some c
    → k.threads c ≡ some th
    → stack_intact th ≡ true
    → (r : Ready k.runqueue rs) → k.numthreads ≡ suc (length rs)
    → r.q.size ≡ k.numthreads
    → r.q.size + 1 < 2 ^ 29
    → ((n : ℕ) → mem n ≡ false)
    → switch_out mem events ready k ≡ panic
unfolding switch_out stash make_runnable
switch_out-refused mem events c th rs k up cur here intact r all_ready fits small refused = ground (
  arith,
  cur,
  here,
  intact,
  r.here,
  addtail-refused mem r.q c r.valid small (omega (arith, count-Ready r)) refused,
)
