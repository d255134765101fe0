-- ===== src/Thread/Exorcise.antt =====
-- kern/thread/thread.c: exorcise and the dead threads.
use mathlib.Core.List.{append_assoc}
use ece344_operating_systems.Base.{
  member, ℕ, zero, suc, ◌+◌, ◌<◌, ◌≡◌, ◌≢◌, refl, ap, sym, ◌∙◌, inl, inr, Bool, false, Bool-cases,
  Option, none, some, List, [], ◌∷◌, ◌++◌, arith, ltb, if◌then◌else◌, done, length, length-append,
  subst,
}
use ece344_operating_systems.Array
use ece344_operating_systems.Array.{Array, bytes}
use ece344_operating_systems.Array.Inv
use ece344_operating_systems.Array.Ops.{not_null}
use ece344_operating_systems.Pid.{Pid, release_pid}
use ece344_operating_systems.Thread.{
  Thread, Kernel, set_thread, is_current, thread_destroy, exorcise_from, exorcise,
}
use ece344_operating_systems.Thread.Tables.{Table, num-Table, getguy-Table, retable}

-- A thread that has gone through thread_exit and is not running.
pub record IsDead (k : Kernel) (z : ℕ) : Type 0 where
  pub thread : Thread
  pub here : k.threads z ≡ some thread
  pub no_vmspace : thread.has_vmspace ≡ false
  pub no_cwd : thread.has_cwd ≡ false
  pub not_current : is_current k z ≡ false

abbrev pub Avoids : ℕ → List ℕ → Type 0
Avoids z [] = Unit
Avoids z (y ∷ ys) = (y ≢ z) × Avoids z ys

-- Each thread of the list is dead, and none stands there twice.
abbrev pub AllDead : Kernel → List ℕ → Type 0
AllDead k [] = Unit
AllDead k (z ∷ zs) = IsDead k z × Avoids z zs × AllDead k zs

-- The pids that are left, and the structures.
abbrev pub pid_in : Option Thread → ℕ
pid_in none = 0
pid_in (some th) = th.pid_value

abbrev pub release_all : (ℕ → Option Thread) → List ℕ → List Pid → List Pid
release_all threads [] pids = pids
release_all threads (z ∷ zs) pids = release_all threads zs (release_pid pids (pid_in (threads z)))

pub record Exorcised (k : Kernel) (zs : List ℕ) (k' : Kernel) : Type 0 where
  pub freed : (t : ℕ) → k'.threads t ≡ (if member t zs then none else k.threads t)
  pub pids : k'.pids ≡ release_all k.threads zs k.pids
  pub current : k'.curthread ≡ k.curthread
  pub sleepers : k'.sleepers ≡ k.sleepers
  pub runqueue : k'.runqueue ≡ k.runqueue
  pub numthreads : k'.numthreads ≡ k.numthreads
  pub curspl : k'.curspl ≡ k.curspl

abbrev pub without : Kernel → ℕ → List Pid → Kernel
without k z pids = record k { threads = set_thread k.threads z none; pids = pids }

AllDead-without :
    (k : Kernel) (z : ℕ) (pids : List Pid) (zs : List ℕ)
    → Avoids z zs
    → AllDead k zs
    → AllDead (without k z pids) zs
AllDead-without k z pids [] av all = tt
AllDead-without k z pids (y ∷ ys) (ne, av) (dead, avy, all) = (
  record {
    thread = dead.thread;
    here = ground (arith, dead.here);
    no_vmspace = dead.no_vmspace;
    no_cwd = dead.no_cwd;
    not_current = dead.not_current;
  },
  avy,
  AllDead-without k z pids ys av all,
)

set_thread-ne :
    (threads : ℕ → Option Thread) (z y : ℕ) → y ≢ z → set_thread threads z none y ≡ threads y
set_thread-ne threads z y ne = ground arith

release_all-without :
    (k : Kernel) (z : ℕ) (zs : List ℕ) (old pids : List Pid)
    → Avoids z zs
    → release_all (without k z old).threads zs pids ≡ release_all k.threads zs pids
release_all-without k z [] old pids av = refl
release_all-without k z (y ∷ ys) old pids (ne, av) =
    rw (release_all-without k z ys old (release_pid pids (pid_in ((without k z old).threads y))) av)
      (ap (λ o. release_all k.threads ys (release_pid pids (pid_in o)))
        (set_thread-ne k.threads z y ne))

exorcise_from_lem :
    (rounds i : ℕ) (pre zs : List ℕ) (k : Kernel)
    → 0 < k.curspl
    → i ≡ length pre
    → rounds ≡ length zs
    → Table k.zombies (pre ++ zs)
    → AllDead k zs
    → (k' : Kernel) × (exorcise_from rounds i k ≡ done k')
      × Exorcised k zs k'
      × (k'.zombies ≡ k.zombies)
unfolding exorcise_from thread_destroy
exorcise_from_lem zero i pre [] k up e n t all = (
  k,
  refl,
  record {
    freed = λ t. refl;
    pids = refl;
    current = refl;
    sleepers = refl;
    runqueue = refl;
    numthreads = refl;
    curspl = refl;
  },
  refl,
)
exorcise_from_lem zero i pre (z ∷ zs) k up e n t all = absurd (omega arith)
exorcise_from_lem (suc rounds) i pre [] k up e n t all = absurd (omega arith)
exorcise_from_lem (suc rounds) i pre (z ∷ zs) k up e n t (dead, av, all) =
    let pids' = release_pid k.pids dead.thread.pid_value in
    let k₁ = without k z pids' in
    let (k', run, x, same) =
      exorcise_from_lem rounds (i + 1) (pre ++ z ∷ []) zs k₁ up
        (omega (arith, length-append pre (z ∷ []))) (omega arith)
        (retable t (sym (append_assoc pre (z ∷ []) zs))) (AllDead-without k z pids' zs av all) in
    (
      k',
      ground (
        arith,
        run,
        e,
        ap (Array.getguy k.zombies) e,
        getguy-Table pre z zs t,
        dead.here,
        dead.no_vmspace,
        dead.no_cwd,
        dead.not_current,
      ),
      record {
        freed = λ t'. ground (arith, x.freed t');
        pids =
            x.pids
            ∙ release_all-without k z zs pids' pids' av
            ∙ ap (λ o. release_all k.threads zs (release_pid k.pids (pid_in o))) (sym dead.here);
        current = x.current;
        sleepers = x.sleepers;
        runqueue = x.runqueue;
        numthreads = x.numthreads;
        curspl = x.curspl;
      },
      same,
    )

-- array_setsize to 0 needs no memory. It frees a block of more than 16 cells, and keeps another.
setsize-zero :
    (mem : ℕ → Bool) (a : Array ℕ)
    → Inv.IsValid a
    → (a' : Array ℕ) × (Array.setsize mem a 0 ≡ done (0, a'))
      × Table a' []
      × (a'.max ≡ (if ltb 16 a.max then 0 else a.max))
unfolding Array.setsize
setsize-zero mem a h = elim (Bool-cases (ltb 16 a.max)) [
  | inl big ↦ (
    record { num = 0; max = 0; v = none },
    ground (arith, not_null a.v),
    record {
      valid = record { within = omega arith; stored = refl; small = omega arith };
      holds = refl;
    },
    rw big refl,
  )
  | inr kept ↦ (
    record a { num = 0 },
    ground arith,
    record {
      valid = record { within = omega arith; stored = h.stored; small = h.small };
      holds = refl;
    },
    rw kept refl,
  )
]

-- exorcise frees every dead thread and gives up its pid, touches no other thread, and cannot fail
-- for want of memory. It throws the block of the table away where that has more than 16 cells.
pub exorcise_lem :
    (mem : ℕ → Bool) (zs : List ℕ) (k : Kernel)
    → 0 < k.curspl
    → Table k.zombies zs
    → AllDead k zs
    → (k' : Kernel) × (exorcise mem k ≡ done k')
      × Exorcised k zs k'
      × Table k'.zombies []
      × (k'.zombies.max ≡ (if ltb 16 k.zombies.max then 0 else k.zombies.max))
unfolding exorcise Array.getnum
exorcise_lem mem zs k up t all =
    let (k', run, x, same) =
      exorcise_from_lem k.zombies.num 0 [] zs k up refl (num-Table t) t all in
    let (a, e, tb, m) = setsize-zero mem k'.zombies (subst Inv.IsValid (sym same) t.valid) in
    (
      record k' { zombies = a },
      ground (arith, run, e),
      record {
        freed = x.freed;
        pids = x.pids;
        current = x.current;
        sleepers = x.sleepers;
        runqueue = x.runqueue;
        numthreads = x.numthreads;
        curspl = x.curspl;
      },
      tb,
      m ∙ ap (λ (b : Array ℕ). if ltb 16 b.max then 0 else b.max) same,
    )
