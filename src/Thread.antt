-- ===== src/Thread.antt =====
-- kern/thread/thread.c: the thread tables and the context switch. A `struct thread *` is a number,
-- and `threads` gives what stands at it, `none` where nothing is allocated (any more). The code
-- after md_switch is run by the thread that was switched to, so mi_switch is cut there in two:
-- `switch_out` up to md_switch, and `switch_in` after it. Address spaces, the working directory
-- and the pcb are a flag each, since this file only passes them on. `mem` says for which sizes
-- kmalloc returns a block during the call.
pub mod Tables
pub mod Wakeup
pub mod Hassleepers
pub mod Awake
pub mod Switch
pub mod Exorcise
pub mod Emptied
pub mod Marked
pub mod Exit
pub mod Calls
pub mod Fork
pub mod Sample
mod Tests
use ece344_operating_systems.Base.{
  ℕ, zero, suc, ◌+◌, ◌-◌, Bool, true, false, ◌&&◌, not, Option, none, some, List, [], ◌∷◌, ltb,
  ◌==◌, if◌then◌else◌, Run, done, panic, spin, ◌>>=◌, ◌>>◌, require, deref,
}
use ece344_operating_systems.Array
use ece344_operating_systems.Array.{Array}
use ece344_operating_systems.Queue
use ece344_operating_systems.Queue.{Queue}
use ece344_operating_systems.Scheduler
use ece344_operating_systems.Pid.{Pid, assign_pid, release_pid, pid_search}
use ece344_operating_systems.Base.Errno.{enomem}

-- `struct thread`. `stack` is `none` for NULL, and says else whether the magic numbers at its end
-- are intact; `sleepaddr` is 0 for NULL.
pub record Thread : Type 0 where
  pub sleepaddr : ℕ
  pub stack : Option Bool
  pub pid_value : ℕ
  pub exit_status : ℕ
  pub has_vmspace : Bool
  pub has_cwd : Bool

-- The static variables of thread.c and scheduler.c, `curthread`, `curspl` and the list of pids.
pub record Kernel : Type 0 where
  pub curthread : Option ℕ
  pub threads : ℕ → Option Thread
  pub sleepers : Array ℕ
  pub zombies : Array ℕ
  pub runqueue : Option (Queue ℕ)
  pub numthreads : ℕ
  pub pids : List Pid
  pub curspl : ℕ

pub data ThreadState : Type 0 where
  ready : ThreadState
  sleep : ThreadState
  zomb : ThreadState

abbrev pub set_thread : (ℕ → Option Thread) → ℕ → Option Thread → ℕ → Option Thread
set_thread threads t th a = if a == t then th else threads a

-- The loop of thread_wakeup at index `i`; the `i--` after a removal and the `i++` of the loop
-- leave it at the same index.
unfoldable pub wakeup_from : (ℕ → Bool) → ℕ → ℕ → ℕ → Kernel → Run Kernel
wakeup_from mem addr zero i k = spin
wakeup_from mem addr (suc fuel) i k = elim (ltb i (Array.getnum k.sleepers)) [
  | false ↦ done k
  | true ↦ do
    cell ← Array.getguy k.sleepers i
    t ← deref cell
    th ← deref (k.threads t)
    elim (th.sleepaddr == addr) [
      | false ↦ wakeup_from mem addr fuel (i + 1) k
      | true ↦ do
        sleepers' ← Array.remove k.sleepers i
        (result, runqueue') ← Scheduler.make_runnable mem k.curspl k.runqueue t
        require (result == 0)
        wakeup_from mem addr fuel i (record k { sleepers = sleepers'; runqueue = runqueue' })
    ]
]

unfoldable pub thread_wakeup : (ℕ → Bool) → ℕ → Kernel → Run Kernel
thread_wakeup mem addr k = do
  require (ltb 0 k.curspl)
  wakeup_from mem addr (suc (Array.getnum k.sleepers)) 0 k

-- The loop of thread_hassleepers, with `rounds` to go.
unfoldable pub hassleepers_from : ℕ → ℕ → ℕ → Kernel → Run ℕ
hassleepers_from addr zero i k = done 0
hassleepers_from addr (suc rounds) i k = do
  cell ← Array.getguy k.sleepers i
  t ← deref cell
  th ← deref (k.threads t)
  elim (th.sleepaddr == addr) [ true ↦ done 1 | false ↦ hassleepers_from addr rounds (i + 1) k ]

unfoldable pub thread_hassleepers : ℕ → Kernel → Run ℕ
thread_hassleepers addr k = do
  require (ltb 0 k.curspl)
  hassleepers_from addr (Array.getnum k.sleepers) 0 k

abbrev pub is_current : Kernel → ℕ → Bool
is_current k t = elim k.curthread [ none ↦ false | some c ↦ c == t ]

-- The frees take the structure out of the table.
unfoldable pub thread_destroy : ℕ → Kernel → Run Kernel
thread_destroy t k = do
  require (ltb 0 k.curspl)
  require (not (is_current k t))
  th ← deref (k.threads t)
  require (not th.has_vmspace)
  require (not th.has_cwd)
  done (record k { threads = set_thread k.threads t none })

-- The loop of exorcise, with `rounds` to go.
unfoldable pub exorcise_from : ℕ → ℕ → Kernel → Run Kernel
exorcise_from zero i k = done k
exorcise_from (suc rounds) i k = do
  cell ← Array.getguy k.zombies i
  z ← deref cell
  th ← deref (k.threads z)
  require (not (is_current k z))
  k' ← thread_destroy z (record k { pids = release_pid k.pids th.pid_value })
  exorcise_from rounds (i + 1) k'

unfoldable pub exorcise : (ℕ → Bool) → Kernel → Run Kernel
exorcise mem k = do
  require (ltb 0 k.curspl)
  k' ← exorcise_from (Array.getnum k.zombies) 0 k
  (result, zombies') ← Array.setsize mem k'.zombies 0
  require (result == 0)
  done (record k' { zombies = zombies' })

-- The sleepers are dropped on the floor.
unfoldable pub thread_killall : (ℕ → Bool) → Kernel → Run Kernel
thread_killall mem k = do
  require (ltb 0 k.curspl)
  (result, sleepers') ← Array.setsize mem k.sleepers 0
  require (result == 0)
  done (record k { sleepers = sleepers' })

unfoldable pub thread_panic : (ℕ → Bool) → Kernel → Run Kernel
thread_panic mem k = do
  require (ltb 0 k.curspl)
  k' ← thread_killall mem k
  (dropped, runqueue') ← Scheduler.killall k'.curspl k'.runqueue
  done (record k' { runqueue = runqueue' })

abbrev pub stack_intact : Thread → Bool
stack_intact th = elim th.stack [ none ↦ true | some magic ↦ magic ]

-- Where mi_switch puts the current thread: the error code, which it asserts to be 0.
unfoldable pub stash : (ℕ → Bool) → ThreadState → ℕ → Kernel → Run (ℕ × Kernel)
stash mem ready cur k = do
  (result, runqueue') ← Scheduler.make_runnable mem k.curspl k.runqueue cur
  done (result, record k { runqueue = runqueue' })
stash mem sleep cur k = do
  (result, sleepers') ← Array.add mem k.sleepers cur
  done (result, record k { sleepers = sleepers' })
stash mem zomb cur k = do
  (result, zombies') ← Array.add mem k.zombies cur
  done (result, record k { zombies = zombies' })

-- scheduler(), where the interrupts that each call of cpu_idle lets in call thread_wakeup for the
-- addresses of the list. (The thread_yield of hardclock returns at once: there is no current
-- thread.)
unfoldable pub schedule : (ℕ → Bool) → List ℕ → Kernel → Run (ℕ × List ℕ × Kernel)
schedule mem [] k = do
  (cell, later, runqueue') ← Scheduler.scheduler mem k.curspl [] k.runqueue
  next ← deref cell
  done (next, [], record k { runqueue = runqueue' })
schedule mem (addr ∷ later) k = do
  q ← deref k.runqueue
  let idle : Run (ℕ × List ℕ × Kernel) = do k' ← thread_wakeup mem addr k; schedule mem later k'
  let picked : Run (ℕ × List ℕ × Kernel) = do
    (cell, none_used, runqueue') ← Scheduler.scheduler mem k.curspl [] k.runqueue
    next ← deref cell
    done (next, addr ∷ later, record k { runqueue = runqueue' })
  if Queue.empty q then idle else picked

-- mi_switch, up to md_switch.
unfoldable pub switch_out : (ℕ → Bool) → List ℕ → ThreadState → Kernel → Run (List ℕ × Kernel)
switch_out mem events state k = do
  require (ltb 0 k.curspl)
  elim k.curthread [
    | none ↦ done (events, k)
    | some cur ↦ do
      th ← deref (k.threads cur)
      require (stack_intact th)
      (result, k') ← stash mem state cur (record k { curthread = none })
      require (result == 0)
      (next, events', k'') ← schedule mem events k'
      done (events', record k'' { curthread = some next })
  ]

-- mi_switch, after md_switch.
unfoldable pub switch_in : (ℕ → Bool) → Kernel → Run Kernel
switch_in mem k = exorcise mem k
