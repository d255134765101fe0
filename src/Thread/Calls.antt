-- ===== src/Thread/Calls.antt =====
-- kern/thread/thread.c: thread_create, thread_fork, thread_exit, thread_yield, thread_sleep and
-- the start of the thread system. Where a `struct thread` comes to stand, and at which address the
-- semaphore of a pid stands, are arguments. A P that has to wait is `spin`: the wait is not
-- followed here.
use ece344_operating_systems.Base.{
  ℕ, zero, suc, ◌+◌, ◌-◌, Bool, true, false, ◌&&◌, not, Option, none, some, List, [], ◌∷◌, ltb,
  ◌==◌, if◌then◌else◌, Run, done, panic, spin, ◌>>=◌, ◌>>◌, require, deref,
}
use ece344_operating_systems.Base.Errno.{enomem}
use ece344_operating_systems.Array
use ece344_operating_systems.Array.{Array}
use ece344_operating_systems.Scheduler
use ece344_operating_systems.Pid.{Pid, assign_pid, pid_search}
use ece344_operating_systems.Thread.{
  Thread, Kernel, ready, sleep, zomb, set_thread, stack_intact, switch_out, thread_wakeup,
}

abbrev pub spl_high : ℕ
spl_high = 15

-- What kmalloc grants while a thread is made: its structure, its name, its stack, and the rest by
-- size.
pub record Grants : Type 0 where
  pub struct_ok : Bool
  pub name_ok : Bool
  pub stack_ok : Bool
  pub mem : ℕ → Bool

-- A write through the pointer that pid_search returns.
unfoldable pub update_entry : List Pid → ℕ → (Pid → Pid) → List Pid
update_entry [] value f = []
update_entry (p ∷ rest) value f =
    if p.pid_value == value then f p ∷ rest else p ∷ update_entry rest value f

abbrev pub set_sem : ℕ → Pid → Pid
set_sem count p = record p { parent_sem = some count }

-- `P(pid_search(pidHead, value)->parentSem)`, which does not have to wait.
unfoldable pub take_parent_sem : List Pid → ℕ → Run (List Pid)
take_parent_sem pids value = do
  p ← deref (pid_search pids value)
  elim p.parent_sem [
    | none ↦ panic
    | some zero ↦ spin
    | some (suc count) ↦ done (update_entry pids value (set_sem count))
  ]

-- `curthread->pidValue`
unfoldable pub current_pid : Kernel → Run ℕ
current_pid k = do cur ← deref k.curthread; th ← deref (k.threads cur); done th.pid_value

abbrev pub new_thread : ℕ → Thread
new_thread pid = record {
  sleepaddr = 0;
  stack = none;
  pid_value = pid;
  exit_status = 0;
  has_vmspace = false;
  has_cwd = false;
}

-- The early returns come after splhigh and before splx.
unfoldable pub thread_create : Grants → ℕ → Kernel → Run (Option ℕ × Kernel)
thread_create g at k =
    let high : Kernel = record k { curspl = spl_high } in
    let first : Run (Option ℕ × Kernel) =
      done (some at, record k { threads = set_thread k.threads at (some (new_thread 1)) }) in
    let later : Run (Option ℕ × Kernel) = do
      me ← current_pid high
      (pid, pids) ← assign_pid g.mem me k.pids at
      pids' ← take_parent_sem pids pid
      done (
        some at,
        record k { threads = set_thread k.threads at (some (new_thread pid)); pids = pids' },
      )
    in if g.struct_ok && g.name_ok
      then (if k.numthreads == 0 then first else later)
      else done (none, high)

-- thread_bootstrap; the boot thread keeps its NULL stack.
unfoldable pub thread_bootstrap : (ℕ → Bool) → Grants → ℕ → Kernel → Run Kernel
thread_bootstrap mem g at k = do
  sleepers ← deref_or_panic (Array.create mem)
  zombies ← deref_or_panic (Array.create mem)
  (me, k') ←
      thread_create g at (record k { sleepers = sleepers; zombies = zombies; numthreads = 0 })
  me' ← deref_or_panic me
  done (record k' { curthread = some me'; numthreads = 1 })
  where
    deref_or_panic : {A : Type 0} → Option A → Run A
    deref_or_panic none = panic
    deref_or_panic (some x) = done x

-- The part of thread_fork that runs with interrupts off: the code, and the kernel with the new
-- thread runnable.
unfoldable pub make_room : (ℕ → Bool) → ℕ → Kernel → Run (ℕ × Kernel)
make_room mem at k = do
  (r₁, sleepers') ← Array.preallocate mem k.sleepers (k.numthreads + 1)
  let k₁ : Kernel = record k { sleepers = sleepers' }
  let with_zombies : Run (ℕ × Kernel) = do
    (r₂, zombies') ← Array.preallocate mem k.zombies (k.numthreads + 1)
    let k₂ : Kernel = record k₁ { zombies = zombies' }
    let with_queue : Run (ℕ × Kernel) = do
      (r₃, runqueue') ← Scheduler.preallocate mem k.curspl k.runqueue (k.numthreads + 1)
      let k₃ : Kernel = record k₂ { runqueue = runqueue' }
      let runnable : Run (ℕ × Kernel) = do
        (r₄, runqueue'') ← Scheduler.make_runnable mem k.curspl runqueue' at
        done (r₄, record k₃ { runqueue = runqueue'' })
      if r₃ == 0 then runnable else done (r₃, k₃)
    if r₂ == 0 then with_queue else done (r₂, k₂)
  if r₁ == 0 then with_zombies else done (r₁, k₁)

-- thread_fork: the code, the new thread, and the kernel. A failure frees the structure; the pid
-- that it had stays taken.
unfoldable pub thread_fork : Grants → ℕ → Kernel → Run (ℕ × Option ℕ × Kernel)
thread_fork g at k = do
  (made, k₁) ← thread_create g at k
  elim made [
    | none ↦ done (enomem, none, k₁)
    | some t ↦
        let freed : Kernel → Kernel = λ j. record j { threads = set_thread j.threads t none } in
        let forked : Run (ℕ × Option ℕ × Kernel) = do
          cur ← deref k₁.curthread
          parent ← deref (k₁.threads cur)
          child ← deref (k₁.threads t)
          let ready_child : Thread = record child { stack = some true; has_cwd = parent.has_cwd }
          let k₂ : Kernel = record k₁ { threads = set_thread k₁.threads t (some ready_child) }
          (result, k₃) ← make_room g.mem t (record k₂ { curspl = spl_high })
          let ok : Kernel = record k₃ { numthreads = k₃.numthreads + 1; curspl = k₂.curspl }
          let failed : Kernel = freed (record k₃ { curspl = k₂.curspl })
          done (if result == 0 then (0, some t, ok) else (result, none, failed))
        in if g.stack_ok then forked else done (enomem, none, freed k₁)
  ]

-- `myPid->didExit = 1; myPid->exitCode = exitCode; V(myPid->parentSem);`, less the wakeup
abbrev pub exited : ℕ → ℕ → Pid → Pid
exited code count p = record p {
  did_exit = 1;
  exit_code = some code;
  parent_sem = some (count + 1);
}

unfoldable pub mark_exited : List Pid → ℕ → ℕ → Run (List Pid)
mark_exited pids value code = do
  p ← deref (pid_search pids value)
  elim p.parent_sem [
    | none ↦ panic
    | some count ↦ done (update_entry pids value (exited code count))
  ]

-- thread_exit, up to md_switch.
unfoldable pub thread_exit : (ℕ → Bool) → (ℕ → ℕ) → List ℕ → ℕ → Kernel → Run (List ℕ × Kernel)
thread_exit mem sem_at events code k = do
  cur ← deref k.curthread
  th ← deref (k.threads cur)
  require (stack_intact th)
  let th' : Thread = record th { has_vmspace = false; has_cwd = false; exit_status = 1 }
  pids' ← mark_exited k.pids th.pid_value code
  k' ←
      thread_wakeup mem (sem_at th.pid_value) (record k {
        threads = set_thread k.threads cur (some th');
        pids = pids';
        curspl = spl_high;
      })
  require (ltb 0 k'.numthreads)
  switch_out mem events zomb (record k' { numthreads = k'.numthreads - 1 })

-- thread_yield and thread_sleep, up to md_switch. The table of sleepers is a value here, so that the
-- assert of thread_yield that it is not NULL, as after thread_shutdown, has nothing to test.
unfoldable pub thread_yield : (ℕ → Bool) → List ℕ → Kernel → Run (List ℕ × Kernel)
thread_yield mem events k = switch_out mem events ready (record k { curspl = spl_high })

unfoldable pub thread_sleep : (ℕ → Bool) → List ℕ → Bool → ℕ → Kernel → Run (List ℕ × Kernel)
thread_sleep mem events in_interrupt addr k = do
  require (not in_interrupt)
  cur ← deref k.curthread
  th ← deref (k.threads cur)
  switch_out mem events sleep
      (record k { threads = set_thread k.threads cur (some (record th { sleepaddr = addr })) })

-- The end of thread_sleep, when the thread runs again.
unfoldable pub thread_awake : Kernel → Run Kernel
thread_awake k = do
  cur ← deref k.curthread
  th ← deref (k.threads cur)
  done (record k { threads = set_thread k.threads cur (some (record th { sleepaddr = 0 })) })
