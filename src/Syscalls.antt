-- ===== src/Syscalls.antt =====
-- kern/userprog/system_calls_PI.c: the system calls. A code or a result is a 32-bit word, and
-- `minus_one` is -1. What the console prints is a list of characters: the lock of kprintf is left
-- out. getch and gettime are arguments: the key that is read, and the time.
pub mod Write
pub mod Read
pub mod Waitpid
mod Lost
mod Tests
use ece344_operating_systems.Base.{
  ℕ, zero, suc, ◌+◌, ◌-◌, ◌*◌, ◌/◌, ◌%◌, ◌^◌, Bool, true, false, ◌&&◌, ◌||◌, not, Option, none,
  some, List, [], ◌∷◌, ◌++◌, ltb, ◌==◌, if◌then◌else◌, Run, done, panic, ◌>>=◌, ◌>>◌, require,
  deref,
}
use ece344_operating_systems.Base.Errno.{einval, efault, eunimp, enospc, ebadf}
use ece344_operating_systems.Copy.{User, Jump, returned, jumped, copyin, copyout, spill}
use ece344_operating_systems.Pid.{Pid, pid_search}
use ece344_operating_systems.Thread.{Kernel}
use ece344_operating_systems.Thread.Calls.{spl_high, update_entry, set_sem, current_pid}
use ece344_operating_systems.Synch
use ece344_operating_systems.Synch.{Semaphore, Turn, at_spl, proberen, proberen_again, verhogen}

abbrev pub minus_one : ℕ
minus_one = 2 ^ 32 - 1

-- An int in memory: the machine is big-endian.
abbrev pub int_bytes : ℕ → List ℕ
int_bytes n = n / 2 ^ 24 % 256 ∷ n / 2 ^ 16 % 256 ∷ n / 2 ^ 8 % 256 ∷ n % 256 ∷ []

-- The user's memory, what the console has printed, and how many blocks of kernel memory the calls
-- have not given back.
pub record Io : Type 0 where
  pub user : User
  pub console : List ℕ
  pub blocks : ℕ

-- The characters that `%s` prints: those before the first NUL.
unfoldable pub until_nul : List ℕ → List ℕ
until_nul [] = []
until_nul (c ∷ cs) = if c == 0 then [] else c ∷ until_nul cs

-- The code, `*retval` and the state.
unfoldable pub sys_write : (ℕ → Bool) → ℕ → ℕ → ℕ → Io → Run (ℕ × ℕ × Io)
sys_write mem fd buf nbytes s =
    let write : Run (ℕ × ℕ × Io) = do
      (copy_error, bytes, user') ← copyin s.user buf nbytes
      let failed : Run (ℕ × ℕ × Io) =
          done (copy_error, minus_one, record s { user = user'; blocks = s.blocks + 1 })
      let written : Run (ℕ × ℕ × Io) = do
        kernel_buffer ← deref bytes
        done (0, nbytes, record s { user = user'; console = s.console ++ until_nul kernel_buffer })
      if copy_error == 0 then written else failed
    in if not (fd == 1 || fd == 2)
      then done (ebadf, minus_one, s)
      else if buf == 0
      then done (efault, minus_one, s)
      else if mem ((nbytes + 1) % 2 ^ 32)
      then write
      else done (enospc, minus_one, s)

unfoldable pub sys_read : ℕ → ℕ → ℕ → ℕ → Io → Run (ℕ × ℕ × Io)
sys_read key fd buf buflen s =
    let read : Run (ℕ × ℕ × Io) = do
      (copy_error, user') ← copyout s.user (key ∷ []) buf buflen
      done (
          if copy_error == 0
          then (0, buflen, record s { user = user'; console = s.console ++ key ∷ [] })
          else (copy_error, minus_one, record s { user = user' }))
    in if not (fd == 0)
      then done (ebadf, minus_one, s)
      else if buf == 0
      then done (efault, minus_one, s)
      else if buflen == 1
      then read
      else done (eunimp, minus_one, s)

-- `*retval` is `none` where it is not written.
unfoldable pub sys_time : ℕ × ℕ → ℕ → ℕ → User → Run (ℕ × Option ℕ × User)
sys_time (kern_seconds, kern_nanoseconds) seconds nanoseconds u = do
  (first_error, u₁) ← give kern_seconds seconds u
  let later : Run (ℕ × Option ℕ × User) = do
    (second_error, u₂) ← give kern_nanoseconds nanoseconds u₁
    done (if second_error == 0 then (0, some kern_seconds, u₂) else (second_error, none, u₂))
  if first_error == 0 then later else done (first_error, none, u₁)
  where
    give : ℕ → ℕ → User → Run (ℕ × User)
    give n dest u = if dest == 0 then done (0, u) else copyout u (int_bytes n) dest 4

unfoldable pub sys_getpid : Kernel → Run (ℕ × ℕ)
sys_getpid k = do me ← current_pid k; done (0, me)

-- How a turn of sys_waitpid ends: with the code and `*retval`, or asleep before md_switch.
pub data Waiting : Type 0 where
  answered : ℕ → ℕ → Kernel → User → Waiting
  asleep : List ℕ → Kernel → Waiting

-- `*status = checkChild->exitCode; *retval = checkChild->pidValue;` The write to the user's memory
-- goes by no copyout.
unfoldable pub reap : ℕ → ℕ → Pid → Kernel → User → Run Waiting
reap spl status child k u = do
  code ← deref child.exit_code
  (j, u') ← spill u status (int_bytes code)
  done (answered 0 child.pid_value (at_spl spl k) u')

-- What comes after the turn of P: V and the answer, or the sleep.
unfoldable pub after_proberen : (ℕ → Bool) → ℕ → ℕ → ℕ → ℕ → User → Turn Semaphore → Run Waiting
after_proberen mem addr spl pid status u (Synch.returned s k) = do
  (s', k') ← verhogen mem addr s k
  let pids' = update_entry k'.pids pid (set_sem s'.count)
  child ← deref (pid_search pids' pid)
  reap spl status child (record k' { pids = pids' }) u
after_proberen mem addr spl pid status u (Synch.sleeping s events k) = done (asleep events k)

-- `parentSem` of the child; the assert of P refuses NULL.
unfoldable pub parent_semaphore : Pid → Run Semaphore
parent_semaphore child = elim child.parent_sem [
  | none ↦ panic
  | some count ↦ done (record { count = count })
]

-- sys_waitpid up to its answer or to md_switch. `sem_at` gives the address of the semaphore of a
-- pid.
unfoldable pub sys_waitpid : (ℕ → Bool) → (ℕ → ℕ) → List ℕ → ℕ → ℕ → ℕ → Kernel → User → Run Waiting
sys_waitpid mem sem_at events pid status options k u =
    let found : Pid → Run Waiting = λ child. do
      me ← current_pid k
      let wait : Run Waiting = do
        s ← parent_semaphore child
        turn ← proberen mem events false (sem_at pid) s (at_spl spl_high k)
        after_proberen mem (sem_at pid) k.curspl pid status u turn
      let ready : Run Waiting = reap k.curspl status child k u
      if me == child.p_pid
          then (if child.did_exit == 1 then ready else wait)
          else done (answered einval minus_one k u)
    in if not (options == 0)
      then done (answered einval minus_one k u)
      else if status == 0
      then done (answered efault minus_one k u)
      else elim (pid_search k.pids pid) [
        | none ↦ done (answered einval minus_one k u)
        | some child ↦ found child
      ]

-- sys_waitpid from the end of md_switch on.
unfoldable pub sys_waitpid_again :
    (ℕ → Bool) → (ℕ → ℕ) → List ℕ → ℕ → ℕ → ℕ → Kernel → User → Run Waiting
sys_waitpid_again mem sem_at events pid status spl k u = do
  child ← deref (pid_search k.pids pid)
  s ← parent_semaphore child
  turn ← proberen_again mem events false (sem_at pid) spl_high s k
  after_proberen mem (sem_at pid) spl pid status u turn
