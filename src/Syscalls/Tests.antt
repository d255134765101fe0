-- ===== src/Syscalls/Tests.antt =====
-- kern/userprog/system_calls_PI.c: the theorems at a process with one child.
use ece344_operating_systems.Base.{
  ℕ, ◌+◌, ◌%◌, ◌≡◌, ◌≢◌, refl, Bool, true, false, ◌&&◌, ◌||◌, not, none, some, [], ◌∷◌, ◌++◌, arith,
  ltb, leb, ◌==◌, if◌then◌else◌, done,
}
use ece344_operating_systems.Copy.{User}
use ece344_operating_systems.Copy.Block.{bytes_at}
use ece344_operating_systems.Pid.{Pid, pid_search}
use ece344_operating_systems.Thread.{Kernel, switch_in}
use ece344_operating_systems.Thread.Sample.{nothing_left, kernel, asleep_on, zombies-Table}
use ece344_operating_systems.Thread.Calls.{exited, current_pid}
use ece344_operating_systems.Syscalls.{Io, answered, minus_one, until_nul, sys_write, sys_waitpid}
use ece344_operating_systems.Syscalls.Write.{write_error, sys_write_lem}
use ece344_operating_systems.Syscalls.Lost.{waitpid-switch_in}
use ece344_operating_systems.Base.Errno.{einval}
use ece344_operating_systems.Thread.Exorcise.{IsDead}

-- The addresses from 4096 to 8191; every eighth byte is 0.
abbrev page : ℕ → Bool
page a = leb 4096 a && ltb a 8192

abbrev user : User
user = record { readable = page; writable = page; byte = λ a. a % 8; badfaultfunc = false }

abbrev io : Io
io = record { user = user; console = []; blocks = 0 }

abbrev plenty : ℕ → Bool
plenty n = true

sys_write_lem_example :
    (write_error plenty 1 4101 6 user ≡ 0
      → sys_write plenty 1 4101 6 io
        ≡ done (0, 6, record io { console = [] ++ until_nul (bytes_at user.byte 4101 6) }))
    × (write_error plenty 1 4101 6 user ≢ 0
        → (n : ℕ) × (sys_write plenty 1 4101 6 io
            ≡ done (write_error plenty 1 4101 6 user, minus_one, record io { blocks = n }))
          × (n ≡ (
              if (1 == 1 || 1 == 2) && (not (4101 == 0) && plenty ((6 + 1) % 0x1_0000_0000))
              then 0 + 1
              else 0)))
sys_write_lem_example = sys_write_lem plenty 1 4101 6 io (omega arith) (omega arith) refl

-- Process 2, which runs, and its child 3.
abbrev child : Pid
child = record {
  pid_value = 3;
  is_used = 1;
  p_pid = 2;
  did_exit = 0;
  exit_code = none;
  my_thread = some 4;
  parent_sem = some 0;
}

abbrev parent_kernel : Kernel
parent_kernel = record kernel { pids = child ∷ [] }

abbrev dead_child : Pid
dead_child = exited 9 0 child

parent-current : current_pid parent_kernel ≡ done 2
unfolding current_pid
parent-current = refl

-- Thread 5 is the child, which has exited with 9, and the parent runs again.
abbrev waiting_kernel : Kernel
waiting_kernel = record kernel {
  threads = λ t. if t == 5 then some (record (asleep_on 0) { pid_value = 3 }) else kernel.threads t;
  pids = dead_child ∷ [];
}

five-IsDead : IsDead waiting_kernel 5
five-IsDead = record {
  thread = record (asleep_on 0) { pid_value = 3 };
  here = refl;
  no_vmspace = refl;
  no_cwd = refl;
  not_current = refl;
}

waitpid-switch_in_example :
    (k' : Kernel) × (switch_in nothing_left waiting_kernel ≡ done k')
    × (sys_waitpid nothing_left (λ n. n) [] 3 4104 0 k' user
        ≡ done (answered einval minus_one k' user))
waitpid-switch_in_example =
    waitpid-switch_in nothing_left (λ n. n) [] 5 1 4104 (asleep_on 0) (5 ∷ []) waiting_kernel user
      refl refl (omega arith) (omega arith) (omega arith) zombies-Table (five-IsDead, tt, tt) ground
      arith

dead-found : pid_search (dead_child ∷ []) 3 ≡ some dead_child
unfolding pid_search
dead-found = refl

dead-current : current_pid (record parent_kernel { pids = dead_child ∷ [] }) ≡ done 2
unfolding current_pid
dead-current = refl
