-- ===== src/Syscalls/Waitpid.antt =====
-- kern/userprog/system_calls_PI.c: sys_waitpid against what thread_exit and exorcise do to the
-- entry of the child.
use ece344_operating_systems.Base.{
  ℕ, ◌≡◌, ◌≢◌, inl, inr, Bool, false, Option-cases, some, List, arith, done, panic,
}
use ece344_operating_systems.Base.Errno.{einval}
use ece344_operating_systems.Copy.{User}
use ece344_operating_systems.Copy.Block.{all_of, spill-fatal}
use ece344_operating_systems.Pid.{Pid, pid_search, release_pid}
use ece344_operating_systems.Pid.Numbered.{search-release}
use ece344_operating_systems.Thread.{Kernel}
use ece344_operating_systems.Thread.Calls.{current_pid}
use ece344_operating_systems.Syscalls.{answered, minus_one, int_bytes, reap, sys_waitpid}

-- After exorcise has given up the pid of the child, sys_waitpid says EINVAL: the exit code is
-- lost to a parent that waits later, since the entry has no parent any more.
pub waitpid-release :
    (mem : ℕ → Bool) (sem_at : ℕ → ℕ) (events : List ℕ) (pid status me : ℕ) (k : Kernel) (u : User)
    → current_pid k ≡ done me
    → me ≢ 0
    → status ≢ 0
    → sys_waitpid mem sem_at events pid status 0 (record k { pids = release_pid k.pids pid }) u
      ≡ done (answered einval minus_one (record k { pids = release_pid k.pids pid }) u)
unfolding sys_waitpid current_pid
waitpid-release mem sem_at events pid status me k u cur some_pid set =
    elim (Option-cases (pid_search k.pids pid)) [
      | inl z ↦ ground (arith, z, cur, set, search-release k.pids pid pid)
      | inr (p, s) ↦ ground (arith, s, cur, set, some_pid, search-release k.pids pid pid)
    ]

-- Where `*status` may not be written, sys_waitpid for a child that has exited is fatal to the
-- kernel.
pub waitpid-unwritable :
    (mem : ℕ → Bool) (sem_at : ℕ → ℕ) (events : List ℕ) (pid code status me : ℕ) (p : Pid)
    (k : Kernel) (u : User)
    → pid_search k.pids pid ≡ some p
    → p.did_exit ≡ 1
    → p.exit_code ≡ some code
    → current_pid k ≡ done me
    → p.p_pid ≡ me
    → status ≢ 0
    → u.badfaultfunc ≡ false
    → all_of u.writable status 4 ≡ false
    → sys_waitpid mem sem_at events pid status 0 k u ≡ panic
unfolding sys_waitpid reap current_pid
waitpid-unwritable mem sem_at events pid code status me p k u found d c cur mine set off no_write =
    ground (arith, found, d, c, cur, mine, set, spill-fatal u status (int_bytes code) off no_write)
