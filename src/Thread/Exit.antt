-- ===== src/Thread/Exit.antt =====
-- kern/thread/thread.c: thread_exit as a whole, up to md_switch.
use ece344_operating_systems.Base.{ℕ, ◌-◌, false, Option, some, List}
use ece344_operating_systems.Array.{Array}
use ece344_operating_systems.Pid.{Pid}
use ece344_operating_systems.Thread.{Thread, Kernel, set_thread}
use ece344_operating_systems.Thread.Calls.{spl_high}

-- The structure of a thread that exits.
abbrev pub leaving : Thread → Thread
leaving th = record th { has_vmspace = false; has_cwd = false; exit_status = 1 }

-- The structures of the threads then.
abbrev pub threads_left : ℕ → Thread → Kernel → ℕ → Option Thread
threads_left c th k = set_thread k.threads c (some (leaving th))

-- The kernel when the exit has been marked, without the wakeup and the switch.
abbrev pub left : ℕ → Thread → List Pid → Kernel → Kernel
left c th pids k = record k {
  threads = set_thread k.threads c (some (leaving th));
  pids = pids;
  curspl = spl_high;
  numthreads = k.numthreads - 1;
}
