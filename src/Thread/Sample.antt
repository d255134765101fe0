-- ===== src/Thread/Sample.antt =====
-- kern/thread/thread.c: a kernel of four threads, for the tests.
use ece344_operating_systems.Base.{
  ℕ, refl, Bool, true, false, Option, none, some, [], ◌∷◌, arith, ◌==◌, if◌then◌else◌,
}
use ece344_operating_systems.Array.{Array}
use ece344_operating_systems.Queue.{Queue}
use ece344_operating_systems.Thread.{Thread, Kernel}
use ece344_operating_systems.Thread.Tables.{Table, Ready}

abbrev pub nothing_left : ℕ → Bool
nothing_left n = false

abbrev pub asleep_on : ℕ → Thread
asleep_on addr = record {
  sleepaddr = addr;
  stack = some true;
  pid_value = 2;
  exit_status = 0;
  has_vmspace = false;
  has_cwd = false;
}

-- Thread 1 runs, 2 is runnable, 3 and 4 sleep on 100 and 200, and 5 is dead.
abbrev pub threads : ℕ → Option Thread
threads t =
    if t == 3
    then some (asleep_on 100)
    else if t == 4
    then some (asleep_on 200)
    else if t == 7
    then none
    else some (asleep_on 0)

abbrev pub run_queue : Queue ℕ
run_queue = record {
  size = 4;
  nextwrite = 1;
  nextread = 0;
  cells = some 2 ∷ none ∷ none ∷ none ∷ [];
}

abbrev pub sleepers : Array ℕ
sleepers = record { num = 2; max = 4; v = some (some 3 ∷ some 4 ∷ none ∷ none ∷ []) }

abbrev pub zombies : Array ℕ
zombies = record { num = 1; max = 2; v = some (some 5 ∷ none ∷ []) }

abbrev pub kernel : Kernel
kernel = record {
  curthread = some 1;
  threads = threads;
  sleepers = sleepers;
  zombies = zombies;
  runqueue = some run_queue;
  numthreads = 4;
  pids = [];
  curspl = 15;
}

pub sleepers-Table : Table sleepers (3 ∷ 4 ∷ [])
sleepers-Table = record {
  valid = record { within = omega arith; stored = refl; small = omega arith };
  holds = refl;
}

pub zombies-Table : Table zombies (5 ∷ [])
zombies-Table = record {
  valid = record { within = omega arith; stored = refl; small = omega arith };
  holds = refl;
}

abbrev pub run_queue-Ready : Ready (some run_queue) (2 ∷ [])
run_queue-Ready = record {
  q = run_queue;
  here = refl;
  valid = record {
    read_in = omega arith;
    write_in = omega arith;
    stored = refl;
    small = omega arith;
  };
  holds = refl;
}
