-- ===== src/Thread/Tests.antt =====
-- kern/thread/thread.c: the theorems at a kernel of four threads.
use ece344_operating_systems.Base.{
  ℕ, ◌≡◌, ◌⊎◌, refl, none, some, [], ◌∷◌, arith, replicate, ltb, if◌then◌else◌, done, panic,
}
use ece344_operating_systems.Base.Errno.{enomem}
use ece344_operating_systems.Array
unfoldable use ece344_operating_systems.Base.{load}
use ece344_operating_systems.Queue.{Queue}
use ece344_operating_systems.Thread.{zomb, set_thread, exorcise_from, thread_destroy}
use ece344_operating_systems.Thread.{Kernel, ready, sleep, switch_out, thread_wakeup, exorcise}
use ece344_operating_systems.Thread.Sample.{
  nothing_left, asleep_on, threads, kernel, sleepers-Table, zombies-Table, run_queue-Ready,
}
use ece344_operating_systems.Thread.Tables.{Table, Ready}
use ece344_operating_systems.Thread.Wakeup.{Frame, thread_wakeup_lem}
use ece344_operating_systems.Thread.Switch.{Switched, switch_out_lem, switch_out-refused}
use ece344_operating_systems.Thread.Exorcise.{Exorcised, exorcise_lem, IsDead}
use ece344_operating_systems.Thread.Fork.{Kept, Roomy, make_room_lem}
use ece344_operating_systems.Thread.Calls.{make_room}
use ece344_operating_systems.Pid.{Pid, release_pid}
use ece344_operating_systems.Thread.Emptied.{exit_after_exorcise}

thread_wakeup_lem_example :
    (k' : Kernel) × (thread_wakeup nothing_left 200 kernel ≡ done k')
    × Table k'.sleepers (3 ∷ [])
    × Ready k'.runqueue (2 ∷ 4 ∷ [])
    × Frame kernel k'
thread_wakeup_lem_example =
    thread_wakeup_lem nothing_left 200 (3 ∷ 4 ∷ []) (2 ∷ []) kernel (omega arith) sleepers-Table
      run_queue-Ready (omega arith) ((asleep_on 100, refl), ((asleep_on 200, refl), tt))

switch_out_lem_example :
    (k' : Kernel) × (switch_out nothing_left [] sleep kernel ≡ done ([], k'))
    × Switched kernel 2 [] (3 ∷ 4 ∷ 1 ∷ []) (5 ∷ []) k'
switch_out_lem_example =
    switch_out_lem nothing_left [] sleep 1 2 (asleep_on 0) (2 ∷ []) (3 ∷ 4 ∷ []) (5 ∷ []) [] kernel
      (omega arith) refl refl refl
      (record {
        runnable = run_queue-Ready;
        asleep = sleepers-Table;
        dead = zombies-Table;
        run_room = omega arith;
        sleep_room = omega arith;
        dead_room = omega arith;
      })
      refl

make_room_lem_example :
    ((k' : Kernel) × (make_room nothing_left 7 kernel ≡ done (enomem, k'))
      × Kept (2 ∷ []) (3 ∷ 4 ∷ []) (5 ∷ []) k')
    ⊎ ((k' : Kernel) × (make_room nothing_left 7 kernel ≡ done (0, k'))
        × Roomy 4 7 (2 ∷ []) (3 ∷ 4 ∷ []) (5 ∷ []) k'
        × (k'.numthreads ≡ 4))
make_room_lem_example =
    make_room_lem nothing_left 7 (2 ∷ []) (3 ∷ 4 ∷ []) (5 ∷ []) kernel (omega arith)
      (record { runnable = run_queue-Ready; asleep = sleepers-Table; dead = zombies-Table })
      (omega arith) (omega arith)

-- Threads 1 to 4, with a run queue of four cells that the other three fill.
abbrev full_queue : Queue ℕ
full_queue = record {
  size = 4;
  nextwrite = 3;
  nextread = 0;
  cells = some 2 ∷ some 3 ∷ some 4 ∷ none ∷ [];
}

abbrev busy : Kernel
busy = record kernel { runqueue = some full_queue }

abbrev full_queue-Ready : Ready (some full_queue) (2 ∷ 3 ∷ 4 ∷ [])
full_queue-Ready = record {
  q = full_queue;
  here = refl;
  valid = record {
    read_in = omega arith;
    write_in = omega arith;
    stored = refl;
    small = omega arith;
  };
  holds = refl;
}

switch_out-refused_example : switch_out nothing_left [] ready busy ≡ panic
switch_out-refused_example =
    switch_out-refused nothing_left [] 1 (asleep_on 0) (2 ∷ 3 ∷ 4 ∷ []) busy (omega arith) refl refl
      refl full_queue-Ready refl refl (omega arith) (λ n. refl)

IsDead-five : IsDead kernel 5
IsDead-five = record {
  thread = asleep_on 0;
  here = refl;
  no_vmspace = refl;
  no_cwd = refl;
  not_current = refl;
}

exorcise_lem_example :
    (k' : Kernel) × (exorcise nothing_left kernel ≡ done k')
    × Exorcised kernel (5 ∷ []) k'
    × Table k'.zombies []
    × (k'.zombies.max ≡ (if ltb 16 2 then 0 else 2))
exorcise_lem_example =
    exorcise_lem nothing_left (5 ∷ []) kernel (omega arith) zombies-Table (IsDead-five, tt, tt)

-- Thread 1 exits; thread 3 waits for it on the semaphore at 100.
abbrev own_entry : Pid
own_entry = record {
  pid_value = 2;
  is_used = 1;
  p_pid = 1;
  did_exit = 0;
  exit_code = none;
  my_thread = some 1;
  parent_sem = some 0;
}

abbrev exiting : Kernel
exiting = record kernel { pids = own_entry ∷ [] }

-- A table of zombies with a block of 17 cells, emptied.
abbrev crowded : Kernel
crowded = record kernel {
  zombies = record { num = 1; max = 17; v = some (some 5 ∷ replicate 16 none) };
}

abbrev crowded-Table : Table crowded.zombies (5 ∷ [])
crowded-Table = record {
  valid = record { within = omega arith; stored = refl; small = omega arith };
  holds = refl;
}

abbrev emptied : Kernel
emptied = record kernel {
  threads = set_thread threads 5 none;
  zombies = record { num = 0; max = 0; v = none };
}

crowded-emptied : exorcise nothing_left crowded ≡ done emptied
unfolding exorcise exorcise_from thread_destroy release_pid Array.getnum Array.getguy Array.setsize
    load
crowded-emptied = refl

exit_after_exorcise_example : switch_out nothing_left [] zomb emptied ≡ panic
exit_after_exorcise_example =
    exit_after_exorcise nothing_left [] 1 (asleep_on 0) (5 ∷ []) crowded (omega arith) crowded-Table
      (
        record {
          thread = asleep_on 0;
          here = refl;
          no_vmspace = refl;
          no_cwd = refl;
          not_current = refl;
        },
        tt,
        tt,
      )
      (omega arith) crowded-emptied refl refl refl (λ n. refl)
