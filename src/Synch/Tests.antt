-- ===== src/Synch/Tests.antt =====
-- kern/thread/synch.c: the theorems at the sample kernel, and at two threads and a lock.
use ece344_operating_systems.Base.{
  ℕ, ◌+◌, ◌≡◌, ◌≢◌, refl, Bool, true, false, none, some, [], ◌∷◌, arith, done,
}
use ece344_operating_systems.Array
unfoldable use ece344_operating_systems.Base.{load, store}
use ece344_operating_systems.Queue
use ece344_operating_systems.Scheduler
use ece344_operating_systems.Thread.{
  Kernel, switch_out, stash, schedule, thread_hassleepers, hassleepers_from,
}
use ece344_operating_systems.Thread.Calls.{thread_sleep}
use ece344_operating_systems.Thread.Sample.{
  nothing_left, asleep_on, kernel, run_queue, sleepers-Table, zombies-Table, run_queue-Ready,
}
use ece344_operating_systems.Thread.Tables.{Table, Ready}
use ece344_operating_systems.Thread.Wakeup.{Frame}
use ece344_operating_systems.Thread.Hassleepers.{any_on}
use ece344_operating_systems.Thread.Switch.{Switched}
use ece344_operating_systems.Synch.{
  Semaphore, Lock, returned, sleeping, take_lock, proberen, verhogen, cv_signal, cv_broadcast,
  lock_create, lock_turn,
}
use ece344_operating_systems.Synch.Mutex.{
  System, Place, outside, trying, holding, move, has_sleepers, asks, sleeps, takes, elsewhere,
  Reachable, start, after, mutual_exclusion, no_lost_wakeup,
}
use ece344_operating_systems.Synch.Wait.{marked, proberen_lem, verhogen_lem, cv_signal_lem}

abbrev zero_sem : Semaphore
zero_sem = record { count = 0 }

proberen_lem_example :
    (zero_sem.count ≡ 0
      → (k' : Kernel) × (proberen nothing_left [] false 300 zero_sem kernel
          ≡ done (sleeping zero_sem [] k'))
        × Switched (marked 1 (asleep_on 0) 300 kernel) 2 [] (3 ∷ 4 ∷ 1 ∷ []) (5 ∷ []) k')
    × (zero_sem.count ≢ 0
        → (s' : Semaphore) × (proberen nothing_left [] false 300 zero_sem kernel
            ≡ done (returned s' kernel))
          × (s'.count + 1 ≡ zero_sem.count))
proberen_lem_example =
    proberen_lem nothing_left [] 300 1 2 (asleep_on 0) [] (3 ∷ 4 ∷ []) (5 ∷ []) zero_sem kernel refl
      refl refl
      (record {
        runnable = run_queue-Ready;
        asleep = sleepers-Table;
        dead = zombies-Table;
        run_room = omega arith;
        sleep_room = omega arith;
        dead_room = omega arith;
      })

verhogen_lem_example :
    (k' : Kernel) × (verhogen nothing_left 100 zero_sem kernel ≡ done (record { count = 1 }, k'))
    × Table k'.sleepers (4 ∷ [])
    × Ready k'.runqueue (2 ∷ 3 ∷ [])
    × Frame kernel k'
    × (any_on k'.threads 100 (4 ∷ []) ≡ false)
verhogen_lem_example =
    verhogen_lem nothing_left 100 (3 ∷ 4 ∷ []) (2 ∷ []) zero_sem kernel (omega arith) sleepers-Table
      run_queue-Ready (omega arith) ((asleep_on 100, refl), ((asleep_on 200, refl), tt))

abbrev held_by_1 : Lock
held_by_1 = record { count = 0; lock_thread = some 1 }

cv_signal_lem_example :
    (k' : Kernel) × (cv_signal nothing_left 200 100 held_by_1 kernel
      ≡ done (record { count = 1; lock_thread = none }, k'))
    × (cv_broadcast nothing_left 200 100 held_by_1 kernel
        ≡ cv_signal nothing_left 200 100 held_by_1 kernel)
    × Table k'.sleepers []
    × Ready k'.runqueue (2 ∷ 3 ∷ 4 ∷ [])
    × Frame kernel k'
cv_signal_lem_example =
    cv_signal_lem nothing_left 200 100 (3 ∷ 4 ∷ []) (2 ∷ []) held_by_1 kernel (omega arith)
      sleepers-Table run_queue-Ready (omega arith)
      ((asleep_on 100, refl), ((asleep_on 200, refl), tt))

abbrev new_lock : Lock
new_lock = record { count = 1; lock_thread = none }

abbrev taken_lock : Lock
taken_lock = record { count = 0; lock_thread = some 1 }

-- Thread 2 runs, and thread 1 is runnable.
abbrev second_runs : Kernel
second_runs = record kernel {
  curthread = some 2;
  runqueue = some (record run_queue { cells = some 1 ∷ none ∷ none ∷ none ∷ [] });
}

everything : ℕ → Bool
everything n = true

new_lock-created : lock_create everything 8 none ≡ some new_lock
unfolding lock_create everything
new_lock-created = refl

nobody_asleep : has_sleepers 300 kernel ≡ done 0
unfolding thread_hassleepers hassleepers_from Array.getnum Array.getguy load
nobody_asleep = refl

nobody_asleep_second : has_sleepers 300 second_runs ≡ done 0
unfolding thread_hassleepers hassleepers_from Array.getnum Array.getguy load
nobody_asleep_second = refl

first_takes :
    lock_turn nothing_left [] false 300 15 new_lock kernel ≡ done (returned taken_lock kernel)
unfolding lock_turn take_lock
first_takes = refl

second_sleeps :
    (k : Kernel) × (lock_turn nothing_left [] false 300 15 taken_lock second_runs
      ≡ done (sleeping taken_lock [] k))
    × (has_sleepers 300 k ≡ done 1)
unfolding lock_turn thread_sleep switch_out stash schedule thread_hassleepers hassleepers_from
    Array.add Array.setsize Array.getnum Array.getguy store load Scheduler.scheduler Queue.empty
    Queue.remhead
second_sleeps = (_, refl, refl)

abbrev places : ℕ → Place
places = move (move (move (λ t. outside) 1 trying) 1 holding) 2 trying

abbrev waiting : System
waiting = record { lock = taken_lock; kernel = second_sleeps.0; place = places }

waiting-Reachable : Reachable 300 waiting
waiting-Reachable =
    after
      (after
        (after
          (after
            (after (start everything 8 none kernel new_lock-created nobody_asleep) (asks 1 refl))
            (takes nothing_left [] false 1 15 refl refl first_takes))
          (elsewhere second_runs (λ e. nobody_asleep_second)))
        (asks 2 refl))
      (sleeps nothing_left [] false 2 15 refl refl second_sleeps.1)

abbrev one : ℕ
one = 1

mutual_exclusion_example : (one ≡ 1) × (waiting.lock.lock_thread ≡ some 1)
mutual_exclusion_example = mutual_exclusion 1 1 waiting-Reachable refl refl

no_lost_wakeup_example : (h : ℕ) × (waiting.place h ≡ holding) × (waiting.lock.count ≡ 0)
no_lost_wakeup_example = no_lost_wakeup waiting-Reachable second_sleeps.2
