-- ===== src/Scheduler.antt =====
-- kern/thread/scheduler.c: the round-robin run queue. `A` is the type of `struct thread *`. The
-- static variable `runqueue` (`none` for NULL) and the global `curspl` are arguments, and what a
-- function makes of the queue stands in its result. An interrupt can make threads runnable only
-- while cpu_idle lets it in: a list says which threads each call of cpu_idle finds woken.
pub mod Order
mod Tests
use ece344_operating_systems.Base.{
  ℕ, zero, suc, ◌+◌, ◌%◌, Bool, true, false, not, Option, none, some, List, [], ◌∷◌, ltb, ◌==◌,
  if◌then◌else◌, Run, done, panic, spin, ◌>>=◌, ◌>>◌, require, deref,
}
use ece344_operating_systems.Queue
use ece344_operating_systems.Queue.{Queue}

module _ {A : Type 0} where
  unfoldable pub bootstrap : (ℕ → Bool) → Run (Option (Queue A))
  bootstrap mem = elim (Queue.create {A = A} mem 32) [ none ↦ panic | some q ↦ done (some q) ]

  unfoldable pub preallocate : (ℕ → Bool) → ℕ → Option (Queue A) → ℕ → Run (ℕ × Option (Queue A))
  preallocate mem curspl runqueue nthreads = do
    require (ltb 0 curspl)
    q ← deref runqueue
    (result, q') ← Queue.preallocate mem q nthreads
    done (result, some q')

  -- `while (!q_empty(runqueue)) { t = q_remhead(runqueue); kprintf(...); }`, with the threads that
  -- it drops, in order
  unfoldable pub drop_all : ℕ → Queue A → Run (List (Option A) × Queue A)
  drop_all zero q = spin
  drop_all (suc fuel) q = elim (Queue.empty q) [
    | true ↦ done ([], q)
    | false ↦ do (t, q') ← Queue.remhead q; (ts, q'') ← drop_all fuel q'; done (t ∷ ts, q'')
  ]

  unfoldable pub killall : ℕ → Option (Queue A) → Run (List (Option A) × Option (Queue A))
  killall curspl runqueue = do
    require (ltb 0 curspl)
    q ← deref runqueue
    (ts, q') ← drop_all (suc q.size) q
    done (ts, some q')

  unfoldable pub shutdown : ℕ → Option (Queue A) → Run (List (Option A) × Option (Queue A))
  shutdown curspl runqueue = do
    (ts, runqueue') ← killall curspl runqueue
    require (ltb 0 curspl)
    q ← deref runqueue'
    Queue.destroy q
    done (ts, none)

  unfoldable pub make_runnable : (ℕ → Bool) → ℕ → Option (Queue A) → A → Run (ℕ × Option (Queue A))
  make_runnable mem curspl runqueue t = do
    require (ltb 0 curspl)
    q ← deref runqueue
    (result, q') ← Queue.addtail mem q t
    done (result, some q')

  -- thread_wakeup, run by an interrupt: make_runnable for each thread, `assert(result==0)`
  unfoldable pub interrupts : (ℕ → Bool) → ℕ → Option (Queue A) → List A → Run (Option (Queue A))
  interrupts mem curspl runqueue [] = done runqueue
  interrupts mem curspl runqueue (t ∷ ts) = do
    (result, runqueue') ← make_runnable mem curspl runqueue t
    require (result == 0)
    interrupts mem curspl runqueue' ts

  -- The loop ends when something is ready; it spins where no interrupt is left in the list.
  unfoldable pub scheduler :
      (ℕ → Bool)
      → ℕ
      → List (List A)
      → Option (Queue A)
      → Run (Option A × List (List A) × Option (Queue A))
  scheduler mem curspl [] runqueue = do
    require (ltb 0 curspl)
    q ← deref runqueue
    let picked : Run (Option A × List (List A) × Option (Queue A)) = do
      (t, q') ← Queue.remhead q
      done (t, [], some q')
    if Queue.empty q then spin else picked
  scheduler mem curspl (woken ∷ later) runqueue = do
    require (ltb 0 curspl)
    q ← deref runqueue
    let idle : Run (Option A × List (List A) × Option (Queue A)) = do
      runqueue' ← interrupts mem curspl runqueue woken
      scheduler mem curspl later runqueue'
    let picked : Run (Option A × List (List A) × Option (Queue A)) = do
      (t, q') ← Queue.remhead q
      done (t, woken ∷ later, some q')
    if Queue.empty q then idle else picked

  -- `while (i!=q_getend(runqueue)) { t = q_getguy(runqueue, i); ...; i=(i+1)%q_getsize(runqueue); }`,
  -- with the threads that it prints
  unfoldable pub print_from : ℕ → ℕ → Queue A → Run (List (Option A))
  print_from zero i q = spin
  print_from (suc fuel) i q = elim (i == Queue.getend q) [
    | true ↦ done []
    | false ↦ do
      t ← Queue.getguy q i
      ts ← print_from fuel ((i + 1) % Queue.getsize q) q
      done (t ∷ ts)
  ]

  unfoldable pub print_run_queue : Option (Queue A) → Run (List (Option A))
  print_run_queue runqueue = do
    q ← deref runqueue
    print_from (suc (Queue.getsize q)) (Queue.getstart q) q
