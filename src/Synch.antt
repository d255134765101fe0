-- ===== src/Synch.antt =====
-- kern/thread/synch.c: semaphores, locks and condition variables. A call runs with interrupts off
-- from splhigh until it returns or sleeps, so that it is cut into turns there: one from the call or
-- the end of a sleep to the next sleep or the return. An object is its fields, and `addr` is the
-- address that its sleepers sleep on. The pointers are not NULL.
pub mod Wait
pub mod Turns
pub mod Mutex
mod Tests
use ece344_operating_systems.Base.{
  ℕ, ◌+◌, ◌-◌, ◌^◌, Bool, true, false, ◌&&◌, not, Option, none, some, List, ltb, ◌==◌,
  if◌then◌else◌, Run, done, ◌>>=◌, ◌>>◌, require, defined,
}
use ece344_operating_systems.Thread.{Kernel, thread_wakeup, thread_hassleepers, switch_in}
use ece344_operating_systems.Thread.Calls.{spl_high, thread_sleep, thread_awake}

pub record Semaphore : Type 0 where
  pub count : ℕ

-- `lock_thread` is `none` for NULL.
pub record Lock : Type 0 where
  pub count : ℕ
  pub lock_thread : Option ℕ

-- How a turn ends: the call has returned, or its thread sleeps (and md_switch comes next).
pub data Turn (A : Type 0) : Type 0 where
  returned : A → Kernel → Turn A
  sleeping : A → List ℕ → Kernel → Turn A

abbrev pub at_spl : ℕ → Kernel → Kernel
at_spl spl k = record k { curspl = spl }

-- kmalloc for the structure and for the copy of the name, of `name_size` bytes.
unfoldable pub sem_create : (ℕ → Bool) → ℕ → ℕ → Option Semaphore
sem_create mem name_size initial_count =
    if mem 8 && mem name_size then some (record { count = initial_count }) else none

unfoldable pub sem_destroy : ℕ → Kernel → Run (Unit {0})
sem_destroy addr k = do
  sleepers ← thread_hassleepers addr (at_spl spl_high k)
  require (sleepers == 0)

unfoldable pub take_sem : Semaphore → Run Semaphore
take_sem s = do require (ltb 0 s.count); done (record s { count = s.count - 1 })

unfoldable pub give_sem : Semaphore → Run Semaphore
give_sem s = do
  defined (ltb (s.count + 1) (2 ^ 31))
  require (ltb 0 (s.count + 1))
  done (record s { count = s.count + 1 })

-- P from the test of its loop on; `spl` is what splhigh gave.
unfoldable pub sem_turn :
    (ℕ → Bool) → List ℕ → Bool → ℕ → ℕ → Semaphore → Kernel → Run (Turn Semaphore)
sem_turn mem events in_interrupt addr spl s k =
    let sleeps : Run (Turn Semaphore) = do
      (events', k') ← thread_sleep mem events in_interrupt addr k
      done (sleeping s events' k')
    in let passes : Run (Turn Semaphore) = do s' ← take_sem s; done (returned s' (at_spl spl k))
      in if s.count == 0 then sleeps else passes

-- P, up to its return or to md_switch.
unfoldable pub proberen : (ℕ → Bool) → List ℕ → Bool → ℕ → Semaphore → Kernel → Run (Turn Semaphore)
proberen mem events in_interrupt addr s k = do
  require (not in_interrupt)
  sem_turn mem events in_interrupt addr k.curspl s (at_spl spl_high k)

-- P from the end of md_switch on.
unfoldable pub proberen_again :
    (ℕ → Bool) → List ℕ → Bool → ℕ → ℕ → Semaphore → Kernel → Run (Turn Semaphore)
proberen_again mem events in_interrupt addr spl s k = do
  k₁ ← switch_in mem k
  k₂ ← thread_awake k₁
  sem_turn mem events in_interrupt addr spl s k₂

-- V
unfoldable pub verhogen : (ℕ → Bool) → ℕ → Semaphore → Kernel → Run (Semaphore × Kernel)
verhogen mem addr s k = do
  s' ← give_sem s
  k' ← thread_wakeup mem addr (at_spl spl_high k)
  done (s', at_spl k.curspl k')

-- `lock_thread` is not initialised: it is what the block held.
unfoldable pub lock_create : (ℕ → Bool) → ℕ → Option ℕ → Option Lock
lock_create mem name_size held =
    if mem 12 && mem name_size then some (record { count = 1; lock_thread = held }) else none

unfoldable pub lock_destroy : ℕ → Kernel → Run (Unit {0})
lock_destroy addr k = do
  sleepers ← thread_hassleepers addr (at_spl spl_high k)
  require (sleepers == 0)

unfoldable pub take_lock : Option ℕ → Lock → Run Lock
take_lock me l = do require (ltb 0 l.count); done (record { count = l.count - 1; lock_thread = me })

unfoldable pub give_lock : Lock → Run Lock
give_lock l = do
  defined (ltb (l.count + 1) (2 ^ 31))
  require (ltb 0 (l.count + 1))
  done (record { count = l.count + 1; lock_thread = none })

-- lock_acquire from the test of its loop on.
unfoldable pub lock_turn : (ℕ → Bool) → List ℕ → Bool → ℕ → ℕ → Lock → Kernel → Run (Turn Lock)
lock_turn mem events in_interrupt addr spl l k =
    let sleeps : Run (Turn Lock) = do
      (events', k') ← thread_sleep mem events in_interrupt addr k
      done (sleeping l events' k')
    in let passes : Run (Turn Lock) = do
      l' ← take_lock k.curthread l
      done (returned l' (at_spl spl k))
      in if l.count == 0 then sleeps else passes

unfoldable pub lock_acquire : (ℕ → Bool) → List ℕ → Bool → ℕ → Lock → Kernel → Run (Turn Lock)
lock_acquire mem events in_interrupt addr l k = do
  require (not in_interrupt)
  lock_turn mem events in_interrupt addr k.curspl l (at_spl spl_high k)

-- lock_acquire from the end of md_switch on.
unfoldable pub lock_acquire_again :
    (ℕ → Bool) → List ℕ → Bool → ℕ → ℕ → Lock → Kernel → Run (Turn Lock)
lock_acquire_again mem events in_interrupt addr spl l k = do
  k₁ ← switch_in mem k
  k₂ ← thread_awake k₁
  lock_turn mem events in_interrupt addr spl l k₂

unfoldable pub lock_release : (ℕ → Bool) → ℕ → Lock → Kernel → Run (Lock × Kernel)
lock_release mem addr l k = do
  l' ← give_lock l
  k' ← thread_wakeup mem addr (at_spl spl_high k)
  done (l', at_spl k.curspl k')

unfoldable pub lock_do_i_hold : Lock → Kernel → ℕ
lock_do_i_hold l k = if same l.lock_thread k.curthread then 1 else 0
  where
    same : Option ℕ → Option ℕ → Bool
    same none none = true
    same none (some u) = false
    same (some t) none = false
    same (some t) (some u) = t == u

-- A condition variable has no state but its name: it is the address that its sleepers sleep on.
unfoldable pub cv_create : (ℕ → Bool) → ℕ → Bool
cv_create mem name_size = mem 8 && mem name_size

-- cv_wait up to md_switch.
unfoldable pub cv_wait :
    (ℕ → Bool) → List ℕ → Bool → ℕ → ℕ → Lock → Kernel → Run (Lock × List ℕ × Kernel)
cv_wait mem events in_interrupt cv lock l k = do
  (l', k₁) ← lock_release mem lock l (at_spl spl_high k)
  (events', k₂) ← thread_sleep mem events in_interrupt cv k₁
  done (l', events', k₂)

-- cv_wait from the end of md_switch on, with the lock as it is by then.
unfoldable pub cv_wait_again : (ℕ → Bool) → List ℕ → Bool → ℕ → ℕ → Lock → Kernel → Run (Turn Lock)
cv_wait_again mem events in_interrupt lock spl l k = do
  k₁ ← switch_in mem k
  k₂ ← thread_awake k₁
  lock_acquire mem events in_interrupt lock l (at_spl spl k₂)

unfoldable pub cv_signal : (ℕ → Bool) → ℕ → ℕ → Lock → Kernel → Run (Lock × Kernel)
cv_signal mem cv lock l k = do
  (l', k₁) ← lock_release mem lock l (at_spl spl_high k)
  k₂ ← thread_wakeup mem cv k₁
  done (l', at_spl k.curspl k₂)

unfoldable pub cv_broadcast : (ℕ → Bool) → ℕ → ℕ → Lock → Kernel → Run (Lock × Kernel)
cv_broadcast mem cv lock l k = do
  (l', k₁) ← lock_release mem lock l (at_spl spl_high k)
  k₂ ← thread_wakeup mem cv k₁
  done (l', at_spl k.curspl k₂)
