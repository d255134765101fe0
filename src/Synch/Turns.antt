-- ===== src/Synch/Turns.antt =====
-- kern/thread/synch.c: how a turn of lock_acquire ends, and what lock_release leaves.
use ece344_operating_systems.Base.{
  ℕ, ◌≡◌, ◌≢◌, refl, ap, sym, ◌∙◌, inl, inr, Bool, true, false, Bool-cases, arith, ◌==◌, List, Run,
  done, panic, undef, spin,
}
use ece344_operating_systems.Thread.{Kernel, thread_hassleepers, thread_wakeup}
use ece344_operating_systems.Thread.Awake.{thread_wakeup-hassleepers}
use ece344_operating_systems.Thread.Calls.{spl_high, thread_sleep}
use ece344_operating_systems.Synch.{
  Lock, returned, sleeping, at_spl, take_lock, give_lock, lock_turn, lock_release,
}

-- A turn that sleeps has found the count at 0, and leaves the lock as it is.
pub lock_turn-sleeping :
    (mem : ℕ → Bool) (events : List ℕ) (in_interrupt : Bool) (addr spl : ℕ) (l : Lock) (k : Kernel)
    {l' : Lock} {events' : List ℕ} {k' : Kernel}
    → lock_turn mem events in_interrupt addr spl l k ≡ done (sleeping l' events' k')
    → (l.count ≡ 0) × (l' ≡ l)
unfolding lock_turn
lock_turn-sleeping mem events in_interrupt addr spl l k {l'} {events'} {k'} e =
    elim (Bool-cases (l.count == 0)) [
      | inl y ↦ slept y (thread_sleep mem events in_interrupt addr k) refl
      | inr n ↦ took n (take_lock k.curthread l) refl
    ]
  where
    slept :
        (l.count == 0) ≡ true
        → (m : Run (List ℕ × Kernel)) → thread_sleep mem events in_interrupt addr k ≡ m
        → (l.count ≡ 0) × (l' ≡ l)
    slept y panic em = absurd ground (arith, e, y, em)
    slept y undef em = absurd ground (arith, e, y, em)
    slept y spin em = absurd ground (arith, e, y, em)
    slept y (done r) em = (ground (arith, y), ground (arith, e, y, em))

    took :
        (l.count == 0) ≡ false
        → (m : Run Lock) → take_lock k.curthread l ≡ m
        → (l.count ≡ 0) × (l' ≡ l)
    took n panic em = absurd ground (arith, e, n, em)
    took n undef em = absurd ground (arith, e, n, em)
    took n spin em = absurd ground (arith, e, n, em)
    took n (done r) em = absurd ground (arith, e, n, em)

-- A turn that returns has found the count above 0, and takes the lock.
pub lock_turn-returned :
    (mem : ℕ → Bool) (events : List ℕ) (in_interrupt : Bool) (addr spl : ℕ) (l : Lock) (k : Kernel)
    {l' : Lock} {k' : Kernel}
    → lock_turn mem events in_interrupt addr spl l k ≡ done (returned l' k')
    → (l.count ≢ 0) × (take_lock k.curthread l ≡ done l')
unfolding lock_turn
lock_turn-returned mem events in_interrupt addr spl l k {l'} {k'} e =
    elim (Bool-cases (l.count == 0)) [
      | inl y ↦ slept y (thread_sleep mem events in_interrupt addr k) refl
      | inr n ↦ took n (take_lock k.curthread l) refl
    ]
  where
    slept :
        (l.count == 0) ≡ true
        → (m : Run (List ℕ × Kernel)) → thread_sleep mem events in_interrupt addr k ≡ m
        → (l.count ≢ 0) × (take_lock k.curthread l ≡ done l')
    slept y panic em = absurd ground (arith, e, y, em)
    slept y undef em = absurd ground (arith, e, y, em)
    slept y spin em = absurd ground (arith, e, y, em)
    slept y (done r) em = absurd ground (arith, e, y, em)

    took :
        (l.count == 0) ≡ false
        → (m : Run Lock) → take_lock k.curthread l ≡ m
        → (l.count ≢ 0) × (take_lock k.curthread l ≡ done l')
    took n panic em = absurd ground (arith, e, n, em)
    took n undef em = absurd ground (arith, e, n, em)
    took n spin em = absurd ground (arith, e, n, em)
    took n (done r) em = (λ z. ground (arith, n, z), ground (arith, e, n, em))

-- lock_release gives the lock back, and nobody is asleep on it afterwards.
pub lock_release-awake :
    (mem : ℕ → Bool) (addr : ℕ) (l : Lock) (k : Kernel) {l' : Lock} {k' : Kernel}
    → lock_release mem addr l k ≡ done (l', k')
    → (give_lock l ≡ done l') × (thread_hassleepers addr (at_spl spl_high k') ≡ done 0)
unfolding lock_release
lock_release-awake mem addr l k {l'} {k'} e =
    parts (give_lock l) refl (thread_wakeup mem addr (at_spl spl_high k)) refl
  where
    parts :
        (m : Run Lock)
        → give_lock l ≡ m
        → (w : Run Kernel) → thread_wakeup mem addr (at_spl spl_high k) ≡ w
        → (give_lock l ≡ done l') × (thread_hassleepers addr (at_spl spl_high k') ≡ done 0)
    parts panic em w ew = absurd ground (arith, e, em)
    parts undef em w ew = absurd ground (arith, e, em)
    parts spin em w ew = absurd ground (arith, e, em)
    parts (done m) em panic ew = absurd ground (arith, e, em, ew)
    parts (done m) em undef ew = absurd ground (arith, e, em, ew)
    parts (done m) em spin ew = absurd ground (arith, e, em, ew)
    parts (done m) em (done k₁) ew =
        let same : at_spl k.curspl k₁ ≡ k' = ground (arith, e, em, ew) in
        (
          ground (arith, e, em, ew),
          ap (λ j. thread_hassleepers addr (at_spl spl_high j)) (sym same)
              ∙ thread_wakeup-hassleepers mem addr spl_high (at_spl spl_high k) ew (omega arith),
        )
