-- ===== src/Synch/Mutex.antt =====
-- kern/thread/synch.c: threads that take a lock by lock_acquire and give it back by lock_release, in
-- any interleaving of their turns with what else the kernel does. A turn runs with interrupts off.
use ece344_operating_systems.Base.{
  ℕ, ◌≡◌, ◌≢◌, refl, ap, sym, ◌∙◌, ◌⊎◌, inl, inr, Bool, Bool-cases, ==_iff, Option, some, arith,
  ◌==◌, if◌then◌else◌, done, List, Run,
}
use ece344_operating_systems.Thread.{Kernel, thread_hassleepers}
use ece344_operating_systems.Thread.Calls.{spl_high}
use ece344_operating_systems.Synch.{
  Lock, returned, sleeping, at_spl, lock_create, take_lock, give_lock, lock_turn, lock_release,
}
use ece344_operating_systems.Synch.Turns.{
  lock_turn-returned, lock_turn-sleeping, lock_release-awake,
}

-- Where a thread is: it has not asked for the lock, or is in lock_acquire, where it may sleep, or has
-- returned from there.
pub data Place : Type 0 where
  outside : Place
  trying : Place
  holding : Place

pub record System : Type 0 where
  pub lock : Lock
  pub kernel : Kernel
  pub place : ℕ → Place

abbrev pub move : (ℕ → Place) → ℕ → Place → ℕ → Place
move place t p u = if u == t then p else place u

-- What thread_hassleepers says of the lock, with interrupts off.
abbrev pub has_sleepers : ℕ → Kernel → Run ℕ
has_sleepers addr k = thread_hassleepers addr (at_spl spl_high k)

-- One turn of the running thread, for the lock at `addr`: from the call of lock_acquire or the end of
-- a sleep in it to the next sleep or its return, or the whole of lock_release. Only a thread that
-- holds the lock gives it back, and does so once. In between the kernel does anything, the switch to
-- another thread included, but puts nobody to sleep on the lock.
pub data Step (addr : ℕ) : System → System → Type 0 where
  asks :
      {s : System} (t : ℕ)
      → s.place t ≡ outside
      → Step addr s (record s { place = move s.place t trying })
  sleeps :
      {s : System} {l : Lock} {k : Kernel} {events' : List ℕ} (mem : ℕ → Bool) (events : List ℕ)
      (in_interrupt : Bool) (t spl : ℕ)
      → s.kernel.curthread ≡ some t
      → s.place t ≡ trying
      → lock_turn mem events in_interrupt addr spl s.lock s.kernel ≡ done (sleeping l events' k)
      → Step addr s (record s { lock = l; kernel = k })
  takes :
      {s : System} {l : Lock} {k : Kernel} (mem : ℕ → Bool) (events : List ℕ) (in_interrupt : Bool)
      (t spl : ℕ)
      → s.kernel.curthread ≡ some t
      → s.place t ≡ trying
      → lock_turn mem events in_interrupt addr spl s.lock s.kernel ≡ done (returned l k)
      → Step addr s (record { lock = l; kernel = k; place = move s.place t holding })
  gives :
      {s : System} {l : Lock} {k : Kernel} (mem : ℕ → Bool) (t : ℕ)
      → s.kernel.curthread ≡ some t
      → s.place t ≡ holding
      → lock_release mem addr s.lock s.kernel ≡ done (l, k)
      → Step addr s (record { lock = l; kernel = k; place = move s.place t outside })
  elsewhere :
      {s : System} (k : Kernel)
      → (has_sleepers addr s.kernel ≡ done 0 → has_sleepers addr k ≡ done 0)
      → Step addr s (record s { kernel = k })

-- The states that come about from a lock that lock_create has made and nobody has asked for.
pub data Reachable (addr : ℕ) : System → Type 0 where
  start :
      {l : Lock} (mem : ℕ → Bool) (name_size : ℕ) (held : Option ℕ) (k : Kernel)
      → lock_create mem name_size held ≡ some l
      → has_sleepers addr k ≡ done 0
      → Reachable addr (record { lock = l; kernel = k; place = λ t. outside })
  after : {s s' : System} → Reachable addr s → Step addr s s' → Reachable addr s'

-- Nobody has the lock, nor sleeps for it.
record Free (addr : ℕ) (s : System) : Type 0 where
  count : s.lock.count ≡ 1
  nobody : (u : ℕ) → s.place u ≢ holding
  awake : has_sleepers addr s.kernel ≡ done 0

-- Thread `h` has the lock, and no other.
record Held (s : System) (h : ℕ) : Type 0 where
  count : s.lock.count ≡ 0
  owner : s.lock.lock_thread ≡ some h
  there : s.place h ≡ holding
  alone : (u : ℕ) → s.place u ≡ holding → u ≡ h

abbrev IsSafe : ℕ → System → Type 0
IsSafe addr s = Free addr s ⊎ ((h : ℕ) × Held s h)

take_lock-one :
    (l : Lock) (t : ℕ) {l' : Lock}
    → l.count ≡ 1
    → take_lock (some t) l ≡ done l'
    → (l'.count ≡ 0) × (l'.lock_thread ≡ some t)
unfolding take_lock
take_lock-one l t {l'} one e = ground (arith, one, e)

give_lock-zero : (l : Lock) {l' : Lock} → l.count ≡ 0 → give_lock l ≡ done l' → l'.count ≡ 1
unfolding give_lock
give_lock-zero l {l'} z e = ground (arith, z, e)

lock_create-one :
    (mem : ℕ → Bool) (name_size : ℕ) (held : Option ℕ) {l : Lock}
    → lock_create mem name_size held ≡ some l
    → l.count ≡ 1
unfolding lock_create
lock_create-one mem name_size held {l} e = ground (arith, e)

-- A move to another place changes nothing about who is at `q`.
move-elsewhere :
    (place : ℕ → Place) (t : ℕ) (p q : Place) (u : ℕ) → p ≢ q → move place t p u ≡ q → place u ≡ q
move-elsewhere place t p q u d e = ground arith

move-stays :
    (place : ℕ → Place) (t : ℕ) (p q : Place) (u : ℕ)
    → place t ≢ q
    → place u ≡ q
    → move place t p u ≡ q
move-stays place t p q u d e = elim (Bool-cases (u == t)) [
  | inl y ↦ absurd (d (ap place (sym ((==_iff u t).0 y)) ∙ e))
  | inr n ↦ ground arith
]

outside≢holding : outside ≢ holding
outside≢holding e = cc

move-outside :
    (place : ℕ → Place) (t u : ℕ) → move place t outside u ≡ holding → (u ≢ t) × (place u ≡ holding)
move-outside place t u e = elim (Bool-cases (u == t)) [
  | inl y ↦ absurd (outside≢holding (ground (arith, y, e)))
  | inr n ↦ (λ y. ground (arith, n, (==_iff u t).1 y), ground (arith, n, e))
]

-- The thread that has the lock keeps it when another one moves.
Held-still :
    {s : System} {h : ℕ} (l : Lock) (k : Kernel)
    → l ≡ s.lock
    → Held s h
    → Held (record s { lock = l; kernel = k }) h
Held-still {s} {h} l k e x = record {
  count = ap (λ m. m.count) e ∙ x.count;
  owner = ap (λ m. m.lock_thread) e ∙ x.owner;
  there = x.there;
  alone = x.alone;
}

Step-IsSafe : {addr : ℕ} {s s' : System} → Step addr s s' → IsSafe addr s → IsSafe addr s'
Step-IsSafe (asks {s} t at) (inl f) = inl (record {
  count = f.count;
  nobody = λ u e. f.nobody u (move-elsewhere s.place t trying holding u (λ d. cc) e);
  awake = f.awake;
})
Step-IsSafe (asks {s} t at) (inr (h, x)) = inr (
  h,
  record {
    count = x.count;
    owner = x.owner;
    there = move-stays s.place t trying holding h (λ e. cc) x.there;
    alone = λ u e. x.alone u (move-elsewhere s.place t trying holding u (λ d. cc) e);
  },
)
Step-IsSafe {addr} (sleeps {s} mem events in_interrupt t spl cur at e) (inl f) =
    let (z, same) = lock_turn-sleeping mem events in_interrupt addr spl s.lock s.kernel e in
    absurd (omega (arith, z, f.count))
Step-IsSafe {addr} (sleeps {s} {l} {k} mem events in_interrupt t spl cur at e) (inr (h, x)) =
    let (z, same) = lock_turn-sleeping mem events in_interrupt addr spl s.lock s.kernel e in
    inr (h, Held-still {s = s} {h = h} l k same x)
Step-IsSafe {addr} (takes {s} {l} mem events in_interrupt t spl cur at e) (inl f) =
    let (n, took) = lock_turn-returned mem events in_interrupt addr spl s.lock s.kernel e in
    let (z, o) = take_lock-one s.lock t f.count (ap (λ o. take_lock o s.lock) (sym cur) ∙ took) in
    inr (
      t,
      record {
        count = z;
        owner = o;
        there = ground arith;
        alone = λ u e'. elim (Bool-cases (u == t)) [
          | inl y ↦ (==_iff u t).0 y
          | inr n ↦ absurd (f.nobody u (ground (arith, n, e')))
        ];
      },
    )
Step-IsSafe {addr} (takes {s} mem events in_interrupt t spl cur at e) (inr (h, x)) =
    let (n, took) = lock_turn-returned mem events in_interrupt addr spl s.lock s.kernel e in
    absurd (n x.count)
Step-IsSafe (gives {s} mem t cur at e) (inl f) = absurd (f.nobody t at)
Step-IsSafe {addr} (gives {s} {l} {k} mem t cur at e) (inr (h, x)) =
    let (gave, none_left) = lock_release-awake mem addr s.lock s.kernel e in
    inl (record {
      count = give_lock-zero s.lock x.count gave;
      nobody = λ u e'.
          let (d, still) = move-outside s.place t u e' in d (x.alone u still ∙ sym (x.alone t at));
      awake = none_left;
    })
Step-IsSafe (elsewhere {s} k keeps) (inl f) =
    inl (record { count = f.count; nobody = f.nobody; awake = keeps f.awake })
Step-IsSafe (elsewhere {s} k keeps) (inr (h, x)) =
    inr (h, Held-still {s = s} {h = h} s.lock k refl x)

-- A lock is always free or held by one thread: its count is then 1 or 0, it names the thread that
-- holds it, and no thread sleeps for a free one.
Reachable-IsSafe : {addr : ℕ} {s : System} → Reachable addr s → IsSafe addr s
Reachable-IsSafe (start mem name_size held k e none_left) =
    inl (record {
      count = lock_create-one mem name_size held e;
      nobody = λ u e. cc;
      awake = none_left;
    })
Reachable-IsSafe (after r st) = Step-IsSafe st (Reachable-IsSafe r)

-- In every interleaving of threads that give back the lock only when they hold it, two threads
-- that hold it are one, and the lock names that thread.
pub mutual_exclusion :
    {addr : ℕ} {s : System} (t u : ℕ)
    → Reachable addr s
    → s.place t ≡ holding
    → s.place u ≡ holding
    → (t ≡ u) × (s.lock.lock_thread ≡ some t)
mutual_exclusion {addr} {s} t u r ht hu = elim (Reachable-IsSafe r) [
  | inl f ↦ absurd (f.nobody t ht)
  | inr (h, x) ↦ (x.alone t ht ∙ sym (x.alone u hu), x.owner ∙ ap some (sym (x.alone t ht)))
]

-- Nobody is left asleep on a free lock: in every interleaving in which nobody else sleeps on the
-- address of the lock, whenever thread_hassleepers finds a sleeper there, the count is 0 and a thread
-- holds the lock.
pub no_lost_wakeup :
    {addr : ℕ} {s : System}
    → Reachable addr s
    → has_sleepers addr s.kernel ≡ done 1
    → (h : ℕ) × (s.place h ≡ holding) × (s.lock.count ≡ 0)
no_lost_wakeup {addr} {s} r a = elim (Reachable-IsSafe r) [
  | inl f ↦ absurd (ground (arith, f.awake, a))
  | inr (h, x) ↦ (h, x.there, x.count)
]
