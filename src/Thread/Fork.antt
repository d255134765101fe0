-- ===== src/Thread/Fork.antt =====
-- kern/thread/thread.c: what thread_fork leaves, when it succeeds and when it fails.
use ece344_operating_systems.Base.{
  ℕ, ◌+◌, ◌-◌, ◌*◌, ◌≤◌, ◌<◌, ◌^◌, ◌≡◌, refl, sym, ◌∙◌, ◌⊎◌, inl, inr, Bool, Bool-cases, Option,
  none, some, List, [], ◌∷◌, ◌++◌, replicate, arith, done, length, take-append,
}
use ece344_operating_systems.Base.Errno.{enomem}
use ece344_operating_systems.Array
use ece344_operating_systems.Array.{Array}
use ece344_operating_systems.Array.Inv
use ece344_operating_systems.Array.Inv.{elems}
use ece344_operating_systems.Array.Ops.{grown-Resized}
use ece344_operating_systems.Queue.{Queue}
use ece344_operating_systems.Queue.Refine
use ece344_operating_systems.Scheduler
use ece344_operating_systems.Thread.{Kernel}
use ece344_operating_systems.Thread.Tables.{Table, Ready, make_runnable-Ready}
use ece344_operating_systems.Thread.Calls.{make_room}

preallocate-Table :
    (mem : ℕ → Bool) {a : Array ℕ} {ts : List ℕ} (n : ℕ)
    → Table a ts
    → n < 2 ^ 29
    → (Array.preallocate mem a n ≡ done (enomem, a))
      ⊎ ((a' : Array ℕ) × (Array.preallocate mem a n ≡ done (0, a')) × Table a' ts × (n ≤ a'.max))
preallocate-Table mem {a} {ts} n t small =
    let (m, lo, room, hi, e) = Inv.preallocate_lem mem a n t.valid small in
    elim (Bool-cases (mem (m * 4))) [
      | inl granted ↦
          let a' : Array ℕ = record {
            num = a.num;
            max = m;
            v = some (elems a ++ replicate (m - a.num) none);
          } in
          inr (
            a',
            ground (arith, e),
            record {
              valid =
                  (grown-Resized a m a.num t.valid (omega (arith, t.valid.within))
                    (omega (arith, t.valid.within)) hi (omega arith)).valid;
              holds = take-append (elems a) _ a.num (sym (Inv.length-elems a t.valid)) ∙ t.holds;
            },
            room,
          )
      | inr refused ↦ inl (ground (arith, e))
    ]

preallocate-Ready :
    (mem : ℕ → Bool) (curspl : ℕ) {rq : Option (Queue ℕ)} {ts : List ℕ} (n : ℕ)
    → Ready rq ts
    → 0 < curspl
    → n < 2 ^ 29
    → (Scheduler.preallocate mem curspl rq n ≡ done (enomem, rq))
      ⊎ ((rq' : Option (Queue ℕ)) × (Scheduler.preallocate mem curspl rq n ≡ done (0, rq'))
          × (r' : Ready rq' ts) × (n ≤ r'.q.size))
unfolding Scheduler.preallocate
preallocate-Ready mem curspl {rq} n r up small =
    elim (Refine.preallocate_lem mem r.q n r.valid small).1 [
      | inl (m, refused, lt, e) ↦ inl (ground (arith, r.here, e))
      | inr (q', e, v, room, l) ↦ inr (
        some q',
        ground (arith, r.here, e),
        record { q = q'; here = refl; valid = v; holds = l ∙ r.holds },
        room,
      )
    ]

-- The tables hold the same threads as before.
pub record Kept (rs ss zs : List ℕ) (k' : Kernel) : Type 0 where
  pub runnable : Ready k'.runqueue rs
  pub asleep : Table k'.sleepers ss
  pub dead : Table k'.zombies zs

-- The tables after a fork, with room for every thread: the new one is the last that is runnable.
pub record Roomy (n t : ℕ) (rs ss zs : List ℕ) (k' : Kernel) : Type 0 where
  pub runnable : Ready k'.runqueue (rs ++ t ∷ [])
  pub asleep : Table k'.sleepers ss
  pub dead : Table k'.zombies zs
  pub queue_size : n + 1 ≤ runnable.q.size
  pub sleep_room : n + 1 ≤ k'.sleepers.max
  pub dead_room : n + 1 ≤ k'.zombies.max

-- The atomic part of thread_fork either says ENOMEM with every table as it was, or makes the new
-- thread the last runnable one, with a cell in each table for every thread, the new one included.
-- It does so while no more threads are runnable than there are beside the current one.
pub make_room_lem :
    (mem : ℕ → Bool) (t : ℕ) (rs ss zs : List ℕ) (k : Kernel)
    → 0 < k.curspl
    → Kept rs ss zs k
    → length rs < k.numthreads
    → k.numthreads + 1 < 2 ^ 29
    → ((k' : Kernel) × (make_room mem t k ≡ done (enomem, k')) × Kept rs ss zs k')
      ⊎ ((k' : Kernel) × (make_room mem t k ≡ done (0, k'))
          × Roomy k.numthreads t rs ss zs k'
          × (k'.numthreads ≡ k.numthreads))
unfolding make_room
make_room_lem mem t rs ss zs k up h few small =
    elim (preallocate-Table mem (k.numthreads + 1) h.asleep small) [
      | inl e₁ ↦ inl (k, ground (arith, e₁), h)
      | inr (sl, e₁, ts, m₁) ↦ elim (preallocate-Table mem (k.numthreads + 1) h.dead small) [
        | inl e₂ ↦ inl (
          record k { sleepers = sl },
          ground (arith, e₁, e₂),
          record { runnable = h.runnable; asleep = ts; dead = h.dead },
        )
        | inr (zl, e₂, tz, m₂) ↦
            elim (preallocate-Ready mem k.curspl (k.numthreads + 1) h.runnable up small) [
              | inl e₃ ↦ inl (
                record k { sleepers = sl; zombies = zl },
                ground (arith, e₁, e₂, e₃),
                record { runnable = h.runnable; asleep = ts; dead = tz },
              )
              | inr (rq, e₃, r, m₃) ↦
                  let (rq', e₄, r', same) = make_runnable-Ready mem k.curspl t r up (omega arith) in
                  inr (
                    record k { sleepers = sl; zombies = zl; runqueue = rq' },
                    ground (arith, e₁, e₂, e₃, e₄),
                    record {
                      runnable = r';
                      asleep = ts;
                      dead = tz;
                      queue_size = omega (arith, same);
                      sleep_room = m₁;
                      dead_room = m₂;
                    },
                    refl,
                  )
            ]
      ]
    ]
