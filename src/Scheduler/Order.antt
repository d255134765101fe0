-- ===== src/Scheduler/Order.antt =====
-- kern/thread/scheduler.c: the order in which threads leave the run queue.
use ece344_operating_systems.Base.{
  ℕ, zero, suc, ◌+◌, ◌%◌, ◌<◌, ◌≡◌, refl, ap, sym, ◌∙◌, Bool, Option, none, some, List, [], ◌∷◌,
  ◌++◌, map, arith, ℕ_discrete, done, length, get_or, replicate, load_lem, get_elem?-get_or,
}
use mathlib.Core.List.{append-nil, append_assoc}
use ece344_operating_systems.Queue
use ece344_operating_systems.Queue.{Queue}
use ece344_operating_systems.Queue.Window.{dist, dist-next, window, window_step}
use ece344_operating_systems.Queue.Ops.{
  IsValid, contents, count, length-contents, count-lt-size, push, push-IsValid, count-push,
  contents-push, size-push, addtail_at-room,
}
use ece344_operating_systems.Queue.Head.{remhead_lem, empty_iff}
use ece344_operating_systems.Scheduler.{
  drop_all, killall, shutdown, scheduler, interrupts, make_runnable, print_from, print_run_queue,
}

module _ {A : Type 0} where
  drop_all_lem :
      (fuel : ℕ) (ts : List (Option A)) (q : Queue A)
      → IsValid q
      → contents q ≡ ts
      → length ts < fuel
      → (q' : Queue A) × (drop_all fuel q ≡ done (ts, q')) × IsValid q' × (contents q' ≡ [])
  unfolding drop_all
  drop_all_lem zero ts q h e enough = absurd (omega arith)
  drop_all_lem (suc fuel) [] q h e enough = (q, ground (arith, (empty_iff q h).1 e), h, e)
  drop_all_lem (suc fuel) (t ∷ ts) q h e enough =
      let (q', r, v, s, l) = (remhead_lem q h).1 t ts e in
      let (q'', d, v', l') = drop_all_lem fuel ts q' v l (omega arith) in
      (q'', ground (arith, r, d, (empty_iff q h).0), v', l')

  -- During a shutdown at raised spl every thread in the run queue is dropped, oldest first, and the queue
  -- is destroyed, leaving NULL.
  pub shutdown_lem :
      (curspl : ℕ) (q : Queue A)
      → IsValid q
      → 0 < curspl
      → shutdown curspl (some q) ≡ done (contents q, none)
  unfolding shutdown killall Queue.destroy
  shutdown_lem curspl q h up =
      let (q', d, v, l) =
        drop_all_lem (suc q.size) (contents q) q h refl
          (omega (arith, length-contents q, count-lt-size q h)) in
      ground (arith, d, (empty_iff q' v).1 l)

  print_from_lem :
      (fuel i : ℕ) (q : Queue A)
      → IsValid q
      → i < q.size
      → dist q.size i q.nextwrite < fuel
      → print_from fuel i q ≡ done (window q.cells q.size i (dist q.size i q.nextwrite))
  unfolding print_from Queue.getend Queue.getguy Queue.getsize
  print_from_lem zero i q h hi enough = absurd (omega arith)
  print_from_lem (suc fuel) i q h hi enough = elim (ℕ_discrete i q.nextwrite) [
    | yes same ↦
        let none_left : dist q.size i q.nextwrite ≡ 0 = ground arith in rw none_left (ground arith)
    | no apart ↦
        let d = dist-next q.size i q.nextwrite hi h.write_in apart in
        rw
          (window_step q.cells q.size i (dist q.size i q.nextwrite)
            (dist q.size ((i + 1) % q.size) q.nextwrite) (sym d))
          (ground (
            arith,
            load_lem q.cells i {x = get_or q.cells i none},
            get_elem?-get_or q.cells i none,
            print_from_lem fuel ((i + 1) % q.size) q h (omega arith) (omega arith),
          ))
  ]

  -- print_run_queue lists the run queue, oldest thread first.
  pub print_run_queue_lem : (q : Queue A) → IsValid q → print_run_queue (some q) ≡ done (contents q)
  unfolding print_run_queue Queue.getsize Queue.getstart
  print_run_queue_lem q h =
      print_from_lem (suc q.size) q.nextread q h h.read_in (omega (arith, count-lt-size q h))

  interrupts_lem :
      (mem : ℕ → Bool) (curspl : ℕ) (ts : List A) (q : Queue A)
      → IsValid q
      → 0 < curspl
      → count q + length ts < q.size
      → (q' : Queue A) × (interrupts mem curspl (some q) ts ≡ done (some q'))
        × IsValid q'
        × (q'.size ≡ q.size)
        × (contents q' ≡ contents q ++ map some ts)
  unfolding interrupts make_runnable Queue.addtail
  interrupts_lem mem curspl [] q h up room = (q, refl, h, refl, sym (append-nil (contents q)))
  interrupts_lem mem curspl (t ∷ ts) q h up room =
      let v = push-IsValid q (some t) h in
      let n = count-push q (some t) h (omega arith) in
      let (q', e, v', s, l) =
        interrupts_lem mem curspl ts (push q (some t)) v up
          (omega (arith, n, size-push q (some t))) in
      (
        q',
        ground (arith, e, addtail_at-room 1 mem q (some t) h (omega arith)),
        v',
        s ∙ size-push q (some t),
        l
            ∙ ap (λ u. u ++ map some ts) (contents-push q (some t) h (omega arith))
            ∙ append_assoc (contents q) (some t ∷ []) (map some ts),
      )

  scheduler_ready :
      (mem : ℕ → Bool) (curspl : ℕ) (later : List (List A)) (q : Queue A) (t : Option A)
      (rest : List (Option A))
      → IsValid q
      → 0 < curspl
      → contents q ≡ t ∷ rest
      → (q' : Queue A) × (scheduler mem curspl later (some q) ≡ done (t, later, some q'))
        × IsValid q'
        × (contents q' ≡ rest)
  unfolding scheduler
  scheduler_ready mem curspl [] q t rest h up e =
      let (q', r, v, s, l) = (remhead_lem q h).1 t rest e in
      (q', ground (arith, r, (empty_iff q h).0), v, l)
  scheduler_ready mem curspl (woken ∷ later) q t rest h up e =
      let (q', r, v, s, l) = (remhead_lem q h).1 t rest e in
      (q', ground (arith, r, (empty_iff q h).0), v, l)

  interrupts-nil :
      (mem : ℕ → Bool) (curspl : ℕ) (runqueue : Option (Queue A))
      → interrupts mem curspl runqueue [] ≡ done runqueue
  unfolding interrupts
  interrupts-nil mem curspl runqueue = refl

  scheduler_idle :
      (mem : ℕ → Bool) (curspl k : ℕ) (t : A) (ts : List A) (later : List (List A)) (q : Queue A)
      → IsValid q
      → 0 < curspl
      → contents q ≡ []
      → suc (length ts) < q.size
      → (q' : Queue A) × (scheduler mem curspl (replicate k [] ++ (t ∷ ts) ∷ later) (some q)
          ≡ done (some t, later, some q'))
        × IsValid q'
        × (contents q' ≡ map some ts)
  unfolding scheduler
  scheduler_idle mem curspl zero t ts later q h up e room =
      let (q', r, v, s, l) =
        interrupts_lem mem curspl (t ∷ ts) q h up (omega (arith, length-contents q, ap length e)) in
      let (q'', p, v', l') =
        scheduler_ready mem curspl later q' (some t) (map some ts) v up
          (l ∙ ap (λ u. u ++ some t ∷ map some ts) e) in
      (q'', ground (arith, r, p, (empty_iff q h).1 e), v', l')
  scheduler_idle mem curspl (suc k) t ts later q h up e room =
      let (q'', p, v', l') = scheduler_idle mem curspl k t ts later q h up e room in
      (q'', ground (arith, p, interrupts-nil mem curspl (some q), (empty_iff q h).1 e), v', l')

  -- With interrupts off the scheduler picks the oldest thread of the run queue at once. On an empty queue it
  -- idles through the calls of cpu_idle that wake nobody, and picks the first of the threads that
  -- the next one wakes, with the others left in order.
  pub scheduler_lem :
      (mem : ℕ → Bool) (curspl : ℕ) (q : Queue A)
      → IsValid q
      → 0 < curspl
      → ((later : List (List A)) (t : Option A) (rest : List (Option A))
          → contents q ≡ t ∷ rest
          → (q' : Queue A) × (scheduler mem curspl later (some q) ≡ done (t, later, some q'))
            × IsValid q'
            × (contents q' ≡ rest))
        × ((k : ℕ) (t : A) (ts : List A) (later : List (List A))
            → contents q ≡ []
            → suc (length ts) < q.size
            → (q' : Queue A) × (scheduler mem curspl (replicate k [] ++ (t ∷ ts) ∷ later) (some q)
                ≡ done (some t, later, some q'))
              × IsValid q'
              × (contents q' ≡ map some ts))
  scheduler_lem mem curspl q h up = (
    λ later t rest e. scheduler_ready mem curspl later q t rest h up e,
    λ k t ts later e room. scheduler_idle mem curspl k t ts later q h up e room,
  )
