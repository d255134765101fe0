-- ===== src/Thread/Awake.antt =====
-- kern/thread/thread.c: whenever thread_wakeup comes to its end, thread_hassleepers finds no thread
-- that sleeps on the address. Nothing is asked of the tables.
use ece344_operating_systems.Base.{
  ℕ, zero, suc, ◌+◌, ◌-◌, ◌≤◌, ◌<◌, ◌≡◌, ap, sym, ◌∙◌, ◌⊎◌, inl, inr, Bool, true, false, Bool-cases,
  Option-cases, Option, none, some, List, [], ◌∷◌, ◌++◌, arith, ◌==◌, Run, done, panic, undef, spin,
  load, length, take, drop, get_elem?, refl, dec_lt, ℕ_discrete, subst,
}
use ece344_operating_systems.Array
use ece344_operating_systems.Array.{Array}
use ece344_operating_systems.Queue.{Queue}
use ece344_operating_systems.Scheduler
use ece344_operating_systems.Thread.{
  Thread, Kernel, wakeup_from, thread_wakeup, hassleepers_from, thread_hassleepers,
}

-- Cell `j` of the table has a thread that sleeps elsewhere.
abbrev Elsewhere : ℕ → Kernel → ℕ → Type 0
Elsewhere addr k j =
    (t : ℕ) × (th : Thread) × (Array.getguy k.sleepers j ≡ done (some t))
    × (k.threads t ≡ some th)
    × ((th.sleepaddr == addr) ≡ false)

get_elem?-front :
    (xs ys : List (Option ℕ)) (i j : ℕ)
    → j < i
    → i ≤ length xs
    → get_elem? (take i xs ++ ys) j ≡ get_elem? xs j
get_elem?-front [] ys zero j l h = absurd (omega (arith, l))
get_elem?-front [] ys (suc i) j l h = absurd (omega (arith, h))
get_elem?-front (x ∷ xs) ys zero j l h = absurd (omega (arith, l))
get_elem?-front (x ∷ xs) ys (suc i) zero l h = refl
get_elem?-front (x ∷ xs) ys (suc i) (suc j) l h =
    get_elem?-front xs ys i j (omega (arith, l)) (omega (arith, h))

load-front :
    (xs ys : List (Option ℕ)) (i j : ℕ)
    → j < i
    → i ≤ length xs
    → load (take i xs ++ ys) j ≡ load xs j
unfolding load
load-front xs ys i j l h =
    ap (λ o. elim o [ none ↦ undef | some x ↦ done x ]) (get_elem?-front xs ys i j l h)

-- array_remove leaves the cells in front.
getguy-remove :
    (a a' : Array ℕ) (i j : ℕ)
    → Array.remove a i ≡ done a'
    → j < i
    → Array.getguy a' j ≡ Array.getguy a j
unfolding Array.remove Array.getguy Array.memmove_cells
getguy-remove a a' i j e l = elim (Option-cases a.v) [
  | inl z ↦ absurd ground (arith, e, z)
  | inr (cells, v) ↦
      let n = a.num - (i + 1) in
      elim (dec_lt i a.num) [
        | no out ↦ absurd ground (arith, e, out)
        | yes inside ↦ elim (dec_lt (length cells) (i + n)) [
          | yes over ↦ absurd ground (arith, e, v, inside, over)
          | no within ↦
              let front =
                load-front cells (take n (drop (i + 1) cells) ++ drop (i + n) cells) i j l
                  (omega (arith, within)) in
              ground (arith, e, v, inside, within, l, front)
        ]
      ]
]

hassleepers-none :
    (addr rounds i : ℕ) (k : Kernel)
    → ((j : ℕ) → j < i + rounds → Elsewhere addr k j)
    → hassleepers_from addr rounds i k ≡ done 0
unfolding hassleepers_from
hassleepers-none addr zero i k all = refl
hassleepers-none addr (suc rounds) i k all =
    let (t, th, e, s, off) = all i (omega arith) in
    ground
      (arith, e, s, off, hassleepers-none addr rounds (i + 1) k (λ j l. all j (omega (arith, l))))

-- How a round of thread_wakeup ends that does not fail: it is the last, or passes a cell that stays,
-- or takes cell `i` out.
abbrev Round : (ℕ → Bool) → ℕ → ℕ → ℕ → Kernel → Kernel → Type 0
Round mem addr fuel i k k' =
    ((k.sleepers.num ≤ i) × (k ≡ k'))
    ⊎ (Elsewhere addr k i × (wakeup_from mem addr fuel (i + 1) k ≡ done k'))
    ⊎ ((sleepers' : Array ℕ) × (runqueue' : Option (Queue ℕ)) × (Array.remove k.sleepers i
          ≡ done sleepers')
        × (wakeup_from mem addr fuel i (record k { sleepers = sleepers'; runqueue = runqueue' })
            ≡ done k'))

taken-Round :
    (mem : ℕ → Bool) (addr fuel i t : ℕ) (th : Thread) (k : Kernel) {k' : Kernel}
    → wakeup_from mem addr (suc fuel) i k ≡ done k'
    → i < k.sleepers.num
    → Array.getguy k.sleepers i ≡ done (some t)
    → k.threads t ≡ some th
    → (th.sleepaddr == addr) ≡ true
    → Round mem addr fuel i k k'
unfolding wakeup_from Array.getnum
taken-Round mem addr fuel i t th k {k'} e inside g s on =
    removed (Array.remove k.sleepers i) refl (Scheduler.make_runnable mem k.curspl k.runqueue t)
      refl
  where
    removed :
        (m : Run (Array ℕ))
        → Array.remove k.sleepers i ≡ m
        → (r : Run (ℕ × Option (Queue ℕ))) → Scheduler.make_runnable mem k.curspl k.runqueue t ≡ r
        → Round mem addr fuel i k k'
    removed panic em r er = absurd ground (arith, e, inside, g, s, on, em)
    removed undef em r er = absurd ground (arith, e, inside, g, s, on, em)
    removed spin em r er = absurd ground (arith, e, inside, g, s, on, em)
    removed (done sl) em panic er = absurd ground (arith, e, inside, g, s, on, em, er)
    removed (done sl) em undef er = absurd ground (arith, e, inside, g, s, on, em, er)
    removed (done sl) em spin er = absurd ground (arith, e, inside, g, s, on, em, er)
    removed (done sl) em (done (result, rq)) er = elim (Bool-cases (result == 0)) [
      | inl ok ↦ inr (inr (sl, rq, em, ground (arith, e, inside, g, s, on, em, er, ok)))
      | inr bad ↦ absurd ground (arith, e, inside, g, s, on, em, er, bad)
    ]

wakeup-Round :
    (mem : ℕ → Bool) (addr fuel i : ℕ) (k : Kernel) {k' : Kernel}
    → wakeup_from mem addr (suc fuel) i k ≡ done k'
    → Round mem addr fuel i k k'
unfolding wakeup_from Array.getnum
wakeup-Round mem addr fuel i k {k'} e = elim (dec_lt i k.sleepers.num) [
  | no out ↦ inl (omega (arith, out), ground (arith, e, out))
  | yes inside ↦ in_table inside (Array.getguy k.sleepers i) refl
]
  where
    in_table :
        i < k.sleepers.num
        → (m : Run (Option ℕ)) → Array.getguy k.sleepers i ≡ m
        → Round mem addr fuel i k k'
    in_table inside panic g = absurd ground (arith, e, inside, g)
    in_table inside undef g = absurd ground (arith, e, inside, g)
    in_table inside spin g = absurd ground (arith, e, inside, g)
    in_table inside (done none) g = absurd ground (arith, e, inside, g)
    in_table inside (done (some t)) g = elim (Option-cases (k.threads t)) [
      | inl z ↦ absurd ground (arith, e, inside, g, z)
      | inr (th, s) ↦ elim (Bool-cases (th.sleepaddr == addr)) [
        | inr off ↦ inr (inl ((t, th, g, s, off), ground (arith, e, inside, g, s, off)))
        | inl on ↦ taken-Round mem addr fuel i t th k e inside g s on
      ]
    ]

wakeup_from-awake :
    (mem : ℕ → Bool) (addr fuel i : ℕ) (k : Kernel) {k' : Kernel}
    → wakeup_from mem addr fuel i k ≡ done k'
    → ((j : ℕ) → j < i → Elsewhere addr k j)
    → (j : ℕ) → j < k'.sleepers.num
    → Elsewhere addr k' j
unfolding wakeup_from
wakeup_from-awake mem addr zero i k e front = cc
wakeup_from-awake mem addr (suc fuel) i k {k'} e front = elim (wakeup-Round mem addr fuel i k e) [
  | inl (le, same) ↦
      subst (λ q. (j : ℕ) → j < q.sleepers.num → Elsewhere addr q j) same
        (λ j l. front j (omega (arith, l, le)))
  | inr (inl (here, later)) ↦ wakeup_from-awake mem addr fuel (i + 1) k later (λ j l.
      elim (ℕ_discrete j i) [
        | yes at ↦ subst (Elsewhere addr k) (sym at) here
        | no ne ↦ front j (omega (arith, l, ne))
      ])
  | inr (inr (sl, rq, em, later)) ↦
      wakeup_from-awake mem addr fuel i (record k { sleepers = sl; runqueue = rq }) later
        (λ j l.
          let (t, th, g, s, off) = front j l in
          (t, th, getguy-remove k.sleepers sl i j em l ∙ g, s, off))
]

-- When thread_wakeup ends, thread_hassleepers finds nobody asleep on the address.
pub thread_wakeup-hassleepers :
    (mem : ℕ → Bool) (addr spl : ℕ) (k : Kernel) {k' : Kernel}
    → thread_wakeup mem addr k ≡ done k'
    → 0 < spl
    → thread_hassleepers addr (record k' { curspl = spl }) ≡ done 0
unfolding thread_wakeup thread_hassleepers Array.getnum
thread_wakeup-hassleepers mem addr spl k {k'} e up = elim (dec_lt 0 k.curspl) [
  | no low ↦ absurd ground (arith, e, low)
  | yes high ↦
      let run : wakeup_from mem addr (suc k.sleepers.num) 0 k ≡ done k' = ground (arith, e, high) in
      let off =
        wakeup_from-awake mem addr (suc k.sleepers.num) 0 k run
          (λ j l. absurd (omega (arith, l))) in
      ground (
        arith,
        up,
        hassleepers-none addr k'.sleepers.num 0 (record k' { curspl = spl })
            (λ j l. off j (omega (arith, l))),
      )
]
