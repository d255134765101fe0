-- ===== src/Queue/Refine.antt =====
-- kern/lib/queue.c: each operation against the list of the pointers in the queue, growth included.
use ece344_operating_systems.Base.{
  ℕ, zero, suc, ◌+◌, ◌-◌, ◌*◌, ◌/◌, ◌%◌, ◌^◌, ◌≤◌, ◌<◌, max, ◌≡◌, refl, ap, ◌∙◌, ◌⊎◌, inl, inr,
  Bool, false, Option, none, some, [], ◌∷◌, ◌++◌, arith, ltb, Bool-cases, dec_lt, ℕ_discrete, done,
  length, length-replicate, store_lem,
}
use ece344_operating_systems.Base.Errno.{enomem}
use ece344_operating_systems.Array.{bytes, fresh_cells}
use ece344_operating_systems.Queue.{
  Queue, grow_size, grow, write, addtail_at, addtail, preallocate, create,
}
use ece344_operating_systems.Queue.Window.{next_lem, next_full}
use ece344_operating_systems.Queue.Ops.{
  IsValid, count, contents, length-contents, count-lt-size, push, push-IsValid, contents-push,
  addtail_at-room, readd_lem,
}

-- The doubling loop ends with room for `target`, and neither overflows nor trips its assert.
grow_size_lem :
    (fuel target nsize : ℕ)
    → 0 < nsize
    → target < 2 ^ 29
    → target - nsize < fuel
    → (n : ℕ) × (grow_size fuel target nsize ≡ done n)
      × (nsize ≤ n)
      × (target ≤ n)
      × (n ≤ max nsize (2 * target))
unfolding grow_size
grow_size_lem zero target nsize pos small fuel = absurd (omega arith)
grow_size_lem (suc fuel) target nsize pos small enough = elim (Bool-cases (ltb nsize target)) [
  | inl more ↦
      let (n, e, lo, room, hi) =
        grow_size_lem fuel target (nsize * 2) (omega arith) small (ground arith) in
      (n, ground arith, omega arith, room, ground arith)
  | inr stop ↦ (nsize, rw stop, omega arith, ground arith, omega arith)
]

module _ {A : Type 0} where
  fresh-IsValid :
      (n : ℕ)
      → 0 < n
      → n < 2 ^ 30
      → IsValid {A = A} (record { size = n; nextwrite = 0; nextread = 0; cells = fresh_cells n })
  fresh-IsValid n pos small = record {
    read_in = pos;
    write_in = pos;
    stored = length-replicate {A = Option A} (bytes n / 4) none ∙ omega arith;
    small = small;
  }

  -- q_grow either says ENOMEM, only where kmalloc refuses, and changes nothing, or keeps the
  -- contents in a block of at least the size asked for.
  pub grow_lem :
      (mem : ℕ → Bool) (q : Queue A) (target : ℕ)
      → IsValid q
      → q.size < target
      → target < 2 ^ 29
      → ((n : ℕ) × (mem n ≡ false) × (grow (addtail_at 1 mem) mem q target ≡ done (enomem, q)))
        ⊎ ((q' : Queue A) × (grow (addtail_at 1 mem) mem q target ≡ done (0, q'))
            × IsValid q'
            × (target ≤ q'.size)
            × (contents q' ≡ contents q))
  unfolding grow
  grow_lem mem q target h lt small =
      let (n, e, lo, room, hi) =
        grow_size_lem (suc target) target q.size (omega arith) small (omega arith) in
      let q₀ : Queue A = record { size = n; nextwrite = 0; nextread = 0; cells = fresh_cells n } in
      let v₀ : IsValid q₀ = fresh-IsValid n (omega arith) (omega arith) in
      let (q', r, v, s, l) =
        readd_lem mem (suc q.size) q.nextread q.nextwrite q.size q.cells q₀ v₀ h.read_in h.write_in
          h.stored (omega (arith, count-lt-size q h)) (ground (arith, count-lt-size q h)) in
      elim (Bool-cases (mem (bytes n))) [
        | inl granted ↦ inr (q', ground (arith, e, r), v, omega arith, l)
        | inr refused ↦ inl (bytes n, refused, ground (arith, e))
      ]

  write-push :
      (q : Queue A) (c : Option A)
      → IsValid q
      → write q c ((q.nextwrite + 1) % q.size) ≡ done (0, push q c)
  unfolding write push
  write-push q c h = ground (arith, store_lem q.cells q.nextwrite c)

  -- q_addtail either says ENOMEM, only on a full block that kmalloc will not replace, and changes
  -- nothing, or puts the pointer behind the others.
  pub addtail_lem :
      (mem : ℕ → Bool) (q : Queue A) (x : A)
      → IsValid q
      → q.size + 1 < 2 ^ 29
      → ((n : ℕ) × (mem n ≡ false) × (count q + 1 ≡ q.size) × (addtail mem q x ≡ done (enomem, q)))
        ⊎ ((q' : Queue A) × (addtail mem q x ≡ done (0, q'))
            × IsValid q'
            × (contents q' ≡ contents q ++ some x ∷ []))
  unfolding addtail addtail_at
  addtail_lem mem q x h small = elim (ℕ_discrete ((q.nextwrite + 1) % q.size) q.nextread) [
    | yes full ↦
        let at_end = next_full q.size q.nextread q.nextwrite h.read_in h.write_in full in
        elim (grow_lem mem q (q.size + 1) h (omega arith) small) [
          | inl (n, refused, e) ↦ inl (n, refused, at_end, ground (arith, e))
          | inr (q', e, v, room, l) ↦
              let same : count q' ≡ count q =
                omega (arith, length-contents q', length-contents q, ap length l) in
              inr (
                push q' (some x),
                ground (arith, e, write-push q' (some x)),
                push-IsValid q' (some x) v,
                contents-push q' (some x) v (omega (arith, same, at_end))
                    ∙ ap (λ t. t ++ some x ∷ []) l,
              )
        ]
    | no free ↦
        let room : count q + 1 < q.size = ground (arith, next_lem q.size q.nextwrite h.write_in) in
        inr (
          push q (some x),
          addtail_at-room 1 mem q (some x) h room,
          push-IsValid q (some x) h,
          contents-push q (some x) h room,
        )
  ]

  -- A full block grows whatever kmalloc says, so q_addtail fails where kmalloc gives nothing.
  pub addtail-refused :
      (mem : ℕ → Bool) (q : Queue A) (x : A)
      → IsValid q
      → q.size + 1 < 2 ^ 29
      → count q + 1 ≡ q.size
      → ((n : ℕ) → mem n ≡ false)
      → addtail mem q x ≡ done (enomem, q)
  unfolding addtail addtail_at grow
  addtail-refused mem q x h small full none_left =
      let (n, e, lo, room, hi) =
        grow_size_lem (suc (q.size + 1)) (q.size + 1) q.size (omega arith) small (omega arith) in
      ground (arith, e, none_left (bytes n), next_lem q.size q.nextwrite h.write_in)

  -- q_preallocate keeps the contents, and leaves the block alone if it is large enough.
  pub preallocate_lem :
      (mem : ℕ → Bool) (q : Queue A) (n : ℕ)
      → IsValid q
      → n < 2 ^ 29
      → (n ≤ q.size → preallocate mem q n ≡ done (0, q))
        × (((m : ℕ) × (mem m ≡ false) × (q.size < n) × (preallocate mem q n ≡ done (enomem, q)))
            ⊎ ((q' : Queue A) × (preallocate mem q n ≡ done (0, q'))
                × IsValid q'
                × (n ≤ q'.size)
                × (contents q' ≡ contents q)))
  unfolding preallocate
  preallocate_lem mem q n h small = (
    λ le. ground arith,
    elim (dec_lt q.size n) [
      | yes lt ↦ elim (grow_lem mem q n h lt small) [
        | inl (m, refused, e) ↦ inl (m, refused, lt, ground (arith, e))
        | inr (q', e, v, room, l) ↦ inr (q', ground (arith, e), v, room, l)
      ]
      | no ge ↦ inr (q, ground arith, h, omega arith, refl)
    ],
  )

  -- q_create either fails, only where kmalloc refuses, or gives an empty queue of that size.
  pub create_lem :
      (mem : ℕ → Bool) (size : ℕ)
      → 0 < size
      → size < 2 ^ 30
      → ((create {A = A} mem size ≡ none) × ((n : ℕ) × (mem n ≡ false)))
        ⊎ ((q : Queue A) × (create mem size ≡ some q)
            × IsValid q
            × (q.size ≡ size)
            × (contents q ≡ []))
  unfolding create
  create_lem mem size pos small = elim (Bool-cases (mem 16)) [
    | inl struct_ok ↦ elim (Bool-cases (mem (bytes size))) [
      | inl block_ok ↦ inr (
        record { size = size; nextwrite = 0; nextread = 0; cells = fresh_cells size },
        ground arith,
        fresh-IsValid size pos small,
        refl,
        refl,
      )
      | inr refused ↦ inl (ground arith, (bytes size, refused))
    ]
    | inr refused ↦ inl (ground arith, (16, refused))
  ]
