-- ===== src/Queue/Ops.antt =====
-- kern/lib/queue.c: the queue as the list of its pointers, oldest first.
use ece344_operating_systems.Base.{
  ℕ, zero, suc, ◌+◌, ◌%◌, ◌^◌, ◌<◌, ◌≡◌, ◌≢◌, refl, ap, sym, ◌∙◌, Bool, Option, none, List, [], ◌∷◌,
  ◌++◌, arith, ℕ_discrete, done, length, get_or, set, length-set, load_lem, store_lem,
  get_elem?-get_or,
}
use mathlib.Core.List.{append-nil, append_assoc}
use ece344_operating_systems.Queue.{Queue, readd, write, addtail_at}
use ece344_operating_systems.Queue.Window.{
  dist, dist-next, dist-next_end, next_full, window, length-window, window_step, window-set,
}

module _ {A : Type 0} where
  -- The indices lie in the block, and its size in bytes does not wrap.
  pub record IsValid (q : Queue A) : Type 0 where
    pub read_in : q.nextread < q.size
    pub write_in : q.nextwrite < q.size
    pub stored : length q.cells ≡ q.size
    pub small : q.size < 2 ^ 30

  abbrev pub count : Queue A → ℕ
  count q = dist q.size q.nextread q.nextwrite

  -- The abstract view: the cells in the queue, oldest first.
  abbrev pub contents : Queue A → List (Option A)
  contents q = window q.cells q.size q.nextread (count q)

  pub length-contents : (q : Queue A) → length (contents q) ≡ count q
  length-contents q = length-window q.cells q.size q.nextread (count q)

  pub count-lt-size : (q : Queue A) → IsValid q → count q < q.size
  count-lt-size q h = ground arith

  -- What q_addtail makes of a queue with a cell to spare.
  unfoldable pub push : Queue A → Option A → Queue A
  push q c = record q { cells = set q.cells q.nextwrite c; nextwrite = (q.nextwrite + 1) % q.size }

  pub push-IsValid : (q : Queue A) (c : Option A) → IsValid q → IsValid (push q c)
  unfolding push
  push-IsValid q c h = record {
    read_in = h.read_in;
    write_in = omega (arith, h.write_in);
    stored = length-set q.cells q.nextwrite c ∙ h.stored;
    small = h.small;
  }

  pub has_room :
      (q : Queue A) → IsValid q → count q + 1 < q.size → (q.nextwrite + 1) % q.size ≢ q.nextread
  has_room q h room e =
      absurd (omega (arith, next_full q.size q.nextread q.nextwrite h.read_in h.write_in e))

  pub count-push :
      (q : Queue A) (c : Option A)
      → IsValid q
      → count q + 1 < q.size
      → count (push q c) ≡ count q + 1
  unfolding push
  count-push q c h room =
      dist-next_end q.size q.nextread q.nextwrite h.read_in h.write_in (has_room q h room)

  pub contents-push :
      (q : Queue A) (c : Option A)
      → IsValid q
      → count q + 1 < q.size
      → contents (push q c) ≡ contents q ++ c ∷ []
  unfolding push
  contents-push q c h room =
      ap (window (set q.cells q.nextwrite c) q.size q.nextread) {x = count (push q c)}
        {y = suc (count q)} (omega (arith, count-push q c h room))
      ∙ window-set q.cells c q.size (count q) q.nextread q.nextwrite (omega arith) h.read_in
          h.write_in refl room

  pub size-push : (q : Queue A) (c : Option A) → (push q c).size ≡ q.size
  unfolding push
  size-push q c = refl

  pub addtail_at-room :
      (depth : ℕ) (mem : ℕ → Bool) (q : Queue A) (c : Option A)
      → IsValid q
      → count q + 1 < q.size
      → addtail_at (suc depth) mem q c ≡ done (0, push q c)
  unfolding addtail_at write push
  addtail_at-room depth mem q c h room =
      ground (arith, has_room q h room, store_lem q.cells q.nextwrite c)

  -- The copying loop of q_grow moves the window over, and none of its calls has to grow.
  pub readd_lem :
      (mem : ℕ → Bool) (fuel i onw osize : ℕ) (olddata : List (Option A)) (q : Queue A)
      → IsValid q
      → i < osize
      → onw < osize
      → length olddata ≡ osize
      → dist osize i onw < fuel
      → count q + dist osize i onw < q.size
      → (q' : Queue A) × (readd (addtail_at 1 mem) fuel i onw osize olddata q ≡ done q')
        × IsValid q'
        × (q'.size ≡ q.size)
        × (contents q' ≡ contents q ++ window olddata osize i (dist osize i onw))
  unfolding readd
  readd_lem mem zero i onw osize olddata q h hi ho len enough room = absurd (omega arith)
  readd_lem mem (suc fuel) i onw osize olddata q h hi ho len enough room = elim (ℕ_discrete i onw) [
    | yes same ↦ (
      q,
      ground arith,
      h,
      refl,
      let none_left : dist osize i onw ≡ 0 = ground arith in
          rw none_left (sym (append-nil (contents q))),
    )
    | no apart ↦
        let c = get_or olddata i none in
        let d = dist-next osize i onw hi ho apart in
        let (q', e, v, s, l) =
          readd_lem mem fuel ((i + 1) % osize) onw osize olddata (push q c) (push-IsValid q c h)
            (omega arith) ho len (omega arith)
            (omega (arith, count-push q c h (omega arith), d, size-push q c)) in
        (
          q',
          ground (
            arith,
            load_lem olddata i {x = c},
            get_elem?-get_or olddata i none,
            addtail_at-room 0 mem q c h,
            e,
          ),
          v,
          s ∙ size-push q c,
          l
              ∙ ap
                  (λ t.
                    t ++ window olddata osize ((i + 1) % osize) (dist osize ((i + 1) % osize) onw))
                  (contents-push q c h (omega arith))
              ∙ append_assoc (contents q) (c ∷ []) _
              ∙ ap (λ t. contents q ++ t)
                  (sym (
                    window_step olddata osize i (dist osize i onw)
                      (dist osize ((i + 1) % osize) onw) (sym d))),
        )
  ]
