-- ===== src/Queue/Head.antt =====
-- kern/lib/queue.c: the head of the queue: q_empty and q_remhead.
use ece344_operating_systems.Base.{
  ◌+◌, ◌%◌, ◌≡◌, ◌≢◌, refl, ap, sym, ◌∙◌, ◌↔◌, true, Option, none, List, [], ◌∷◌, arith, done,
  panic, length, get_or, load_lem, get_elem?-get_or,
}
use ece344_operating_systems.Queue.{Queue, empty, remhead}
use ece344_operating_systems.Queue.Window.{dist-next, window_step}
use ece344_operating_systems.Queue.Ops.{IsValid, count, contents, length-contents}
use ece344_operating_systems.Queue.Ops.{IsValid}

module _ {A : Type 0} where
  count-zero : (q : Queue A) → IsValid q → (q.nextwrite ≡ q.nextread) ↔ (count q ≡ 0)
  count-zero q h = (λ e. ground arith, λ e. ground arith)

  -- q_empty tells whether the contents are empty.
  pub empty_iff : (q : Queue A) → IsValid q → (empty q ≡ true) ↔ (contents q ≡ [])
  unfolding empty
  empty_iff q h = (
    λ e. let z : count q ≡ 0 = (count-zero q h).0 (ground arith) in rw z refl,
    λ e.
        let same : q.nextwrite ≡ q.nextread =
          (count-zero q h).1 (sym (length-contents q) ∙ ap length e) in
        ground arith,
  )

  head_and_tail :
      (q : Queue A)
      → IsValid q
      → q.nextread ≢ q.nextwrite
      → contents q
        ≡ get_or q.cells q.nextread none
          ∷ contents (record q { nextread = (q.nextread + 1) % q.size })
  head_and_tail q h apart =
      window_step q.cells q.size q.nextread (count q) _
        (sym (dist-next q.size q.nextread q.nextwrite h.read_in h.write_in apart))

  -- q_remhead takes the oldest pointer out, and panics on an empty queue.
  pub remhead_lem :
      (q : Queue A)
      → IsValid q
      → (contents q ≡ [] → remhead q ≡ panic)
        × ((c : Option A) (rest : List (Option A))
            → contents q ≡ c ∷ rest
            → (q' : Queue A) × (remhead q ≡ done (c, q'))
              × IsValid q'
              × (q'.size ≡ q.size)
              × (contents q' ≡ rest))
  unfolding remhead empty
  remhead_lem q h = (
    λ none_left.
        let same : q.nextwrite ≡ q.nextread =
          (count-zero q h).1 (sym (length-contents q) ∙ ap length none_left) in
        ground arith,
    λ c rest e.
        let apart : q.nextread ≢ q.nextwrite = λ same.
          absurd (omega (arith, (count-zero q h).0 (sym same), length-contents q, ap length e)) in
        let split = sym (head_and_tail q h apart) ∙ e in
        (
          record q { nextread = (q.nextread + 1) % q.size },
          ground (
            arith,
            split,
            load_lem q.cells q.nextread {x = c},
            get_elem?-get_or q.cells q.nextread none,
          ),
          record {
            read_in = omega (arith, h.read_in);
            write_in = h.write_in;
            stored = h.stored;
            small = h.small;
          },
          refl,
          cc,
        ),
  )
