-- ===== src/Kheap/Push.antt =====
-- kern/lib/kheap.c: the free list of a page when a block is written.
use ece344_operating_systems.Base.{
  ℕ, zero, suc, ◌+◌, ◌*◌, ◌%◌, ◌≤◌, ◌<◌, ◌≡◌, ◌≢◌, ◌⊎◌, refl, ap, sym, inl, inr, true, false, List,
  [], ◌∷◌, length, member, Distinct, arith, ltb, if◌then◌else◌, ℕ_discrete, dec_lt, subst,
}
use ece344_operating_systems.Kheap.{size, Pageref, page_addr, block_type, set_next, fill_deadbeef}
use ece344_operating_systems.Kheap.Page.{
  blocks, size-Cut, block-le, block-apart, blocks-le, Linked, head, IsPage,
}

-- The list is the same where its own blocks keep their pointers.
pub Linked-cong :
    (next next' : ℕ → ℕ) (page s n p : ℕ) (ks : List ℕ)
    → ((l : ℕ) → member l ks ≡ true → next' (page + l * s) ≡ next (page + l * s))
    → Linked next page s n p ks
    → Linked next' page s n p ks
Linked-cong next next' page s n p [] same h = h
Linked-cong next next' page s n p (k ∷ ks) same (at, l, rest) = (
  at,
  l,
  subst (λ q. Linked next' page s n q ks) (sym (same k ground arith))
      (Linked-cong next next' page s n (next (page + k * s)) ks (λ j m. same j ground (arith, m))
        rest),
)

-- What subpage_kfree writes: the fill, and the pointer over its first word.
abbrev pub freed : ℕ → ℕ → ℕ → (ℕ → ℕ) → ℕ → ℕ
freed ptr s value next = set_next (fill_deadbeef ptr s next) ptr value

pub freed-outside :
    (ptr s value : ℕ) (next : ℕ → ℕ) (a : ℕ)
    → 0 < s
    → (a < ptr) ⊎ (ptr + s ≤ a)
    → freed ptr s value next a ≡ next a
freed-outside ptr s value next a pos (inl h) = ground arith
freed-outside ptr s value next a pos (inr h) = ground arith

-- The free blocks of the page keep theirs when another block of it is freed.
pub Linked-freed :
    (next : ℕ → ℕ) (page s n p k value : ℕ) (ks : List ℕ)
    → 0 < s
    → member k ks ≡ false
    → Linked next page s n p ks
    → Linked (freed (page + k * s) s value next) page s n p ks
Linked-freed next page s n p k value ks pos out =
    Linked-cong next (freed (page + k * s) s value next) page s n p ks
      (λ l m. freed-outside (page + k * s) s value next (page + l * s) pos (side l (differ l m)))
  where
    differ : (l : ℕ) → member l ks ≡ true → l ≢ k
    differ l m e = ground (arith, ap (λ x. member x ks) e, m, out)

    side : (l : ℕ) → l ≢ k → (page + l * s < page + k * s) ⊎ (page + k * s + s ≤ page + l * s)
    side l ne = elim (dec_lt l k) [
      | yes lt ↦ inl (omega (arith, block-apart s l k lt, pos))
      | no ge ↦ inr (omega (arith, block-apart s k l (omega (arith, ge, ne))))
    ]

Linked-below :
    (next : ℕ → ℕ) (page s n p l : ℕ) (ks : List ℕ)
    → Linked next page s n p ks
    → member l ks ≡ true
    → l < n
Linked-below next page s n p l [] h m = absurd ground (arith, m)
Linked-below next page s n p l (k ∷ ks) (at, b, rest) m = elim (ℕ_discrete l k) [
  | yes e ↦ omega (arith, e, b)
  | no ne ↦ Linked-below next page s n (next (page + k * s)) l ks rest ground (arith, m, ne)
]

-- A page is the same where its own bytes are.
pub IsPage-cong :
    (next next' : ℕ → ℕ) (pr : Pageref) (ks : List ℕ)
    → ((a : ℕ) → page_addr pr ≤ a → a < page_addr pr + 4096 → next' a ≡ next a)
    → IsPage next pr ks
    → IsPage next' pr ks
IsPage-cong next next' pr ks same v =
    let s = size (block_type pr) in
    let n = blocks (block_type pr) in
    record {
      typed = v.typed;
      placed = v.placed;
      inside = v.inside;
      linked =
          Linked-cong next next' (page_addr pr) s n (head pr) ks
            (λ l m.
              same (page_addr pr + l * s) omega arith
                (fit l (Linked-below next (page_addr pr) s n (head pr) l ks v.linked m)))
            v.linked;
      counted = v.counted;
      few = v.few;
      distinct = v.distinct;
    }
  where
    fit :
        (l : ℕ)
        → l < blocks (block_type pr)
        → page_addr pr + l * size (block_type pr) < page_addr pr + 4096
    fit l b = let c = size-Cut (block_type pr) v.typed in omega (arith, block-le c l b, c.least)

-- How many of the numbers below `n` stand in the list.
abbrev tally : ℕ → List ℕ → ℕ
tally zero ks = 0
tally (suc n) ks = (if member n ks then 1 else 0) + tally n ks

tally-nil : (n : ℕ) → tally n [] ≡ 0
tally-nil zero = refl
tally-nil (suc n) = omega (arith, tally-nil n)

tally-cons :
    (n k : ℕ) (ks : List ℕ)
    → member k ks ≡ false
    → tally n (k ∷ ks) ≡ tally n ks + (if ltb k n then 1 else 0)
tally-cons zero k ks out = ground arith
tally-cons (suc n) k ks out = elim (ℕ_discrete n k) [
  | yes e ↦ ground (arith, tally-cons n k ks out, e, ap (λ x. member x ks) e)
  | no ne ↦ ground (arith, tally-cons n k ks out, ne)
]

tally-le : (n : ℕ) (ks : List ℕ) → tally n ks ≤ n
tally-le zero ks = omega arith
tally-le (suc n) ks = ground (arith, tally-le n ks)

tally-lt : (n k : ℕ) (ks : List ℕ) → k < n → member k ks ≡ false → tally n ks < n
tally-lt zero k ks l out = absurd (omega arith)
tally-lt (suc n) k ks l out = elim (ℕ_discrete k n) [
  | yes e ↦ ground (arith, tally-le n ks, ap (λ x. member x ks) e)
  | no ne ↦ ground (arith, tally-lt n k ks (omega (arith, l, ne)) out)
]

length-tally :
    (next : ℕ → ℕ) (page s n p : ℕ) (ks : List ℕ)
    → Linked next page s n p ks
    → Distinct ks
    → tally n ks ≡ length ks
length-tally next page s n p [] h d = tally-nil n
length-tally next page s n p (k ∷ ks) (at, l, rest) (out, d) =
    ground
      (arith, tally-cons n k ks out, length-tally next page s n (next (page + k * s)) ks rest d, l)

-- A page of which a block is in use has fewer free blocks than blocks.
pub length-lt :
    (next : ℕ → ℕ) (page s n p k : ℕ) (ks : List ℕ)
    → Linked next page s n p ks
    → Distinct ks
    → k < n
    → member k ks ≡ false
    → length ks < n
length-lt next page s n p k ks h d l out =
    omega (arith, length-tally next page s n p ks h d, tally-lt n k ks l out)

-- What subpage_kfree leaves of the page.
abbrev pub pushed : ℕ → Pageref → Pageref
pushed offset pr = record pr { freelist_offset = offset; nfree = (pr.nfree + 1) % 65536 }

pub pushed-IsPage :
    (next : ℕ → ℕ) (pr : Pageref) (k : ℕ) (ks : List ℕ)
    → IsPage next pr ks
    → k < blocks (block_type pr)
    → member k ks ≡ false
    → IsPage
        (freed (page_addr pr + k * size (block_type pr)) (size (block_type pr)) (head pr) next)
        (pushed (k * size (block_type pr)) pr)
        (k ∷ ks)
pushed-IsPage next pr k ks v l out =
    let s = size (block_type pr) in
    let c = size-Cut (block_type pr) v.typed in
    let fit : k * s + s ≤ 4096 = block-le c k l in
    let big : 16 ≤ s = c.least in
    let room : length ks < blocks (block_type pr) =
      length-lt next (page_addr pr) s (blocks (block_type pr)) (head pr) k ks v.linked v.distinct l
        out in
    let at : freed (page_addr pr + k * s) s (head pr) next (page_addr pr + k * s) ≡ head pr =
      ground arith in
    record {
      typed = v.typed;
      placed = v.placed;
      inside = v.inside;
      linked = (
        ground (arith, fit, big),
        l,
        subst
            (λ q.
              Linked (freed (page_addr pr + k * s) s (head pr) next) (page_addr pr) s
                (blocks (block_type pr)) q ks)
            (sym at)
            (Linked-freed next (page_addr pr) s (blocks (block_type pr)) (head pr) k (head pr) ks
              (omega (arith, big)) out v.linked),
      );
      counted = omega (arith, v.counted, room, blocks-le c);
      few = omega (arith, room);
      distinct = (out, v.distinct);
    }
