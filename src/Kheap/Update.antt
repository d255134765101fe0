-- ===== src/Kheap/Update.antt =====
-- kern/lib/kheap.c: one page of the heap is changed, or a page is added to it.
use ece344_operating_systems.Base.{
  ℕ, ◌+◌, ◌-◌, ◌*◌, ◌/◌, ◌%◌, ◌^◌, ◌<◌, ◌≡◌, ◌≢◌, ◌⊎◌, ap, sym, ◌∙◌, inl, inr, Bool, true, false,
  ◌&&◌, Bool-cases, List, ◌∷◌, member, arith, ◌==◌, if◌then◌else◌, ℕ_discrete, subst,
}
use ece344_operating_systems.Kheap.{size, Pageref, page_addr, block_type, Heap, set_inuse}
use ece344_operating_systems.Kheap.Page.{blocks, IsPage}
use ece344_operating_systems.Kheap.Fresh.{down, fresh_page, added, fresh_page-addr, fresh_page-type}
use ece344_operating_systems.Kheap.Invariant.{
  of_type, Valid, IsUsed, of_type-cong, block_at, block_size,
}

-- The heap in which the page `p` has the pageref `pr` and the memory is `next`.
abbrev pub changed : ℕ → Pageref → (ℕ → ℕ) → Heap → Heap
changed p pr next h = record h { pagerefs = λ q. if q == p then pr else h.pagerefs q; next = next }

abbrev pub with_free : ℕ → List ℕ → (ℕ → List ℕ) → ℕ → List ℕ
with_free p ks free i = if i == p then ks else free i

-- The word of a pageref that never changes while the page is listed.
changed-word :
    (p : ℕ) (pr : Pageref) (h : Heap)
    → pr.pageaddr_and_blocktype ≡ (h.pagerefs p).pageaddr_and_blocktype
    → (i : ℕ)
    → (if i == p then pr else h.pagerefs i).pageaddr_and_blocktype
      ≡ (h.pagerefs i).pageaddr_and_blocktype
changed-word p pr h e i = elim (ℕ_discrete i p) [
  | yes at ↦ ground (arith, at, e, ap (λ x. (h.pagerefs x).pageaddr_and_blocktype) at)
  | no ne ↦ ground (arith, ne)
]

-- What holds at `p` and elsewhere, of two maps that are written at `p`.
pub at_or_else :
    {A : Type 0} {B : Type 0} (P : A → B → Type 0) (p i : ℕ) (a : A) (b : B) (f : ℕ → A) (g : ℕ → B)
    → (i ≡ p → P a b)
    → (i ≢ p → P (f i) (g i))
    → P (if i == p then a else f i) (if i == p then b else g i)
at_or_else P p i a b f g here there = elim (ℕ_discrete i p) [
  | yes e ↦
      let t : (i == p) ≡ true = ground (arith, e) in
      subst (λ c. P (if c then a else f i) (if c then b else g i)) (sym t) (here e)
  | no ne ↦
      let t : (i == p) ≡ false = ground (arith, ne) in
      subst (λ c. P (if c then a else f i) (if c then b else g i)) (sym t) (there ne)
]

pub changed-Valid :
    (p : ℕ) (pr : Pageref) (next : ℕ → ℕ) (ks : List ℕ) (h : Heap) (free : ℕ → List ℕ)
    → Valid h free
    → pr.pageaddr_and_blocktype ≡ (h.pagerefs p).pageaddr_and_blocktype
    → IsPage next pr ks
    → ((i : ℕ) → member i h.allbase ≡ true → i ≢ p → IsPage next (h.pagerefs i) (free i))
    → Valid (changed p pr next h) (with_free p ks free)
changed-Valid p pr next ks h free v e page others =
    let same = changed-word p pr h e in
    record {
      pages = λ i m.
          at_or_else (λ r l. IsPage next r l) p i pr ks h.pagerefs free (λ at. page) (others i m);
      apart =
          λ i j m m' ne eq. v.apart i j m m' ne (sym (ap addr (same i)) ∙ eq ∙ ap addr (same j));
      sized = λ t.
          v.sized t
          ∙ sym (
              of_type-cong (changed p pr next h).pagerefs h.pagerefs t h.allbase
                (λ i m. ap (λ w. w % 4096) (same i)));
      known = v.known;
      once = v.once;
    }
  where
    addr : ℕ → ℕ
    addr w = w - w % 4096

-- What stays in use when the page's free blocks become `ks`.
pub changed-IsUsed :
    (p : ℕ) (pr : Pageref) (next : ℕ → ℕ) (ks : List ℕ) (h : Heap) (free : ℕ → List ℕ) (i k : ℕ)
    → pr.pageaddr_and_blocktype ≡ (h.pagerefs p).pageaddr_and_blocktype
    → IsUsed h free i k
    → (i ≡ p → member k ks ≡ false)
    → IsUsed (changed p pr next h) (with_free p ks free) i k
changed-IsUsed p pr next ks h free i k e u out = record {
  listed = u.listed;
  below = subst (λ w. k < blocks (w % 4096)) (sym (changed-word p pr h e i)) u.below;
  taken = at_or_else (λ r l. member k l ≡ false) p i pr ks h.pagerefs free out (λ ne. u.taken);
}

-- The addresses and the sizes of blocks stay.
pub changed-block :
    (p : ℕ) (pr : Pageref) (next : ℕ → ℕ) (h : Heap) (i k : ℕ)
    → pr.pageaddr_and_blocktype ≡ (h.pagerefs p).pageaddr_and_blocktype
    → (block_at (changed p pr next h) i k ≡ block_at h i k)
      × (block_size (changed p pr next h) i ≡ block_size h i)
      × (block_type ((changed p pr next h).pagerefs i) ≡ block_type (h.pagerefs i))
changed-block p pr next h i k e =
    let same = changed-word p pr h e i in
    (
      ap (λ w. (w - w % 4096) + k * size (w % 4096)) same,
      ap (λ w. size (w % 4096)) same,
      ap (λ w. w % 4096) same,
    )

-- A fresh page: its pageref was not in use, and no page of the heap has its address.
pub record IsGranted (h : Heap) (prpage : ℕ) : Type 0 where
  pub aligned : prpage % 4096 ≡ 0
  pub positive : 0 < prpage
  pub inside : prpage + 4096 < 2 ^ 32
  pub new : (i : ℕ) → member i h.allbase ≡ true → page_addr (h.pagerefs i) ≢ prpage

pub unlisted :
    (p : ℕ) (h : Heap) (free : ℕ → List ℕ)
    → Valid h free
    → h.inuse (p / 32) (p % 32) ≡ false
    → member p h.allbase ≡ false
unlisted p h free v clear = elim (Bool-cases (member p h.allbase)) [
  | inl m ↦ absurd ground (arith, (v.known p m).1, clear)
  | inr n ↦ n
]

pub marked-Valid :
    (p : ℕ) (b : Bool) (h : Heap) (free : ℕ → List ℕ)
    → Valid h free
    → (b ≡ true) ⊎ (member p h.allbase ≡ false)
    → Valid (set_inuse (p / 32) (p % 32) b h) free
marked-Valid p b h free v either = record {
  pages = v.pages;
  apart = v.apart;
  sized = v.sized;
  known = λ i m. ((v.known i m).0, bit i (v.known i m).1 (differ i m));
  once = v.once;
}
  where
    differ : (i : ℕ) → member i h.allbase ≡ true → (b ≡ true) ⊎ (i ≢ p)
    differ i m = elim either [
      | inl t ↦ inl t
      | inr out ↦ inr (λ e. ground (arith, m, out, ap (λ x. member x h.allbase) e))
    ]

    bit :
        (i : ℕ)
        → h.inuse (i / 32) (i % 32) ≡ true
        → (b ≡ true) ⊎ (i ≢ p)
        → (if i / 32 == p / 32 && i % 32 == p % 32 then b else h.inuse (i / 32) (i % 32)) ≡ true
    bit i e (inl t) = ground (arith, e, t)
    bit i e (inr ne) =
        let other : (i / 32 == p / 32 && i % 32 == p % 32) ≡ false = ground (arith, ne) in
        ground (arith, e, other)

pub added-Valid :
    (p prpage t : ℕ) (next : ℕ → ℕ) (h : Heap) (free : ℕ → List ℕ)
    → Valid h free
    → p < 256
    → h.inuse (p / 32) (p % 32) ≡ true
    → member p h.allbase ≡ false
    → t < 8
    → IsGranted h prpage
    → IsPage next (fresh_page prpage t) (down (blocks t))
    → ((i : ℕ) → member i h.allbase ≡ true → IsPage next (h.pagerefs i) (free i))
    → Valid (added p prpage t next h) (with_free p (down (blocks t)) free)
added-Valid p prpage t next h free v small used out l g page others =
    let pr = fresh_page prpage t in
    let ea : page_addr pr ≡ prpage = fresh_page-addr prpage t l g.aligned in
    let et : block_type pr ≡ t = fresh_page-type prpage t l g.aligned in
    let refs = (added p prpage t next h).pagerefs in
    let at_p : refs p ≡ pr = ground arith in
    let elsewhere : (i : ℕ) → i ≢ p → refs i ≡ h.pagerefs i = λ i ne. ground (arith, ne) in
    record {
      pages = λ i m.
          at_or_else (λ r ks. IsPage next r ks) p i pr (down (blocks t)) h.pagerefs free (λ e. page)
            (λ ne. others i ground (arith, m, ne));
      apart = λ i j m m' ne. distinct i j m m' ne;
      sized = λ u. ground (arith, v.sized u, same u, ap block_type at_p, et);
      known = λ i m. elim (ℕ_discrete i p) [
        | yes e ↦ (omega (arith, small, e), ap (λ x. h.inuse (x / 32) (x % 32)) e ∙ used)
        | no ne ↦ v.known i ground (arith, m, ne)
      ];
      once = (out, v.once);
    }
  where
    refs : ℕ → Pageref
    refs = (added p prpage t next h).pagerefs

    here : (i : ℕ) → i ≡ p → page_addr (refs i) ≡ prpage
    here i e =
        let at : refs i ≡ fresh_page prpage t = ground (arith, e) in
        ap page_addr at ∙ fresh_page-addr prpage t l g.aligned

    there : (i : ℕ) → i ≢ p → page_addr (refs i) ≡ page_addr (h.pagerefs i)
    there i ne = ap page_addr {x = refs i} {y = h.pagerefs i} ground (arith, ne)

    listed : (i : ℕ) → member i (p ∷ h.allbase) ≡ true → i ≢ p → member i h.allbase ≡ true
    listed i m ne = ground (arith, m, ne)

    distinct :
        (i j : ℕ)
        → member i (p ∷ h.allbase) ≡ true
        → member j (p ∷ h.allbase) ≡ true
        → i ≢ j
        → page_addr (refs i) ≢ page_addr (refs j)
    distinct i j m m' ne eq = elim (ℕ_discrete i p) [
      | yes e ↦
          let other : j ≢ p = λ e'. ne (e ∙ sym e') in
          g.new j (listed j m' other) (sym (there j other) ∙ sym eq ∙ here i e)
      | no ne' ↦ elim (ℕ_discrete j p) [
        | yes e ↦ g.new i (listed i m ne') (sym (there i ne') ∙ eq ∙ here j e)
        | no ne'' ↦
            v.apart i j (listed i m ne') (listed j m' ne'') ne
              (sym (there i ne') ∙ eq ∙ there j ne'')
      ]
    ]

    never : (i : ℕ) → member i h.allbase ≡ true → i ≢ p
    never i m e = ground (arith, m, out, ap (λ x. member x h.allbase) e)

    same : (u : ℕ) → of_type refs u h.allbase ≡ of_type h.pagerefs u h.allbase
    same u =
        of_type-cong refs h.pagerefs u h.allbase
          (λ i m. ap block_type {x = refs i} {y = h.pagerefs i} ground (arith, never i m))
