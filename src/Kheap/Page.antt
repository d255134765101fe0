-- ===== src/Kheap/Page.antt =====
-- kern/lib/kheap.c: the free list of one page, by the numbers of its blocks.
use ece344_operating_systems.Base.{
  ℕ, zero, suc, ◌+◌, ◌-◌, ◌*◌, ◌/◌, ◌%◌, ◌^◌, ◌≤◌, ◌<◌, ◌≡◌, refl, ap, ◌∙◌, inl, inr, Bool-cases,
  some, List, [], ◌∷◌, length, Distinct, arith, ◌==◌, if◌then◌else◌, done,
}
use ece344_operating_systems.Kheap.{
  page_size, invalid_offset, size, Pageref, page_addr, block_type, Heap, set_pageref, doalloc,
}

abbrev pub blocks : ℕ → ℕ
blocks t = page_size / size t

-- Each page is cut into blocks without a rest.
pub record Cut (s n : ℕ) : Type 0 where
  pub whole : s * n ≡ 4096
  pub least : 16 ≤ s
  pub some_blocks : 0 < n

pub size-Cut : (t : ℕ) → t < 8 → Cut (size t) (blocks t)
unfolding size
size-Cut zero l = omega arith
size-Cut (suc zero) l = omega arith
size-Cut (suc (suc zero)) l = omega arith
size-Cut (suc (suc (suc zero))) l = omega arith
size-Cut (suc (suc (suc (suc zero)))) l = omega arith
size-Cut (suc (suc (suc (suc (suc zero))))) l = omega arith
size-Cut (suc (suc (suc (suc (suc (suc zero)))))) l = omega arith
size-Cut (suc (suc (suc (suc (suc (suc (suc zero))))))) l = omega arith
size-Cut (suc (suc (suc (suc (suc (suc (suc (suc t)))))))) l = absurd (omega arith)

pub block-le : {s n : ℕ} → Cut s n → (k : ℕ) → k < n → k * s + s ≤ 4096
block-le {s} {n} c k l = grind (arith, c.whole)

pub block-apart : (s k l : ℕ) → k < l → k * s + s ≤ l * s
block-apart s k l h = grind arith

-- The list that begins at the address `p` goes through the blocks `ks` of the page and ends.
abbrev pub Linked : (ℕ → ℕ) → ℕ → ℕ → ℕ → ℕ → List ℕ → Type 0
Linked next page s n p [] = p ≡ 0
Linked next page s n p (k ∷ ks) =
    (p ≡ page + k * s) × (k < n) × Linked next page s n (next (page + k * s)) ks

-- Where the free list of a page begins.
abbrev pub head : Pageref → ℕ
head pr = if pr.freelist_offset == invalid_offset then 0 else page_addr pr + pr.freelist_offset

-- A page with its free blocks.
pub record IsPage (next : ℕ → ℕ) (pr : Pageref) (ks : List ℕ) : Type 0 where
  pub typed : block_type pr < 8
  pub placed : 0 < page_addr pr
  pub inside : page_addr pr + 4096 < 2 ^ 32
  pub linked :
      Linked next (page_addr pr) (size (block_type pr)) (blocks (block_type pr)) (head pr) ks
  pub counted : pr.nfree ≡ length ks
  pub few : length ks ≤ blocks (block_type pr)
  pub distinct : Distinct ks

pub blocks-le : {s n : ℕ} → Cut s n → n ≤ 256
blocks-le {s} {n} c = grind (arith, c.whole, c.least)

-- The offset of a list that is not empty.
offset-head :
    (pr : Pageref) (k s : ℕ)
    → 0 < page_addr pr
    → head pr ≡ page_addr pr + k * s
    → pr.freelist_offset ≡ k * s
offset-head pr k s placed e = elim (Bool-cases (pr.freelist_offset == invalid_offset)) [
  | inl y ↦
      absurd (let z : page_addr pr + k * s ≡ 0 = ground (arith, y, e) in omega (arith, z, placed))
  | inr n ↦
      let z : page_addr pr + pr.freelist_offset ≡ page_addr pr + k * s = ground (arith, n, e) in
      omega (arith, z)
]

-- What is left of the page when its first block is taken: of one block, and of more.
abbrev pub popped_last : Pageref → Pageref
popped_last pr = record pr { freelist_offset = invalid_offset; nfree = (pr.nfree + 65535) % 65536 }

abbrev pub popped : (ℕ → ℕ) → Pageref → Pageref
popped next pr = record pr {
  freelist_offset = (next (page_addr pr + pr.freelist_offset) + 2 ^ 32 - page_addr pr) % 2 ^ 32;
  nfree = (pr.nfree + 65535) % 65536;
}

pub doalloc_lem :
    (p k : ℕ) (ks : List ℕ) (h : Heap)
    → IsPage h.next (h.pagerefs p) (k ∷ ks)
    → (pr' : Pageref) × (doalloc p h
        ≡ done (
          some (page_addr (h.pagerefs p) + k * size (block_type (h.pagerefs p))),
          set_pageref p pr' h,
        ))
      × (pr'.pageaddr_and_blocktype ≡ (h.pagerefs p).pageaddr_and_blocktype)
      × IsPage h.next pr' ks
unfolding doalloc
doalloc_lem p k [] h v =
    let pr = h.pagerefs p in
    let s = size (block_type pr) in
    let c = size-Cut (block_type pr) v.typed in
    let o : pr.freelist_offset ≡ k * s = offset-head pr k s v.placed v.linked.0 in
    let fit : k * s + s ≤ 4096 = block-le c k v.linked.1 in
    let big : 16 ≤ s = c.least in
    let last : h.next (page_addr pr + k * s) ≡ 0 = v.linked.2 in
    let last' : h.next (page_addr pr + pr.freelist_offset) ≡ 0 =
      ap (λ (x : ℕ). h.next (page_addr pr + x)) o ∙ last in
    let one : pr.nfree ≡ 1 = v.counted in
    (
      popped_last pr,
      ground (arith, o, fit, big, last', one),
      refl,
      record {
        typed = v.typed;
        placed = v.placed;
        inside = v.inside;
        linked = refl;
        counted = omega (arith, one);
        few = omega arith;
        distinct = tt;
      },
    )
doalloc_lem p k (l ∷ ks) h v =
    let pr = h.pagerefs p in
    let s = size (block_type pr) in
    let c = size-Cut (block_type pr) v.typed in
    let o : pr.freelist_offset ≡ k * s = offset-head pr k s v.placed v.linked.0 in
    let fit : k * s + s ≤ 4096 = block-le c k v.linked.1 in
    let big : 16 ≤ s = c.least in
    let link : Linked h.next (page_addr pr) s (blocks (block_type pr))
        (h.next (page_addr pr + k * s)) (l ∷ ks) =
      v.linked.2 in
    let fit' : l * s + s ≤ 4096 = block-le c l link.1 in
    let at : h.next (page_addr pr + k * s) ≡ page_addr pr + l * s = link.0 in
    let at' : h.next (page_addr pr + pr.freelist_offset) ≡ page_addr pr + l * s =
      ap (λ (x : ℕ). h.next (page_addr pr + x)) o ∙ at in
    let more : pr.nfree ≡ suc (suc (length ks)) = v.counted in
    let few : suc (suc (length ks)) ≤ 256 = omega (arith, v.few, blocks-le c) in
    let off : (h.next (page_addr pr + pr.freelist_offset) + 2 ^ 32 - page_addr pr) % 2 ^ 32
        ≡ l * s =
      omega (arith, at', fit', big, v.inside) in
    (
      popped h.next pr,
      ground (arith, o, fit, big, at', fit', more, few, v.placed, off),
      refl,
      record {
        typed = v.typed;
        placed = v.placed;
        inside = v.inside;
        linked = (ground (arith, off, fit', big), link.1, link.2);
        counted = omega (arith, more, few);
        few = omega (arith, v.few);
        distinct = v.distinct.1;
      },
    )
