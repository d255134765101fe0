-- ===== src/Kheap/Invariant.antt =====
-- kern/lib/kheap.c: the state of the whole heap, its two lists of pages and the blocks in use.
use ece344_operating_systems.Base.{
  ℕ, ◌+◌, ◌*◌, ◌/◌, ◌%◌, ◌≤◌, ◌<◌, ◌≡◌, ◌≢◌, ◌⊎◌, refl, ap, sym, ◌∙◌, inl, inr, true, false, ◌&&◌,
  not, Bool-cases, List, [], ◌∷◌, member, Distinct, arith, ◌==◌, if◌then◌else◌, ℕ_discrete, dec_lt,
  subst,
}
use ece344_operating_systems.Kheap.{size, Pageref, page_addr, block_type, Heap, unlink}
use ece344_operating_systems.Kheap.Page.{blocks, size-Cut, block-le, IsPage}

-- The pages of a size among those of a list.
abbrev pub of_type : (ℕ → Pageref) → ℕ → List ℕ → List ℕ
of_type refs t [] = []
of_type refs t (i ∷ rest) =
    if block_type (refs i) == t then i ∷ of_type refs t rest else of_type refs t rest

-- `free i` are the numbers of the free blocks of page `i`, in the order of its list.
pub record Valid (h : Heap) (free : ℕ → List ℕ) : Type 0 where
  pub pages : (i : ℕ) → member i h.allbase ≡ true → IsPage h.next (h.pagerefs i) (free i)
  pub apart :
      (i j : ℕ)
      → member i h.allbase ≡ true
      → member j h.allbase ≡ true
      → i ≢ j
      → page_addr (h.pagerefs i) ≢ page_addr (h.pagerefs j)
  pub sized : (t : ℕ) → h.sizebases t ≡ of_type h.pagerefs t h.allbase
  pub known : (i : ℕ) → member i h.allbase ≡ true → (i < 256) × (h.inuse (i / 32) (i % 32) ≡ true)
  pub once : Distinct h.allbase

abbrev pub block_size : Heap → ℕ → ℕ
block_size h i = size (block_type (h.pagerefs i))

abbrev pub block_at : Heap → ℕ → ℕ → ℕ
block_at h i k = page_addr (h.pagerefs i) + k * block_size h i

-- Block `k` of page `i` is one that the heap has handed out.
pub record IsUsed (h : Heap) (free : ℕ → List ℕ) (i k : ℕ) : Type 0 where
  pub listed : member i h.allbase ≡ true
  pub below : k < blocks (block_type (h.pagerefs i))
  pub taken : member k (free i) ≡ false

-- Two ranges of bytes that have none in common.
abbrev pub Disjoint : ℕ → ℕ → ℕ → ℕ → Type 0
Disjoint a m b n = (a + m ≤ b) ⊎ (b + n ≤ a)

pub Disjoint-sym : (a m b n : ℕ) → Disjoint a m b n → Disjoint b n a m
Disjoint-sym a m b n (inl h) = inr h
Disjoint-sym a m b n (inr h) = inl h

-- Pages begin at multiples of their size.
pub pages-Disjoint :
    (p q : Pageref) → page_addr p ≢ page_addr q → Disjoint (page_addr p) 4096 (page_addr q) 4096
pages-Disjoint p q ne = elim (dec_lt (page_addr p) (page_addr q)) [
  | yes lt ↦ inl (omega (arith, lt))
  | no ge ↦ inr (omega (arith, ge, ne))
]

-- Blocks lie in their pages.
pub blocks-Disjoint :
    (a b k s l u : ℕ)
    → k * s + s ≤ 4096
    → l * u + u ≤ 4096
    → Disjoint a 4096 b 4096
    → Disjoint (a + k * s) s (b + l * u) u
blocks-Disjoint a b k s l u fit fit' (inl h) = inl (omega (arith, h, fit, fit'))
blocks-Disjoint a b k s l u fit fit' (inr h) = inr (omega (arith, h, fit, fit'))

pub block-fit :
    (h : Heap) (free : ℕ → List ℕ) (i k : ℕ)
    → Valid h free
    → IsUsed h free i k
    → k * block_size h i + block_size h i ≤ 4096
block-fit h free i k v u =
    block-le (size-Cut (block_type (h.pagerefs i)) (v.pages i u.listed).typed) k u.below

-- The list of the pages of a size looks at nothing but their sizes.
pub of_type-cong :
    (f g : ℕ → Pageref) (t : ℕ) (ids : List ℕ)
    → ((i : ℕ) → member i ids ≡ true → block_type (f i) ≡ block_type (g i))
    → of_type f t ids ≡ of_type g t ids
of_type-cong f g t [] same = refl
of_type-cong f g t (i ∷ rest) same =
    ground (arith, of_type-cong f g t rest (λ j m. same j ground (arith, m)), same i ground arith)

pub of_type-member :
    (f : ℕ → Pageref) (t i : ℕ) (ids : List ℕ)
    → member i (of_type f t ids) ≡ true
    → (member i ids ≡ true) × (block_type (f i) ≡ t)
of_type-member f t i [] m = absurd ground (arith, m)
of_type-member f t i (j ∷ rest) m = elim (ℕ_discrete i j) [
  | yes e ↦ elim (ℕ_discrete (block_type (f j)) t) [
    | yes same ↦ (ground (arith, e), ap (λ x. block_type (f x)) e ∙ same)
    | no ne ↦
        let (inside, typed) = of_type-member f t i rest ground (arith, m, ne) in
        (ground (arith, e), typed)
  ]
  | no ne ↦
      let (inside, typed) = of_type-member f t i rest ground (arith, m, ne) in
      (ground (arith, inside, ne), typed)
]

-- A page that is taken off a list without repetition.
pub unlink-member :
    (p i : ℕ) (ids : List ℕ)
    → Distinct ids
    → member i (unlink p ids) ≡ (member i ids && not (i == p))
unfolding unlink
unlink-member p i [] d = refl
unlink-member p i (q ∷ rest) (out, d) = elim (ℕ_discrete q p) [
  | yes e ↦ elim (ℕ_discrete i p) [
    | yes e' ↦ ground (arith, e, e', out, ap (λ x. member x rest) (e' ∙ sym e))
    | no ne ↦ ground (arith, e, ne)
  ]
  | no ne ↦ ground (arith, ne, unlink-member p i rest d)
]

pub unlink-Distinct : (p : ℕ) (ids : List ℕ) → Distinct ids → Distinct (unlink p ids)
unfolding unlink
unlink-Distinct p [] d = tt
unlink-Distinct p (q ∷ rest) (out, d) = elim (Bool-cases (q == p)) [
  | inl y ↦ subst (λ b. Distinct (if b then rest else q ∷ unlink p rest)) (sym y) d
  | inr n ↦
      subst (λ b. Distinct (if b then rest else q ∷ unlink p rest)) (sym n)
        (ground (arith, unlink-member p q rest d, out), unlink-Distinct p rest d)
]

-- Taken off the list of all pages, a page is off the list of its size, and the others are as before.
pub of_type-unlink :
    (f : ℕ → Pageref) (p t : ℕ) (ids : List ℕ)
    → of_type f t (unlink p ids)
      ≡ (if t == block_type (f p) then unlink p (of_type f t ids) else of_type f t ids)
unfolding unlink
of_type-unlink f p t [] = ground arith
of_type-unlink f p t (q ∷ rest) = elim (ℕ_discrete q p) [
  | yes e ↦ ground (arith, e, ap (λ x. block_type (f x)) e)
  | no ne ↦ ground (arith, ne, of_type-unlink f p t rest)
]
