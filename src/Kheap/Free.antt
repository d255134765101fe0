-- ===== src/Kheap/Free.antt =====
-- kern/lib/kheap.c: subpage_kfree.
use ece344_operating_systems.Base.{
  ℕ, ◌+◌, ◌*◌, ◌/◌, ◌%◌, ◌^◌, ◌≤◌, ◌<◌, ◌≡◌, ◌≢◌, ◌⊎◌, refl, ap, sym, ◌∙◌, inl, inr, true, false,
  ◌&&◌, not, some, List, [], ◌∷◌, member, arith, ◌==◌, if◌then◌else◌, ℕ_discrete, done,
}
use ece344_operating_systems.Kheap.{
  page_addr, block_type, Heap, set_inuse, unlink, remove_lists, find_page,
}
use ece344_operating_systems.Kheap.Page.{size-Cut, block-le, head}
use ece344_operating_systems.Kheap.Push.{IsPage-cong, freed, freed-outside, pushed, pushed-IsPage}
use ece344_operating_systems.Kheap.Invariant.{
  Valid, IsUsed, block_at, block_size, Disjoint, pages-Disjoint, unlink-member, unlink-Distinct,
  of_type-unlink,
}
use ece344_operating_systems.Kheap.Update.{changed, with_free, changed-Valid}

pub find_page_lem :
    (ptr i : ℕ) (ids : List ℕ) (h : Heap)
    → member i ids ≡ true
    → ((j : ℕ)
        → member j ids ≡ true
        → (block_type (h.pagerefs j) < 8) × (page_addr (h.pagerefs j) + 4096 < 2 ^ 32))
    → page_addr (h.pagerefs i) ≤ ptr
    → ptr < page_addr (h.pagerefs i) + 4096
    → ((j : ℕ)
        → member j ids ≡ true
        → j ≢ i
        → (ptr < page_addr (h.pagerefs j)) ⊎ (page_addr (h.pagerefs j) + 4096 ≤ ptr))
    → find_page ptr ids h ≡ done (some i)
unfolding find_page
find_page_lem ptr i [] h m typed lo hi out = absurd ground (arith, m)
find_page_lem ptr i (j ∷ rest) h m typed lo hi out =
    let (t, inside) = typed j ground arith in
    elim (ℕ_discrete j i) [
      | yes e ↦
          let lo' : page_addr (h.pagerefs j) ≤ ptr =
            omega (arith, lo, ap (λ x. page_addr (h.pagerefs x)) e) in
          let hi' : ptr < page_addr (h.pagerefs j) + 4096 =
            omega (arith, hi, ap (λ x. page_addr (h.pagerefs x)) e) in
          ground (arith, t, inside, lo', hi', e)
      | no ne ↦
          let rest_lem =
            find_page_lem ptr i rest h ground (arith, m, ne) (λ l m'. typed l ground (arith, m')) lo
              hi (λ l m'. out l ground (arith, m')) in
          skip rest_lem t inside (out j ground arith ne)
    ]
  where
    skip :
        find_page ptr rest h ≡ done (some i)
        → block_type (h.pagerefs j) < 8
        → page_addr (h.pagerefs j) + 4096 < 2 ^ 32
        → (ptr < page_addr (h.pagerefs j)) ⊎ (page_addr (h.pagerefs j) + 4096 ≤ ptr)
        → find_page ptr (j ∷ rest) h ≡ done (some i)
    skip run t inside (inl lt) = ground (arith, run, t, lt)
    skip run t inside (inr ge) = ground (arith, run, t, inside, ge)

-- A page that is taken off both lists, and its pageref given back.
abbrev pub removed : ℕ → ℕ → Heap → Heap
removed p t h = set_inuse (p / 32) (p % 32) false (record h {
  sizebases = λ u. if u == t then unlink p (h.sizebases u) else h.sizebases u;
  allbase = unlink p h.allbase;
})

pub removed-member :
    (p t j : ℕ) (h : Heap) (free : ℕ → List ℕ)
    → Valid h free
    → member j (removed p t h).allbase ≡ true
    → (member j h.allbase ≡ true) × (j ≢ p)
removed-member p t j h free v m =
    let both : (member j h.allbase && not (j == p)) ≡ true =
      sym (unlink-member p j h.allbase v.once) ∙ m in
    (ground (arith, both), λ e. ground (arith, both, e))

pub removed-Valid :
    (p t : ℕ) (h : Heap) (free : ℕ → List ℕ)
    → Valid h free
    → block_type (h.pagerefs p) ≡ t
    → Valid (removed p t h) free
removed-Valid p t h free v e = record {
  pages = λ j m. v.pages j (old j m).0;
  apart = λ j l m m' ne. v.apart j l (old j m).0 (old l m').0 ne;
  sized = λ u. ground (arith, v.sized u, of_type-unlink h.pagerefs p u h.allbase, e);
  known = λ j m. ((v.known j (old j m).0).0, bit j (v.known j (old j m).0).1 (old j m).1);
  once = unlink-Distinct p h.allbase v.once;
}
  where
    old : (j : ℕ) → member j (removed p t h).allbase ≡ true → (member j h.allbase ≡ true) × (j ≢ p)
    old j m = removed-member p t j h free v m

    bit :
        (j : ℕ)
        → h.inuse (j / 32) (j % 32) ≡ true
        → j ≢ p
        → (if j / 32 == p / 32 && j % 32 == p % 32 then false else h.inuse (j / 32) (j % 32)) ≡ true
    bit j b ne =
        let other : (j / 32 == p / 32 && j % 32 == p % 32) ≡ false = ground (arith, ne) in
        ground (arith, b, other)

pub remove_lists_lem :
    (p t : ℕ) (h : Heap)
    → t < 8
    → remove_lists p t h
      ≡ done (record h {
        sizebases = λ u. if u == t then unlink p (h.sizebases u) else h.sizebases u;
        allbase = unlink p h.allbase;
      })
unfolding remove_lists
remove_lists_lem p t h l = ground (arith, l)

-- The heap in which block `k` of page `i` is in front of the page's free list.
abbrev pub pushed_in : ℕ → ℕ → Heap → Heap
pushed_in i k h =
    changed i (pushed (k * block_size h i) (h.pagerefs i))
      (freed (block_at h i k) (block_size h i) (head (h.pagerefs i)) h.next) h

pub pushed_in-Valid :
    (i k : ℕ) (h : Heap) (free : ℕ → List ℕ)
    → Valid h free
    → IsUsed h free i k
    → Valid (pushed_in i k h) (with_free i (k ∷ free i) free)
pushed_in-Valid i k h free v u =
    let pr = h.pagerefs i in
    let page = v.pages i u.listed in
    let c = size-Cut (block_type pr) page.typed in
    let next' = freed (block_at h i k) (block_size h i) (head pr) h.next in
    changed-Valid i (pushed (k * block_size h i) pr) next' (k ∷ free i) h free v refl
      (pushed-IsPage h.next pr k (free i) page u.below u.taken)
      (λ j m ne.
        IsPage-cong h.next next' (h.pagerefs j) (free j)
          (λ a lo hi.
            freed-outside (block_at h i k) (block_size h i) (head pr) h.next a
              (omega (arith, c.least))
              (outside j a lo hi (pages-Disjoint (h.pagerefs j) pr (v.apart j i m u.listed ne))
                (block-le c k u.below)))
          (v.pages j m))
  where
    outside :
        (j a : ℕ)
        → page_addr (h.pagerefs j) ≤ a
        → a < page_addr (h.pagerefs j) + 4096
        → Disjoint (page_addr (h.pagerefs j)) 4096 (page_addr (h.pagerefs i)) 4096
        → k * block_size h i + block_size h i ≤ 4096
        → (a < block_at h i k) ⊎ (block_at h i k + block_size h i ≤ a)
    outside j a lo hi (inl before) fit = inl (omega (arith, hi, before))
    outside j a lo hi (inr after) fit = inr (omega (arith, lo, after, fit))
