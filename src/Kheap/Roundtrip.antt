-- ===== src/Kheap/Roundtrip.antt =====
-- kern/lib/kheap.c: kmalloc and kfree together.
use ece344_operating_systems.Base.{
  ℕ, ◌<◌, ◌≡◌, ◌≢◌, ◌⊎◌, ap, ap₂, sym, ◌∙◌, inl, inr, true, Option, none, some, List, arith,
  ℕ_discrete, done, Run, panic, undef, spin, subst,
}
use ece344_operating_systems.Kheap.{block_type, Heap, subpage_kmalloc}
use ece344_operating_systems.Kheap.Page.{size-Cut}
use ece344_operating_systems.Kheap.Invariant.{Valid, IsUsed, block_at, block_size, Disjoint}
use ece344_operating_systems.Kheap.Update.{IsGranted}
use ece344_operating_systems.Kheap.{kmalloc, kfree, subpage_kfree}
use ece344_operating_systems.Kheap.Alloc.{Keeps, IsAllocation}
use ece344_operating_systems.Kheap.Kmalloc.{subpage_kmalloc_lem}
use ece344_operating_systems.Kheap.Kfree.{IsFreeing, subpage_kfree_lem}

value : {A : Type 0} → A → Run A → A
value a (done x) = x
value a panic = a
value a undef = a
value a spin = a

done-injective : {A : Type 0} (x y : A) → done x ≡ done y → x ≡ y
unfolding value
done-injective x y e = ap (value x) e

-- The block that was handed out is none of those in use before.
given-other :
    (prpage sz a i k : ℕ) (h h₁ : Heap) (free free' : ℕ → List ℕ)
    → (is : IsAllocation prpage sz h free h₁ free' (some a)) → IsUsed h free i k
    → (i ≢ is.answer.page) ⊎ (k ≢ is.answer.block)
given-other prpage sz a i k h h₁ free free' is u = elim (ℕ_discrete i is.answer.page) [
  | no ne ↦ inl ne
  | yes e ↦ inr (λ e'. apart e e' (is.answer.clear i k u))
]
  where
    apart :
        i ≡ is.answer.page
        → k ≡ is.answer.block
        → Disjoint (block_at h i k) (block_size h i) a (block_size h₁ is.answer.page)
        → ⊥
    apart e e' d =
        let (u', at, sized) = is.kept i k u in
        let same : a ≡ block_at h i k = is.answer.at ∙ sym (ap₂ (block_at h₁) e e') ∙ at in
        let pos : 0 < block_size h₁ is.answer.page = omega (
          arith,
          (size-Cut (block_type (h₁.pagerefs is.answer.page))
              (is.valid.pages is.answer.page is.answer.now.listed).typed).least,
        ) in
        let pos' : 0 < block_size h i =
          subst (λ n. 0 < n) (sym (ap (block_size h₁) e) ∙ sized) pos in
        ground (arith, d, same, pos, pos')

-- The block at `a`, which is in use in `h'`, goes back by kfree, and the blocks in use in `h` stay.
abbrev pub IsReturned : ℕ → Heap → (ℕ → List ℕ) → Heap → Type 0
IsReturned a h free h' =
    (free' : ℕ → List ℕ) × (i : ℕ) × (k : ℕ) × (h'' : Heap) × (free'' : ℕ → List ℕ) × (page : Option
      ℕ)
    × Valid h' free'
    × IsUsed h' free' i k
    × (block_at h' i k ≡ a)
    × (kfree a h' ≡ done (page, h''))
    × IsFreeing i k h' free' h'' free'' page
    × Keeps h free h'' free''

goes_back :
    (prpage sz a : ℕ) (h h₁ : Heap) (free free' : ℕ → List ℕ) (result : Option ℕ)
    → Valid h free
    → result ≡ some a
    → IsAllocation prpage sz h free h₁ free' result
    → IsReturned a h free h₁
unfolding kfree
goes_back prpage sz a h h₁ free free' none v er is = absurd ground (arith, er)
goes_back prpage sz a h h₁ free free' (some b) v er is =
    let (h'', free'', page, freed, f) =
      subpage_kfree_lem is.answer.page is.answer.block h₁ free' is.valid is.answer.now in
    let at : block_at h₁ is.answer.page is.answer.block ≡ a =
      sym is.answer.at ∙ ground (arith, er) in
    let freed' : subpage_kfree a h₁ ≡ done (true, page, h'') =
      sym (ap (λ p. subpage_kfree p h₁) at) ∙ freed in
    let positive : 0 < a =
      omega (arith, at, (is.valid.pages is.answer.page is.answer.now.listed).placed) in
    (
      free',
      is.answer.page,
      is.answer.block,
      h'',
      free'',
      page,
      is.valid,
      is.answer.now,
      at,
      ground (arith, freed', positive),
      f,
      λ i k u.
          let (u', at', sized) = is.kept i k u in
          let (u'', at'', sized') =
            f.kept i k u' (given-other prpage sz b i k h h₁ free free' is u) in
          (u'', at'' ∙ at', sized' ∙ sized),
    )

-- A block that kmalloc gives for less than 2048 bytes goes back by kfree, from the invariant and with
-- what alloc_kpages gives for a page either no memory or a whole page that the heap does not have: the
-- block is in use after kmalloc and no more after kfree, which ends and keeps the invariant. Every
-- block that was in use before both is in use and where it was, and a page of which the block was the
-- only one in use goes back whole.
pub kfree-kmalloc :
    (grant : ℕ → ℕ) (sz a : ℕ) (h h' : Heap) (free : ℕ → List ℕ)
    → Valid h free
    → sz < 2048
    → (grant 1 ≡ 0) ⊎ IsGranted h (grant 1)
    → kmalloc grant sz h ≡ done (some a, h')
    → IsReturned a h free h'
unfolding kmalloc
kfree-kmalloc grant sz a h h' free v l granted e =
    let (h₁, free', result, run, is) =
      subpage_kmalloc_lem (grant 1) sz h free v (omega (arith, l)) granted in
    let run' : subpage_kmalloc (grant 1) sz h ≡ done (some a, h') = ground (arith, e, l) in
    let both : (result, h₁) ≡ (some a, h') =
      done-injective (result, h₁) (some a, h') (sym run ∙ run') in
    subst (IsReturned a h free) (ap (λ x. x.1) both)
      (goes_back (grant 1) sz a h h₁ free free' result v (ap (λ x. x.0) both) is)
