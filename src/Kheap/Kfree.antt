-- ===== src/Kheap/Kfree.antt =====
-- kern/lib/kheap.c: a block that is in use goes to subpage_kfree.
use ece344_operating_systems.Base.{
  ℕ, suc, ◌+◌, ◌-◌, ◌*◌, ◌/◌, ◌%◌, ◌≤◌, ◌<◌, ◌≡◌, ◌≢◌, ◌⊎◌, refl, ap, ap₂, sym, ◌∙◌, inl, inr, true,
  false, Option, none, some, List, ◌∷◌, length, member, arith, ◌==◌, if◌then◌else◌, ℕ_discrete,
  done, subst,
}
use ece344_operating_systems.Kheap.{
  Pageref, page_addr, block_type, Heap, unlink, find_page, free_in, subpage_kfree,
}
use ece344_operating_systems.Kheap.Page.{blocks, Cut, size-Cut, block-le, blocks-le, head, IsPage}
use ece344_operating_systems.Kheap.Push.{freed, length-lt, pushed, pushed-IsPage}
use ece344_operating_systems.Kheap.Count.{length-missing}
use ece344_operating_systems.Kheap.Table.{freepageref_lem}
use ece344_operating_systems.Kheap.Invariant.{
  Valid, IsUsed, block_at, block_size, Disjoint, pages-Disjoint, unlink-member,
}
use ece344_operating_systems.Kheap.Update.{changed, with_free, changed-IsUsed, changed-block}
use ece344_operating_systems.Kheap.Free.{
  removed, pushed_in, removed-Valid, remove_lists_lem, pushed_in-Valid, find_page_lem,
}

-- What subpage_kfree leaves when it frees block `k` of page `i`: the block is not in use, the others
-- are and have not moved; the page stays when another of its blocks is in use, and goes to free_kpages
-- when the block was the only one in use.
pub record IsFreeing (i k : ℕ) (h : Heap) (free : ℕ → List ℕ) (h' : Heap) (free' : ℕ → List ℕ)
    (result : Option ℕ) : Type 0 where
  pub valid : Valid h' free'
  pub gone : ¬ IsUsed h' free' i k
  pub kept :
      (j l : ℕ)
      → IsUsed h free j l
      → (j ≢ i) ⊎ (l ≢ k)
      → IsUsed h' free' j l
        × (block_at h' j l ≡ block_at h j l)
        × (block_size h' j ≡ block_size h j)
  pub page :
      ((result ≡ none) × (member i h'.allbase ≡ true) × ((l : ℕ) × IsUsed h' free' i l))
      ⊎ ((result ≡ some (page_addr (h.pagerefs i)))
          × (member i h'.allbase ≡ false)
          × ((l : ℕ) → IsUsed h free i l → l ≡ k))

multiple : (k s : ℕ) → 0 < s → (k * s) % s ≡ 0
multiple k s pos = grind (arith, pos)

-- The other blocks stay in use when a block is put on the free list.
pushed_in-IsUsed :
    (i k j l : ℕ) (h : Heap) (free : ℕ → List ℕ)
    → IsUsed h free j l
    → (j ≢ i) ⊎ (l ≢ k)
    → IsUsed (pushed_in i k h) (with_free i (k ∷ free i) free) j l
pushed_in-IsUsed i k j l h free u other =
    changed-IsUsed i (pushed (k * block_size h i) (h.pagerefs i))
      (freed (block_at h i k) (block_size h i) (head (h.pagerefs i)) h.next) (k ∷ free i) h free j l
      refl u (λ e. out e other)
  where
    out : j ≡ i → (j ≢ i) ⊎ (l ≢ k) → member l (k ∷ free i) ≡ false
    out e (inl ne) = absurd (ne e)
    out e (inr ne) = ground (arith, ne, u.taken, ap (λ x. member l (free x)) e)

-- A page all of whose blocks are free has no other block in use.
whole-unused :
    (i k j l : ℕ) (h : Heap) (free : ℕ → List ℕ)
    → Valid h free
    → IsUsed h free i k
    → suc (length (free i)) ≡ blocks (block_type (h.pagerefs i))
    → IsUsed h free j l
    → (j ≢ i) ⊎ (l ≢ k)
    → j ≢ i
whole-unused i k j l h free v u full u' (inl ne) e = ne e
whole-unused i k j l h free v u full u' (inr ne) e = absurd (omega (arith, room, full))
  where
    page : IsPage (pushed_in i k h).next (pushed (k * block_size h i) (h.pagerefs i)) (k ∷ free i)
    page = pushed-IsPage h.next (h.pagerefs i) k (free i) (v.pages i u.listed) u.below u.taken

    below : l < blocks (block_type (h.pagerefs i))
    below = subst (λ x. l < blocks (block_type (h.pagerefs x))) e u'.below

    room : suc (length (free i)) < blocks (block_type (h.pagerefs i))
    room =
        length-lt (pushed_in i k h).next (page_addr (h.pagerefs i)) (block_size h i)
          (blocks (block_type (h.pagerefs i))) (head (pushed (k * block_size h i) (h.pagerefs i))) l
          (k ∷ free i) page.linked page.distinct below ground
          (arith, ne, u'.taken, ap (λ x. member l (free x)) e)

-- What free_in leaves, with the offset as it computes it.
free_in_at :
    (i ptr : ℕ) (h : Heap)
    → block_type (h.pagerefs i) < 8
    → ptr - page_addr (h.pagerefs i) < 4096
    → (ptr - page_addr (h.pagerefs i)) % block_size h i ≡ 0
    → (h.pagerefs i).nfree < blocks (block_type (h.pagerefs i))
    → blocks (block_type (h.pagerefs i)) ≤ 256
    → (i < 256) × (h.inuse (i / 32) (i % 32) ≡ true)
    → let h₁ =
        changed i
          (pushed (ptr - page_addr (h.pagerefs i)) (h.pagerefs i))
          (freed ptr (block_size h i) (head (h.pagerefs i)) h.next)
          h in
      free_in ptr i h ≡ (
        if suc (h.pagerefs i).nfree == blocks (block_type (h.pagerefs i))
        then done (some (page_addr (h.pagerefs i)), removed i (block_type (h.pagerefs i)) h₁)
        else done (none, h₁))
unfolding free_in
free_in_at i ptr h typed within aligned few small (low, marked) =
    let h₁ =
      changed i (pushed (ptr - page_addr (h.pagerefs i)) (h.pagerefs i))
        (freed ptr (block_size h i) (head (h.pagerefs i)) h.next) h in
    let lists = remove_lists_lem i (block_type (h.pagerefs i)) h₁ typed in
    let given_back =
      freepageref_lem i
        (record h₁ {
          sizebases = λ u.
              if u == block_type (h.pagerefs i) then unlink i (h.sizebases u) else h.sizebases u;
          allbase = unlink i h.allbase;
        })
        low marked in
    ground (arith, typed, within, aligned, few, small, lists, given_back)

free_in_lem :
    (i k : ℕ) (h : Heap) (free : ℕ → List ℕ)
    → Valid h free
    → IsUsed h free i k
    → free_in (block_at h i k) i h ≡ (
        if suc (length (free i)) == blocks (block_type (h.pagerefs i))
        then done (
          some (page_addr (h.pagerefs i)),
          removed i (block_type (h.pagerefs i)) (pushed_in i k h),
        )
        else done (none, pushed_in i k h))
unfolding free_in
free_in_lem i k h free v u =
    let pr = h.pagerefs i in
    let page = v.pages i u.listed in
    let n = blocks (block_type pr) in
    let c = size-Cut (block_type pr) page.typed in
    let offset : block_at h i k - page_addr pr ≡ k * block_size h i = omega arith in
    let fit : k * block_size h i + block_size h i ≤ 4096 = block-le c k u.below in
    let room : length (free i) < n =
      length-lt h.next (page_addr pr) (block_size h i) n (head pr) k (free i) page.linked
        page.distinct u.below u.taken in
    let run =
      free_in_at i (block_at h i k) h page.typed (omega (arith, offset, fit, c.least))
        (ap (λ o. o % block_size h i) offset ∙ multiple k (block_size h i) (omega (arith, c.least)))
        (omega (arith, room, page.counted)) (blocks-le c) (v.known i u.listed) in
    run
    ∙ ap₂
        (λ m o.
          let h₁ =
            changed i (pushed o pr) (freed (block_at h i k) (block_size h i) (head pr) h.next) h in
          if suc m == n
          then done (some (page_addr pr), removed i (block_type pr) h₁)
          else done (none, h₁))
        page.counted offset

-- From the invariant, subpage_kfree frees every block that is in use: it ends, finds the block's
-- page and keeps the invariant. The block is not in use afterwards, the other blocks in use still
-- are and have not moved; the page goes to free_kpages and leaves the heap when the block was the
-- last of its page in use, and else stays with another block in use.
pub subpage_kfree_lem :
    (i k : ℕ) (h : Heap) (free : ℕ → List ℕ)
    → Valid h free
    → IsUsed h free i k
    → (h' : Heap) × (free' : ℕ → List ℕ) × (result : Option ℕ) × (subpage_kfree (block_at h i k) h
        ≡ done (true, result, h'))
      × IsFreeing i k h free h' free' result
unfolding subpage_kfree
subpage_kfree_lem i k h free v u =
    let found : find_page (block_at h i k) h.allbase h ≡ done (some i) =
      find_page_lem (block_at h i k) i h.allbase h u.listed
        (λ j m. ((v.pages j m).typed, (v.pages j m).inside)) omega arith
        (omega (arith, fit, c.least))
        (λ j m ne.
          outside (h.pagerefs j)
            (pages-Disjoint (h.pagerefs j) (h.pagerefs i) (v.apart j i m u.listed ne))) in
    let run = free_in_lem i k h free v u in
    elim (ℕ_discrete (suc (length (free i))) (blocks (block_type (h.pagerefs i)))) [
      | no ne ↦ (
        pushed_in i k h,
        free',
        none,
        ground (arith, found, run, ne),
        record {
          valid = v';
          gone = λ u'. used_again u'.taken;
          kept = λ j l w other.
              let (at, sized, t) = block j l in
              (pushed_in-IsUsed i k j l h free w other, at, sized);
          page = inl (refl, u.listed, used_still ne);
        },
      )
      | yes full ↦ (
        removed i (block_type (h.pagerefs i)) (pushed_in i k h),
        free',
        some (page_addr (h.pagerefs i)),
        ground (arith, found, run, full),
        record {
          valid = removed-Valid i (block_type (h.pagerefs i)) (pushed_in i k h) free' v' typed;
          gone = λ u'. used_again u'.taken;
          kept =
              λ j l w other. let (at, sized, t) = block j l in (stays j l w other full, at, sized);
          page = inr (refl, out, alone full);
        },
      )
    ]
  where
    free' : ℕ → List ℕ
    free' = with_free i (k ∷ free i) free

    v' : Valid (pushed_in i k h) free'
    v' = pushed_in-Valid i k h free v u

    c : Cut (block_size h i) (blocks (block_type (h.pagerefs i)))
    c = size-Cut (block_type (h.pagerefs i)) (v.pages i u.listed).typed

    fit : k * block_size h i + block_size h i ≤ 4096
    fit = block-le c k u.below

    typed : block_type ((pushed_in i k h).pagerefs i) ≡ block_type (h.pagerefs i)
    typed =
        (changed-block i (pushed (k * block_size h i) (h.pagerefs i)) (pushed_in i k h).next h i k
          refl).2

    outside :
        (r : Pageref)
        → Disjoint (page_addr r) 4096 (page_addr (h.pagerefs i)) 4096
        → (block_at h i k < page_addr r) ⊎ (page_addr r + 4096 ≤ block_at h i k)
    outside r (inl before) = inr (omega (arith, before))
    outside r (inr after) = inl (omega (arith, after, fit, c.least))

    used_again : ¬ (member k (free' i) ≡ false)
    used_again e = ground (arith, e)

    block :
        (j l : ℕ)
        → (block_at (pushed_in i k h) j l ≡ block_at h j l)
          × (block_size (pushed_in i k h) j ≡ block_size h j)
          × (block_type ((pushed_in i k h).pagerefs j) ≡ block_type (h.pagerefs j))
    block j l =
        changed-block i (pushed (k * block_size h i) (h.pagerefs i)) (pushed_in i k h).next h j l
          refl

    out : member i (unlink i h.allbase) ≡ false
    out = ground (arith, unlink-member i i h.allbase v.once)

    stays :
        (j l : ℕ)
        → IsUsed h free j l
        → (j ≢ i) ⊎ (l ≢ k)
        → suc (length (free i)) ≡ blocks (block_type (h.pagerefs i))
        → IsUsed (removed i (block_type (h.pagerefs i)) (pushed_in i k h)) free' j l
    stays j l w other full =
        let ne : j ≢ i = whole-unused i k j l h free v u full w other in
        let w' = pushed_in-IsUsed i k j l h free w other in
        record {
          listed = unlink-member i j h.allbase v.once ∙ ground (arith, w.listed, ne);
          below = w'.below;
          taken = w'.taken;
        }

    used_still :
        suc (length (free i)) ≢ blocks (block_type (h.pagerefs i))
        → (l : ℕ) × IsUsed (pushed_in i k h) free' i l
    used_still ne =
        let room : length (free i) < blocks (block_type (h.pagerefs i)) =
          length-lt h.next (page_addr (h.pagerefs i)) (block_size h i)
            (blocks (block_type (h.pagerefs i))) (head (h.pagerefs i)) k (free i)
            (v.pages i u.listed).linked (v.pages i u.listed).distinct u.below u.taken in
        let (l, lt, away) =
          length-missing (blocks (block_type (h.pagerefs i))) (k ∷ free i)
            (omega (arith, room, ne)) in
        (
          l,
          record {
            listed = u.listed;
            below = subst (λ t. l < blocks t) (sym typed) lt;
            taken = ground (arith, away);
          },
        )

    alone :
        suc (length (free i)) ≡ blocks (block_type (h.pagerefs i))
        → (l : ℕ) → IsUsed h free i l
        → l ≡ k
    alone full l w = elim (ℕ_discrete l k) [
      | yes e ↦ e
      | no ne ↦ absurd (whole-unused i k i l h free v u full w (inr ne) refl)
    ]
