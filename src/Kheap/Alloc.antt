-- ===== src/Kheap/Alloc.antt =====
-- kern/lib/kheap.c: subpage_kmalloc.
use ece344_operating_systems.Base.{
  ℕ, ◌/◌, ◌%◌, ◌≤◌, ◌<◌, ◌≡◌, ◌≢◌, ◌⊎◌, refl, ap, sym, ◌∙◌, inl, inr, true, false, Option, none,
  some, List, [], ◌∷◌, length, member, member-tail, arith, ℕ_discrete, dec_lt, done, subst,
}
use ece344_operating_systems.Kheap.{page_addr, block_type, Heap, find_free, doalloc}
use ece344_operating_systems.Kheap.Page.{
  blocks, size-Cut, block-le, block-apart, IsPage, doalloc_lem,
}
use ece344_operating_systems.Kheap.Invariant.{
  Valid, IsUsed, block_at, block_size, Disjoint, pages-Disjoint, blocks-Disjoint, block-fit,
}
use ece344_operating_systems.Kheap.Update.{
  changed, with_free, changed-Valid, changed-IsUsed, changed-block,
}

pub find_free_lem :
    (t : ℕ) (ids : List ℕ) (h : Heap)
    → ((i : ℕ) → member i ids ≡ true → block_type (h.pagerefs i) ≡ t)
    → (find_free t ids h ≡ done none)
      ⊎ ((p : ℕ) × (member p ids ≡ true)
          × (0 < (h.pagerefs p).nfree)
          × (find_free t ids h ≡ done (some p)))
unfolding find_free
find_free_lem t [] h typed = inl refl
find_free_lem t (q ∷ rest) h typed =
    let here : block_type (h.pagerefs q) ≡ t = typed q ground arith in
    elim (dec_lt 0 (h.pagerefs q).nfree) [
      | yes l ↦ inr (q, ground arith, l, ground (arith, here, l))
      | no ge ↦ elim (find_free_lem t rest h (λ i m. typed i ground (arith, m))) [
        | inl run ↦ inl ground (arith, here, ge, run)
        | inr (p, m, l, run) ↦ inr (p, ground (arith, m), l, ground (arith, here, ge, run))
      ]
    ]

-- Different blocks have no byte in common.
pub used-Disjoint :
    (h : Heap) (free : ℕ → List ℕ) (i l p k : ℕ)
    → Valid h free
    → IsUsed h free i l
    → member p h.allbase ≡ true
    → k < blocks (block_type (h.pagerefs p))
    → (i ≢ p) ⊎ ((i ≡ p) × (l ≢ k))
    → Disjoint (block_at h i l) (block_size h i) (block_at h p k) (block_size h p)
used-Disjoint h free i l p k v u m b (inl ne) =
    let c = size-Cut (block_type (h.pagerefs p)) (v.pages p m).typed in
    blocks-Disjoint (page_addr (h.pagerefs i)) (page_addr (h.pagerefs p)) l (block_size h i) k
      (block_size h p) (block-fit h free i l v u) (block-le c k b)
      (pages-Disjoint (h.pagerefs i) (h.pagerefs p) (v.apart i p u.listed m ne))
used-Disjoint h free i l p k v u m b (inr (e, ne)) =
    subst (λ q. Disjoint (block_at h i l) (block_size h i) (block_at h q k) (block_size h q)) e
      (same (dec_lt l k))
  where
    same :
        Dec (l < k) → Disjoint (block_at h i l) (block_size h i) (block_at h i k) (block_size h i)
    same (yes lt) = inl (omega (arith, block-apart (block_size h i) l k lt))
    same (no ge) = inr (omega (arith, block-apart (block_size h i) k l (omega (arith, ge, ne))))

-- The block at `a` is handed out for `sz` bytes, between the heaps `h` and `h'`.
pub record IsGiven (h : Heap) (free : ℕ → List ℕ) (h' : Heap) (free' : ℕ → List ℕ) (sz a : ℕ)
    : Type 0 where
  pub page : ℕ
  pub block : ℕ
  pub at : a ≡ block_at h' page block
  pub room : sz ≤ block_size h' page
  pub now : IsUsed h' free' page block
  pub clear :
      (i k : ℕ)
      → IsUsed h free i k
      → Disjoint (block_at h i k) (block_size h i) a (block_size h' page)

-- The blocks in use in `h` are in use in `h'` and have not moved.
abbrev pub Keeps : Heap → (ℕ → List ℕ) → Heap → (ℕ → List ℕ) → Type 0
Keeps h free h' free' =
    (i k : ℕ)
    → IsUsed h free i k
    → IsUsed h' free' i k × (block_at h' i k ≡ block_at h i k) × (block_size h' i ≡ block_size h i)

abbrev pub Answers : ℕ → ℕ → Heap → (ℕ → List ℕ) → Heap → (ℕ → List ℕ) → Option ℕ → Type 0
Answers prpage sz h free h' free' none =
    (prpage ≡ 0) ⊎ ((p : ℕ) → p < 256 → h.inuse (p / 32) (p % 32) ≡ true)
Answers prpage sz h free h' free' (some a) = IsGiven h free h' free' sz a

-- What subpage_kmalloc leaves, and what it answers.
pub record IsAllocation (prpage sz : ℕ) (h : Heap) (free : ℕ → List ℕ) (h' : Heap)
    (free' : ℕ → List ℕ) (result : Option ℕ) : Type 0 where
  pub valid : Valid h' free'
  pub answer : Answers prpage sz h free h' free' result
  pub kept : Keeps h free h' free'

doalloc-Valid :
    (prpage p k sz : ℕ) (ks : List ℕ) (h : Heap) (free : ℕ → List ℕ)
    → Valid h free
    → member p h.allbase ≡ true
    → free p ≡ k ∷ ks
    → sz ≤ block_size h p
    → (h' : Heap) × (doalloc p h ≡ done (some (block_at h p k), h'))
      × IsAllocation prpage sz h free h' (with_free p ks free) (some (block_at h p k))
doalloc-Valid prpage p k sz ks h free v m e room =
    let (pr', run, same, page') = doalloc_lem p k ks h page in
    let (at, sized, typed) = changed-block p pr' h.next h p k same in
    (
      changed p pr' h.next h,
      run,
      record {
        valid = changed-Valid p pr' h.next ks h free v same page' (λ i m' ne. v.pages i m');
        answer = record {
          page = p;
          block = k;
          at = sym at;
          room = omega (arith, room, sized);
          now = record {
            listed = m;
            below = subst (λ t. k < blocks t) (sym typed) page.linked.1;
            taken = ground (arith, page.distinct.0);
          };
          clear = λ i l u.
              subst (λ n. Disjoint (block_at h i l) (block_size h i) (block_at h p k) n) (sym sized)
                (used-Disjoint h free i l p k v u m page.linked.1 (differ i l u));
        };
        kept = λ i l u.
            let (at, sized, typed) = changed-block p pr' h.next h i l same in
            (changed-IsUsed p pr' h.next ks h free i l same u (λ e'. gone i l u e'), at, sized);
      },
    )
  where
    page : IsPage h.next (h.pagerefs p) (k ∷ ks)
    page = subst (λ l. IsPage h.next (h.pagerefs p) l) e (v.pages p m)

    differ : (i l : ℕ) → IsUsed h free i l → (i ≢ p) ⊎ ((i ≡ p) × (l ≢ k))
    differ i l u = elim (ℕ_discrete i p) [
      | no ne ↦ inl ne
      | yes at ↦ inr (at, λ same. ground (arith, u.taken, ap (member l) (ap free at ∙ e), same))
    ]

    gone : (i l : ℕ) → IsUsed h free i l → i ≡ p → member l ks ≡ false
    gone i l u at = member-tail l k ks (sym (ap (member l) (ap free at ∙ e)) ∙ u.taken)

-- A page of the heap with free blocks serves the request.
pub serve_from :
    (prpage p sz : ℕ) (h : Heap) (free : ℕ → List ℕ)
    → Valid h free
    → member p h.allbase ≡ true
    → sz ≤ block_size h p
    → 0 < (h.pagerefs p).nfree
    → (h' : Heap) × (free' : ℕ → List ℕ) × (a : ℕ) × (doalloc p h ≡ done (some a, h'))
      × IsAllocation prpage sz h free h' free' (some a)
serve_from prpage p sz h free v m room some_free = from (free p) refl
  where
    from :
        (l : List ℕ)
        → free p ≡ l
        → (h' : Heap) × (free' : ℕ → List ℕ) × (a : ℕ) × (doalloc p h ≡ done (some a, h'))
          × IsAllocation prpage sz h free h' free' (some a)
    from [] e = absurd (omega (arith, (v.pages p m).counted, ap length e, some_free))
    from (k ∷ ks) e =
        let (h', run, is) = doalloc-Valid prpage p k sz ks h free v m e room in
        (h', with_free p ks free, block_at h p k, run, is)
