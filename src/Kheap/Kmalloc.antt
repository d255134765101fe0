-- ===== src/Kheap/Kmalloc.antt =====
-- kern/lib/kheap.c: subpage_kmalloc, with a page that is already in the heap and with a fresh one.
use ece344_operating_systems.Base.{
  ℕ, ◌+◌, ◌*◌, ◌/◌, ◌%◌, ◌≤◌, ◌<◌, ◌≡◌, ◌≢◌, ◌⊎◌, refl, ap, sym, ◌∙◌, inl, inr, true, false, Option,
  none, some, List, member, arith, ◌==◌, if◌then◌else◌, ℕ_discrete, dec_lt, done, Run, subst, ◌>>=◌,
}
use ece344_operating_systems.Kheap.{
  size, Pageref, page_addr, block_type, Heap, set_inuse, allocpageref, freepageref, doalloc,
  new_page, subpage_kmalloc,
}
use ece344_operating_systems.Kheap.Page.{blocks, size-Cut, IsPage}
use ece344_operating_systems.Kheap.Push.{IsPage-cong}
use ece344_operating_systems.Kheap.Fresh.{down, fresh_page, added, fresh_page-type, new_page_lem}
use ece344_operating_systems.Kheap.Table.{
  IsSizeOf, blocktype_lem, allocpageref_lem, freepageref_lem,
}
use ece344_operating_systems.Kheap.Invariant.{
  of_type-member, Valid, IsUsed, block_at, block_size, Disjoint,
}
use ece344_operating_systems.Kheap.Update.{
  with_free, IsGranted, marked-Valid, added-Valid, unlisted,
}
use ece344_operating_systems.Kheap.Alloc.{find_free_lem, Keeps, IsAllocation, serve_from}

-- What is handed out of a heap that keeps the blocks of another.
IsAllocation-after :
    (prpage sz a : ℕ) (h h₁ h' : Heap) (free free₁ free' : ℕ → List ℕ)
    → Keeps h free h₁ free₁
    → IsAllocation prpage sz h₁ free₁ h' free' (some a)
    → IsAllocation prpage sz h free h' free' (some a)
IsAllocation-after prpage sz a h h₁ h' free free₁ free' keeps is = record {
  valid = is.valid;
  answer = record {
    page = is.answer.page;
    block = is.answer.block;
    at = is.answer.at;
    room = is.answer.room;
    now = is.answer.now;
    clear = λ i k u.
        let (u', at, sized) = keeps i k u in
        subst (λ b. Disjoint b (block_size h i) a (block_size h' is.answer.page)) at
          (subst (λ n. Disjoint (block_at h₁ i k) n a (block_size h' is.answer.page)) sized
            (is.answer.clear i k u'));
  };
  kept = λ i k u.
      let (u', at, sized) = keeps i k u in
      let (u'', at', sized') = is.kept i k u' in (u'', at' ∙ at, sized' ∙ sized);
}

-- The fresh page, added to the heap.
added-lem :
    (p prpage t : ℕ) (h : Heap) (free : ℕ → List ℕ)
    → Valid h free
    → p < 256
    → h.inuse (p / 32) (p % 32) ≡ false
    → t < 8
    → IsGranted h prpage
    → (next : ℕ → ℕ) × (new_page p prpage t (set_inuse (p / 32) (p % 32) true h)
        ≡ done (added p prpage t next (set_inuse (p / 32) (p % 32) true h)))
      × Valid
          (added p prpage t next (set_inuse (p / 32) (p % 32) true h))
          (with_free p (down (blocks t)) free)
      × Keeps h free
          (added p prpage t next (set_inuse (p / 32) (p % 32) true h))
          (with_free p (down (blocks t)) free)
added-lem p prpage t h free v small clear l g =
    let h₁ = set_inuse (p / 32) (p % 32) true h in
    let (next, run, page, outside) = new_page_lem p prpage t h₁ l g.aligned g.positive g.inside in
    let out = unlisted p h free v clear in
    let g' : IsGranted h₁ prpage = record {
      aligned = g.aligned;
      positive = g.positive;
      inside = g.inside;
      new = g.new;
    } in
    let others : (i : ℕ) → member i h.allbase ≡ true → IsPage next (h.pagerefs i) (free i) = λ i m.
      IsPage-cong h.next next (h.pagerefs i) (free i)
        (λ a lo hi. outside a (apart (h.pagerefs i) a (g.new i m) lo hi)) (v.pages i m) in
    let keeps : (i k : ℕ)
        → IsUsed h free i k
        → i ≢ p
        → IsUsed (added p prpage t next h₁) (with_free p (down (blocks t)) free) i k
          × (block_at (added p prpage t next h₁) i k ≡ block_at h i k)
          × (block_size (added p prpage t next h₁) i ≡ block_size h i) =
      λ i k u ne.
        let same : (added p prpage t next h₁).pagerefs i ≡ h.pagerefs i = ground (arith, ne) in
        (
          record {
            listed = ground (arith, u.listed);
            below = subst (λ r. k < blocks (block_type r)) (sym same) u.below;
            taken = ground (arith, u.taken, ne);
          },
          ap (λ r. page_addr r + k * size (block_type r)) same,
          ap (λ r. size (block_type r)) same,
        ) in
    (
      next,
      run,
      added-Valid p prpage t next h₁ free (marked-Valid p true h free v (inl refl)) small ground
          arith out l g' page others,
      λ i k u. keeps i k u (never i u.listed),
    )
  where
    never : (i : ℕ) → member i h.allbase ≡ true → i ≢ p
    never i m e = ground (arith, m, unlisted p h free v clear, ap (λ x. member x h.allbase) e)

    apart :
        (r : Pageref) (a : ℕ)
        → page_addr r ≢ prpage
        → page_addr r ≤ a
        → a < page_addr r + 4096
        → (a < prpage) ⊎ (prpage + 4096 ≤ a)
    apart r a ne lo hi = elim (dec_lt a prpage) [
      | yes lt ↦ inl lt
      | no ge ↦ inr (omega (arith, ge, ne, lo, hi, g.aligned))
    ]

-- From the invariant, for up to 2048 bytes and with what alloc_kpages gives either no memory or the
-- address of a whole page that no page of the heap has, subpage_kmalloc ends, keeps the invariant
-- and every block in use where it is. It answers with a block that holds the bytes, is in use
-- afterwards and has no byte in common with a block in use before, and it answers none
-- only when alloc_kpages gave none or every pageref was in use.
pub subpage_kmalloc_lem :
    (prpage sz : ℕ) (h : Heap) (free : ℕ → List ℕ)
    → Valid h free
    → sz ≤ 2048
    → (prpage ≡ 0) ⊎ IsGranted h prpage
    → (h' : Heap) × (free' : ℕ → List ℕ) × (result : Option ℕ) × (subpage_kmalloc prpage sz h
        ≡ done (result, h'))
      × IsAllocation prpage sz h free h' free' result
unfolding subpage_kmalloc
subpage_kmalloc_lem prpage sz h free v l grant =
    let (t, run, size_of) = blocktype_lem sz l in
    let typed : (i : ℕ)
        → member i (h.sizebases t) ≡ true
        → (member i h.allbase ≡ true) × (block_type (h.pagerefs i) ≡ t) =
      λ i m.
        of_type-member h.pagerefs t i h.allbase
          (subst (λ ids. member i ids ≡ true) (v.sized t) m) in
    elim (find_free_lem t (h.sizebases t) h (λ i m. (typed i m).1)) [
      | inr (p, m, some_free, found) ↦
          let (inside, at) = typed p m in
          let (h', free', a, got, is) =
            serve_from prpage p sz h free v inside (omega (arith, size_of.fits, ap size at))
              some_free in
          (h', free', some a, ground (arith, run, found, got), is)
      | inl none_free ↦
          let (h', free', result, got, is) = fresh t size_of (allocpageref_lem h) in
          (h', free', result, ground (arith, run, none_free, got), is)
    ]
  where
    unmarked : ℕ → Heap
    unmarked p = set_inuse (p / 32) (p % 32) false (set_inuse (p / 32) (p % 32) true h)

    made : ℕ → Run (Option ℕ × Heap)
    made t = do
      (fresh, h₁) ← allocpageref h
      elim fresh [
        | none ↦ done (none, h₁)
        | some p ↦
            if prpage == 0
            then (do h₂ ← freepageref p h₁; done (none, h₂))
            else (do h₂ ← new_page p prpage t h₁; doalloc p h₂)
      ]

    fresh :
        (t : ℕ)
        → IsSizeOf t sz
        → ((allocpageref h ≡ done (none, h))
            × ((p : ℕ) → p < 256 → h.inuse (p / 32) (p % 32) ≡ true))
          ⊎ ((p : ℕ) × (p < 256)
              × (h.inuse (p / 32) (p % 32) ≡ false)
              × (allocpageref h ≡ done (some p, set_inuse (p / 32) (p % 32) true h)))
        → (h' : Heap) × (free' : ℕ → List ℕ) × (result : Option ℕ) × (made t ≡ done (result, h'))
          × IsAllocation prpage sz h free h' free' result
    fresh t size_of (inl (run, all)) = (
      h,
      free,
      none,
      ground (arith, run),
      record { valid = v; answer = inr all; kept = λ i k u. (u, refl, refl) },
    )
    fresh t size_of (inr (p, small, clear, run)) = elim (ℕ_discrete prpage 0) [
      | yes zero_page ↦
          let freed : freepageref p (set_inuse (p / 32) (p % 32) true h) ≡ done (unmarked p) =
            freepageref_lem p (set_inuse (p / 32) (p % 32) true h) small ground arith in
          let out = unlisted p h free v clear in
          (
            unmarked p,
            free,
            none,
            ground (arith, run, zero_page, freed),
            record {
              valid =
                  marked-Valid p false (set_inuse (p / 32) (p % 32) true h) free
                    (marked-Valid p true h free v (inl refl)) (inr out);
              answer = inl zero_page;
              kept = λ i k u.
                  (record { listed = u.listed; below = u.below; taken = u.taken }, refl, refl);
            },
          )
      | no ne ↦
          let g : IsGranted h prpage = elim grant [ inl z ↦ absurd (ne z) | inr g ↦ g ] in
          let (next, run', v', keeps) = added-lem p prpage t h free v small clear size_of.type g in
          let h₂ = added p prpage t next (set_inuse (p / 32) (p % 32) true h) in
          let at : h₂.pagerefs p ≡ fresh_page prpage t = ground arith in
          let size_at : block_size h₂ p ≡ size t =
            ap (λ r. size (block_type r)) at
            ∙ ap size (fresh_page-type prpage t size_of.type g.aligned) in
          let some_free : 0 < (h₂.pagerefs p).nfree =
            omega (arith, ap (λ r. r.nfree) at, (size-Cut t size_of.type).some_blocks) in
          let (h', free', a, got, is) =
            serve_from prpage p sz h₂ (with_free p (down (blocks t)) free) v' ground arith
              (omega (arith, size_of.fits, size_at)) some_free in
          (
            h',
            free',
            some a,
            ground (arith, run, ne, run', got),
            IsAllocation-after prpage sz a h h₂ h' free (with_free p (down (blocks t)) free) free'
                keeps is,
          )
    ]
