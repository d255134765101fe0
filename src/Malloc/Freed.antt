-- ===== src/Malloc/Freed.antt =====
-- lib/libc/malloc.c: the list of blocks after a free, and free as a whole.
use ece344_operating_systems.Base.{
  ℕ, zero, suc, ◌+◌, ◌-◌, ◌*◌, ◌≤◌, ◌<◌, ◌≡◌, ◌≢◌, ◌⊎◌, refl, ap, sym, ◌∙◌, subst, inl, inr, true,
  false, Bool-cases, some, List, [], ◌∷◌, arith, done, panic,
}
use ece344_operating_systems.Malloc.{Mheader, UserHeap, free}
use ece344_operating_systems.Malloc.Blocks.{
  Block, header_of, Chain, Coalesced, Coalesced-tail, Coalesced-used, Stands, IsHeap,
}
use ece344_operating_systems.Malloc.Merge.{joined}
use ece344_operating_systems.Malloc.Free.{free_next, freed, place, address, release_lem}

-- Behind a free block there is a block in use, so that a longer free block may take its place.
longer-Coalesced :
    (c e : Block) (cs : List Block) → c.used ≡ false → Coalesced (c ∷ cs) → Coalesced (e ∷ cs)
longer-Coalesced c e [] unused co = tt
longer-Coalesced c e (d ∷ ds) unused (inl used, co) = absurd ground (arith, unused, used)
longer-Coalesced c e (d ∷ ds) unused (inr used, co) = (inr used, co)

free_next-Coalesced :
    (n : ℕ) (bs : List Block)
    → Coalesced bs
    → (c : Block) × (cs : List Block) × (free_next n bs ≡ c ∷ cs)
      × (c.used ≡ false)
      × Coalesced (c ∷ cs)
unfolding free_next joined
free_next-Coalesced n [] co = (record { units = n; used = false }, [], refl, refl, tt)
free_next-Coalesced n (d ∷ ds) co = elim (Bool-cases d.used) [
  | inl y ↦ (record { units = n; used = false }, d ∷ ds, ground (arith, y), refl, (inr y, co))
  | inr x ↦ (
    record { units = n + d.units; used = false },
    ds,
    ground (arith, x),
    refl,
    longer-Coalesced d (record { units = n + d.units; used = false }) ds x co,
  )
]

joined-Coalesced :
    (q p c : Block) (cs : List Block)
    → (q.used ≡ true) ⊎ (p.used ≡ true)
    → c.used ≡ false
    → Coalesced (c ∷ cs)
    → Coalesced (q ∷ joined p c cs)
unfolding joined
joined-Coalesced q p c cs either unused co = elim (Bool-cases p.used) [
  | inl y ↦
      let e : p ∷ c ∷ cs ≡ joined p c cs = ground (arith, y) in
      subst (λ l. Coalesced (q ∷ l)) e (either, (inl y, co))
  | inr x ↦
      let m : Block = record { units = p.units + c.units; used = false } in
      let e : m ∷ cs ≡ joined p c cs = ground (arith, x, unused) in
      let front : q.used ≡ true = elim either [ inl y ↦ y | inr y ↦ ground (arith, x, y) ] in
      subst (λ l. Coalesced (q ∷ l)) e (inl front, longer-Coalesced c m cs unused co)
]

freed-Coalesced :
    (k : ℕ) (q : Block) (bs : List Block)
    → (k ≡ 0 → q.used ≡ true)
    → Coalesced (q ∷ bs)
    → Coalesced (q ∷ freed k bs)
unfolding freed
freed-Coalesced k q [] first co = tt
freed-Coalesced zero q (b ∷ bs) first (either, co) =
    let (c, cs, e, unused, co') = free_next-Coalesced b.units bs (Coalesced-tail b bs co) in
    subst (λ l. Coalesced (q ∷ l)) (sym e) (inl (first refl), co')
freed-Coalesced (suc zero) q (p ∷ []) first co = co
freed-Coalesced (suc zero) q (p ∷ b ∷ bs) first (either, (either', co)) =
    let (c, cs, e, unused, co') = free_next-Coalesced b.units bs (Coalesced-tail b bs co) in
    subst
      (λ l. Coalesced (q ∷ elim l as (λ x. List Block) [ [] ↦ p ∷ [] | c ∷ cs ↦ joined p c cs ]))
      (sym e) (joined-Coalesced q p c cs either unused co')
freed-Coalesced (suc (suc k)) q (p ∷ bs) first (either, co) =
    (either, freed-Coalesced (suc k) p bs (λ z. absurd (omega (arith, z))) co)

-- Blocks in use stay where they are.
joined-Stands :
    (i a : ℕ) (d p c : Block) (cs : List Block)
    → d.used ≡ true
    → c.used ≡ false
    → Stands i (p ∷ c ∷ cs) a d
    → Stands i (joined p c cs) a d
unfolding joined
joined-Stands i a d p c cs used unused s = elim (Bool-cases p.used) [
  | inl y ↦
      let e : p ∷ c ∷ cs ≡ joined p c cs = ground (arith, y) in subst (λ l. Stands i l a d) e s
  | inr x ↦
      let e : record { units = p.units + c.units; used = false } ∷ cs ≡ joined p c cs =
        ground (arith, x, unused) in
      subst (λ l. Stands i l a d) e (behind s x)
]
  where
    behind :
        Stands i (p ∷ c ∷ cs) a d
        → p.used ≡ false
        → Stands i (record { units = p.units + c.units; used = false } ∷ cs) a d
    behind (inl (at, same)) x = ground (arith, used, x, ap (λ b. b.used) same)
    behind (inr (inl (at, same))) x = ground (arith, used, unused, ap (λ b. b.used) same)
    behind (inr (inr s)) x =
        let there : i + p.units * 8 + c.units * 8 ≡ i + (p.units + c.units) * 8 = omega arith in
        inr (subst (λ j. Stands j cs a d) there s)

free_next-Stands :
    (i n a : ℕ) (d : Block) (bs : List Block)
    → d.used ≡ true
    → Stands (i + n * 8) bs a d
    → Stands i (free_next n bs) a d
unfolding free_next joined
free_next-Stands i n a d [] used s = absurd s
free_next-Stands i n a d (c ∷ cs) used s = elim (Bool-cases c.used) [
  | inl y ↦
      let e : record { units = n; used = false } ∷ c ∷ cs ≡ free_next n (c ∷ cs) =
        ground (arith, y) in
      subst (λ l. Stands i l a d) e (inr s)
  | inr x ↦ joined-Stands i a d (record { units = n; used = false }) c cs used x (inr s)
]

freed-Stands :
    (k i a : ℕ) (d : Block) (bs : List Block)
    → d.used ≡ true
    → Coalesced bs
    → a ≢ address i bs k
    → Stands i bs a d
    → Stands i (freed k bs) a d
unfolding freed
freed-Stands k i a d [] used co ne s = absurd s
freed-Stands zero i a d (b ∷ bs) used co ne (inl (at, same)) = absurd (ne at)
freed-Stands zero i a d (b ∷ bs) used co ne (inr s) = free_next-Stands i b.units a d bs used s
freed-Stands (suc zero) i a d (p ∷ []) used co ne s = s
freed-Stands (suc zero) i a d (p ∷ b ∷ bs) used (either, co) ne s =
    let (c, cs, e, unused, co') = free_next-Coalesced b.units bs (Coalesced-tail b bs co) in
    subst (λ l. Stands i (elim l as (λ x. List Block) [ [] ↦ p ∷ [] | c ∷ cs ↦ joined p c cs ]) a d)
      (sym e) (joined-Stands i a d p c cs used unused (there c cs e s))
  where
    there :
        (c : Block) (cs : List Block)
        → free_next b.units bs ≡ c ∷ cs
        → Stands i (p ∷ b ∷ bs) a d
        → Stands i (p ∷ c ∷ cs) a d
    there c cs e (inl here) = inl here
    there c cs e (inr (inl (at, same))) = absurd (ne at)
    there c cs e (inr (inr s)) = inr (
        subst (λ l. Stands (i + p.units * 8) l a d) e
          (free_next-Stands (i + p.units * 8) b.units a d bs used s))
freed-Stands (suc (suc k)) i a d (p ∷ bs) used co ne (inl here) = inl here
freed-Stands (suc (suc k)) i a d (p ∷ bs) used co ne (inr s) =
    inr (freed-Stands (suc k) (i + p.units * 8) a d bs used (Coalesced-tail p bs co) ne s)

place-header :
    (header : ℕ → Mheader) (top prev i k : ℕ) (bs : List Block) (b : Block)
    → Chain header top prev i bs
    → place k bs ≡ some b
    → (i ≤ address i bs k) × (prev' : ℕ) × (header (address i bs k) ≡ header_of prev' b)
place-header header top prev i k [] b c at = absurd ground (arith, at)
place-header header top prev i zero (d ∷ ds) b (here, pos, c) at =
    let same : d ≡ b = ground (arith, at) in (omega arith, prev, here ∙ ap (header_of prev) same)
place-header header top prev i (suc k) (d ∷ ds) b (here, pos, c) at =
    let (lo, prev', e) = place-header header top d.units (i + d.units * 8) k ds b c at in
    (omega (arith, lo), prev', e)

-- On a heap that is set up, with no two free blocks side by side, free of a block in use whose data do not
-- begin at the top of the heap ends. The block is free and one with its free neighbours, so that the heap
-- is well formed, again with no two free blocks side by side, and the other blocks in use stay where they are.
pub free_lem :
    (k : ℕ) (bs : List Block) (b : Block) (h : UserHeap)
    → IsHeap h bs
    → place k bs ≡ some b
    → b.used ≡ true
    → address h.heapbase bs k + 8 < h.heaptop
    → (h' : UserHeap) × (free (address h.heapbase bs k + 8) h ≡ done h')
      × IsHeap h' (freed k bs)
      × ((a : ℕ) (d : Block)
          → d.used ≡ true
          → a ≢ address h.heapbase bs k
          → Stands h.heapbase bs a d
          → Stands h'.heapbase (freed k bs) a d)
unfolding free
free_lem k bs b h heap at used room =
    let in_front : Block = record { units = 1; used = true } in
    let a = address h.heapbase bs k in
    let (lo, prev', e) = place-header h.header h.heaptop 0 h.heapbase k bs b heap.chain at in
    let (h', run, is) =
      release_lem k 0 h.heapbase bs b h heap.chain heap.small (omega arith) (λ z. refl) at in
    let back : a + 8 - 8 ≡ a = omega arith in
    let f₁ : (h.header a).magic1 ≡ 2 = ap (λ m. m.magic1) e in
    let f₂ : (h.header a).magic2 ≡ 2 = ap (λ m. m.magic2) e in
    let f₃ : (h.header a).inuse ≡ true = ap (λ m. m.inuse) e ∙ used in
    (
      h',
      ground (arith, back, f₁, f₂, f₃, heap.based, lo, room, run),
      record {
        based = omega (arith, heap.based, is.same_base);
        small = omega (arith, heap.small, is.same_top);
        chain =
            subst (λ s. Chain h'.header h'.heaptop 0 s (freed k bs)) (sym is.same_base)
              (subst (λ t. Chain h'.header t 0 h.heapbase (freed k bs)) (sym is.same_top) is.chain);
        coalesced = Coalesced-tail in_front (freed k bs) (
            freed-Coalesced k in_front bs (λ z. refl)
              (Coalesced-used in_front bs refl heap.coalesced));
      },
      λ c d u ne s.
          subst (λ i. Stands i (freed k bs) c d) (sym is.same_base)
            (freed-Stands k h.heapbase c d bs u heap.coalesced ne s),
    )

-- free ends the program with a message when the data of the block begin at the top of the heap, as those of
-- a block without data on top do.
pub free-top : (h : UserHeap) → 0 < h.heapbase → h.heapbase ≤ h.heaptop → free h.heaptop h ≡ panic
unfolding free
free-top h based ordered = ground (arith, based, ordered)
