-- ===== src/Malloc/Merge.antt =====
-- lib/libc/malloc.c: two blocks side by side.
use ece344_operating_systems.Base.{
  ℕ, ◌+◌, ◌-◌, ◌*◌, ◌/◌, ◌%◌, ◌^◌, ◌≤◌, ◌<◌, ◌≡◌, ◌≢◌, ◌⊎◌, refl, ap, sym, ◌∙◌, subst, inl, inr,
  true, false, ◌||◌, Bool-cases, List, [], ◌∷◌, arith, if◌then◌else◌, done,
}
use ece344_operating_systems.Malloc.{UserHeap, set_header, malloc_deadbeef, malloc_trymerge}
use ece344_operating_systems.Malloc.Blocks.{Block, header_of, Chain, Chain-le, Chain-cong}

-- Two blocks side by side after malloc_trymerge.
unfoldable pub joined : Block → Block → List Block → List Block
joined b c cs =
    if b.used || c.used then b ∷ c ∷ cs else record { units = b.units + c.units; used = false } ∷ cs

pub record IsLeft (prev i : ℕ) (bs : List Block) (h h' : UserHeap) : Type 0 where
  pub chain : Chain h'.header h.heaptop prev i bs
  pub same_base : h'.heapbase ≡ h.heapbase
  pub same_top : h'.heaptop ≡ h.heaptop
  pub below : (a : ℕ) → a < i → h'.header a ≡ h.header a

merge_last :
    (prev i : ℕ) (b c : Block) (h : UserHeap)
    → Chain h.header h.heaptop prev i (b ∷ c ∷ [])
    → h.heaptop < 2 ^ 32
    → (b.used || c.used) ≡ false
    → (h' : UserHeap) × (malloc_trymerge i (i + b.units * 8) h ≡ done h')
      × IsLeft prev i (joined b c []) h h'
unfolding malloc_trymerge joined
merge_last prev i b c h (at, pos, (at', pos', end)) small free =
    let next = i + b.units * 8 in
    let unused_b : b.used ≡ false = ground (arith, free) in
    let unused_c : c.used ≡ false = ground (arith, free) in
    let f₁ : (h.header i).nextblock ≡ b.units = ap (λ m. m.nextblock) at in
    let f₂ : (h.header i).inuse ≡ false = ap (λ m. m.inuse) at ∙ unused_b in
    let f₃ : (h.header next).nextblock ≡ c.units = ap (λ m. m.nextblock) at' in
    let f₄ : (h.header next).inuse ≡ false = ap (λ m. m.inuse) at' ∙ unused_c in
    let f₅ : (h.header next).prevblock ≡ b.units = ap (λ m. m.prevblock) at' in
    let size_b : (b.units * 8 + 2 ^ 32 - 8) % 2 ^ 32 ≡ b.units * 8 - 8 =
      omega (arith, end, small, pos) in
    let size_c : (c.units * 8 + 2 ^ 32 - 8) % 2 ^ 32 ≡ c.units * 8 - 8 =
      omega (arith, end, small, pos') in
    let both : (8 + (b.units * 8 - 8) + 8 + (c.units * 8 - 8)) % 2 ^ 32 / 8 ≡ b.units + c.units =
      omega (arith, end, small, pos, pos') in
    let h₁ = set_header i (record (h.header i) { nextblock = b.units + c.units }) h in
    let h' = malloc_deadbeef next 8 h₁ in
    let fit : record { units = b.units + c.units; used = false } ∷ [] ≡ joined b c [] =
      ground (arith, free) in
    let chain : Chain h'.header h.heaptop prev i
        (record { units = b.units + c.units; used = false } ∷ []) =
      (ground (arith, at, pos, unused_b), omega (arith, pos), omega (arith, end)) in
    (
      h',
      ground (arith, f₁, f₂, f₃, f₄, f₅, size_b, size_c, both, end),
      record {
        chain = subst (λ l. Chain h'.header h.heaptop prev i l) fit chain;
        same_base = refl;
        same_top = refl;
        below = λ a l. ground (arith, l);
      },
    )

merge_more :
    (prev i : ℕ) (b c d : Block) (ds : List Block) (h : UserHeap)
    → Chain h.header h.heaptop prev i (b ∷ c ∷ d ∷ ds)
    → h.heaptop < 2 ^ 32
    → (b.used || c.used) ≡ false
    → (h' : UserHeap) × (malloc_trymerge i (i + b.units * 8) h ≡ done h')
      × IsLeft prev i (joined b c (d ∷ ds)) h h'
unfolding malloc_trymerge joined
merge_more prev i b c d ds h (at, pos, (at', pos', (at'', pos'', rest))) small free =
    let next = i + b.units * 8 in
    let after = next + c.units * 8 in
    let end : after + d.units * 8 ≤ h.heaptop =
      omega (arith, Chain-le h.header h.heaptop d.units (after + d.units * 8) ds rest) in
    let unused_b : b.used ≡ false = ground (arith, free) in
    let unused_c : c.used ≡ false = ground (arith, free) in
    let f₁ : (h.header i).nextblock ≡ b.units = ap (λ m. m.nextblock) at in
    let f₂ : (h.header i).inuse ≡ false = ap (λ m. m.inuse) at ∙ unused_b in
    let f₃ : (h.header next).nextblock ≡ c.units = ap (λ m. m.nextblock) at' in
    let f₄ : (h.header next).inuse ≡ false = ap (λ m. m.inuse) at' ∙ unused_c in
    let f₅ : (h.header next).prevblock ≡ b.units = ap (λ m. m.prevblock) at' in
    let size_b : (b.units * 8 + 2 ^ 32 - 8) % 2 ^ 32 ≡ b.units * 8 - 8 =
      omega (arith, end, small, pos) in
    let size_c : (c.units * 8 + 2 ^ 32 - 8) % 2 ^ 32 ≡ c.units * 8 - 8 =
      omega (arith, end, small, pos') in
    let both : (8 + (b.units * 8 - 8) + 8 + (c.units * 8 - 8)) % 2 ^ 32 / 8 ≡ b.units + c.units =
      omega (arith, end, small, pos, pos') in
    let not_top : after ≢ h.heaptop = omega (arith, end, pos'') in
    let h₁ = set_header i (record (h.header i) { nextblock = b.units + c.units }) h in
    let h₂ = set_header after (record (h₁.header after) { prevblock = b.units + c.units }) h₁ in
    let h' = malloc_deadbeef next 8 h₂ in
    let fit : record { units = b.units + c.units; used = false } ∷ d ∷ ds ≡ joined b c (d ∷ ds) =
      ground (arith, free) in
    let far : (a : ℕ) → after < a → h'.header a ≡ h.header a =
      λ a lo. ground (arith, lo, pos, pos') in
    let at_after : h'.header after ≡ header_of (b.units + c.units) d =
      ground (arith, at'', pos, pos') in
    let there : i + (b.units + c.units) * 8 ≡ after = omega arith in
    let tail : Chain h'.header h.heaptop (b.units + c.units) after (d ∷ ds) = (
      at_after,
      pos'',
      Chain-cong h.header h'.header h.heaptop d.units (after + d.units * 8) ds
          (λ a lo hi. far a (omega (arith, lo, pos''))) rest,
    ) in
    let chain : Chain h'.header h.heaptop prev i
        (record { units = b.units + c.units; used = false } ∷ d ∷ ds) =
      (
        ground (arith, at, pos, pos', unused_b),
        omega (arith, pos),
        subst (λ a. Chain h'.header h.heaptop (b.units + c.units) a (d ∷ ds)) (sym there) tail,
      ) in
    (
      h',
      ground (arith, f₁, f₂, f₃, f₄, f₅, size_b, size_c, both, not_top),
      record {
        chain = subst (λ l. Chain h'.header h.heaptop prev i l) fit chain;
        same_base = refl;
        same_top = refl;
        below = λ a l. ground (arith, l, pos);
      },
    )

pub merge_lem :
    (prev i : ℕ) (b c : Block) (cs : List Block) (h : UserHeap)
    → Chain h.header h.heaptop prev i (b ∷ c ∷ cs)
    → h.heaptop < 2 ^ 32
    → (h' : UserHeap) × (malloc_trymerge i (i + b.units * 8) h ≡ done h')
      × IsLeft prev i (joined b c cs) h h'
unfolding malloc_trymerge joined
merge_lem prev i b c cs h chain small = by_use cs chain (Bool-cases (b.used || c.used))
  where
    by_use :
        (cs : List Block)
        → Chain h.header h.heaptop prev i (b ∷ c ∷ cs)
        → ((b.used || c.used) ≡ true) ⊎ ((b.used || c.used) ≡ false)
        → (h' : UserHeap) × (malloc_trymerge i (i + b.units * 8) h ≡ done h')
          × IsLeft prev i (joined b c cs) h h'
    by_use [] chain (inr free) = merge_last prev i b c h chain small free
    by_use (d ∷ ds) chain (inr free) = merge_more prev i b c d ds h chain small free
    by_use cs chain (inl used) =
        let (at, pos, (at', pos', rest)) = chain in
        let f₁ : (h.header i).nextblock ≡ b.units = ap (λ m. m.nextblock) at in
        let f₂ : (h.header i).inuse ≡ b.used = ap (λ m. m.inuse) at in
        let f₄ : (h.header (i + b.units * 8)).inuse ≡ c.used = ap (λ m. m.inuse) at' in
        let f₅ : (h.header (i + b.units * 8)).prevblock ≡ b.units = ap (λ m. m.prevblock) at' in
        let fit : b ∷ c ∷ cs ≡ joined b c cs = ground (arith, used) in
        (
          h,
          ground (arith, f₁, f₂, f₄, f₅, used),
          record {
            chain = subst (λ l. Chain h.header h.heaptop prev i l) fit chain;
            same_base = refl;
            same_top = refl;
            below = λ a l. refl;
          },
        )
