-- ===== src/Malloc/Fit.antt =====
-- lib/libc/malloc.c: the search loop against first fit by the list of blocks.
use ece344_operating_systems.Base.{
  ℕ, zero, suc, ◌+◌, ◌-◌, ◌*◌, ◌%◌, ◌^◌, ◌≤◌, ◌<◌, ◌≡◌, ◌⊎◌, refl, ap, sym, ◌∙◌, subst, inl, inr,
  true, false, ◌||◌, Bool-cases, none, some, List, [], ◌∷◌, length, arith, ltb, done, dec_lt,
}
use ece344_operating_systems.Malloc.{UserHeap, set_header, malloc_split, search}
use ece344_operating_systems.Malloc.Blocks.{
  Block, header_of, Chain, Chain-le, last_units, Stands, fit_here, first_fit,
}
use ece344_operating_systems.Malloc.Search.{IsTaken, take_whole, take_last, take_more}

take_lem :
    (n size prev i : ℕ) (b : Block) (bs : List Block) (h : UserHeap)
    → Chain h.header h.heaptop prev i (b ∷ bs)
    → h.heaptop < 2 ^ 32
    → size + 8 ≡ n * 8
    → n ≤ b.units
    → (h₁ : UserHeap) × (malloc_split i size h ≡ done h₁)
      × IsTaken n prev i b bs h (set_header i (record (h₁.header i) { inuse = true }) h₁)
take_lem n size prev i b bs h c small e fits = by_room bs c (dec_lt (b.units - n) 2)
  where
    by_room :
        (bs : List Block)
        → Chain h.header h.heaptop prev i (b ∷ bs)
        → Dec (b.units - n < 2)
        → (h₁ : UserHeap) × (malloc_split i size h ≡ done h₁)
          × IsTaken n prev i b bs h (set_header i (record (h₁.header i) { inuse = true }) h₁)
    by_room bs c (yes tight) = take_whole n size prev i b bs h c small e fits tight
    by_room [] c (no room) = take_last n size prev i b h c small e fits (omega (arith, room))
    by_room (d ∷ ds) c (no room) =
        take_more n size prev i b d ds h c small e fits (omega (arith, room))

-- The block at `a` was free and is in use, with at least `n` units; blocks in use are where they were.
pub record IsServed (n i : ℕ) (bs bs' : List Block) (a : ℕ) : Type 0 where
  pub old : Block
  pub was : Stands i bs a old
  pub free : old.used ≡ false
  pub given : Block
  pub now : Stands i bs' a given
  pub used : given.used ≡ true
  pub enough : n ≤ given.units
  pub kept : (c : ℕ) (d : Block) → d.used ≡ true → Stands i bs c d → Stands i bs' c d

fit_here-IsServed :
    (n i : ℕ) (b : Block) (bs : List Block)
    → b.used ≡ false
    → n ≤ b.units
    → IsServed n i (b ∷ bs) (fit_here n b bs) i
unfolding fit_here
fit_here-IsServed n i b bs unused fits = by_room (dec_lt (b.units - n) 2)
  where
    tail :
        (e : (i + n * 8) + (b.units - n) * 8 ≡ i + b.units * 8) (c : ℕ) (d : Block)
        → Stands (i + b.units * 8) bs c d
        → Stands ((i + n * 8) + (b.units - n) * 8) bs c d
    tail e c d s = subst (λ a. Stands a bs c d) (sym e) s

    split_kept :
        (c : ℕ) (d : Block)
        → d.used ≡ true
        → Stands i (b ∷ bs) c d
        → Stands i
            (record { units = n; used = true } ∷ record { units = b.units - n; used = false } ∷ bs)
            c
            d
    split_kept c d u (inl (at, same)) = ground (arith, u, unused, ap (λ x. x.used) same)
    split_kept c d u (inr s) = inr (inr (tail (omega (arith, fits)) c d s))

    whole_kept :
        (c : ℕ) (d : Block)
        → d.used ≡ true
        → Stands i (b ∷ bs) c d
        → Stands i (record { units = b.units; used = true } ∷ bs) c d
    whole_kept c d u (inl (at, same)) = ground (arith, u, unused, ap (λ x. x.used) same)
    whole_kept c d u (inr s) = inr s

    whole : IsServed n i (b ∷ bs) (record { units = b.units; used = true } ∷ bs) i
    whole = record {
      old = b;
      was = inl (refl, refl);
      free = unused;
      given = record { units = b.units; used = true };
      now = inl (refl, refl);
      used = refl;
      enough = fits;
      kept = whole_kept;
    }

    cut :
        IsServed n i
          (b ∷ bs)
          (record { units = n; used = true } ∷ record { units = b.units - n; used = false } ∷ bs)
          i
    cut = record {
      old = b;
      was = inl (refl, refl);
      free = unused;
      given = record { units = n; used = true };
      now = inl (refl, refl);
      used = refl;
      enough = omega arith;
      kept = split_kept;
    }

    by_room : Dec (b.units - n < 2) → IsServed n i (b ∷ bs) (fit_here n b bs) i
    by_room (yes tight) =
        let e : record { units = b.units; used = true } ∷ bs ≡ fit_here n b bs =
          ground (arith, tight) in
        subst (λ l. IsServed n i (b ∷ bs) l i) e whole
    by_room (no room) =
        let e : record { units = n; used = true }
              ∷ record { units = b.units - n; used = false }
              ∷ bs
            ≡ fit_here n b bs =
          ground (arith, room) in
        subst (λ l. IsServed n i (b ∷ bs) l i) e cut

IsServed-behind :
    (n i : ℕ) (b : Block) (bs bs' : List Block) (a : ℕ)
    → IsServed n (i + b.units * 8) bs bs' a
    → IsServed n i (b ∷ bs) (b ∷ bs') a
IsServed-behind n i b bs bs' a s = record {
  old = s.old;
  was = inr s.was;
  free = s.free;
  given = s.given;
  now = inr s.now;
  used = s.used;
  enough = s.enough;
  kept = λ c d u st. kept c d u st;
}
  where
    kept : (c : ℕ) (d : Block) → d.used ≡ true → Stands i (b ∷ bs) c d → Stands i (b ∷ bs') c d
    kept c d u (inl here) = inl here
    kept c d u (inr there) = inr (s.kept c d u there)

-- What the search leaves when it takes a block.
pub record IsFound (n prev i : ℕ) (bs : List Block) (h : UserHeap) (bs' : List Block) (a : ℕ)
    (h' : UserHeap) : Type 0 where
  pub fit : first_fit n bs ≡ some bs'
  pub chain : Chain h'.header h.heaptop prev i bs'
  pub same_base : h'.heapbase ≡ h.heapbase
  pub same_top : h'.heaptop ≡ h.heaptop
  pub below : (x : ℕ) → x < i → h'.header x ≡ h.header x
  pub served : IsServed n i bs bs' a

search_skip :
    (fuel n size prev i : ℕ) (b : Block) (h : UserHeap)
    → h.header i ≡ header_of prev b
    → 0 < b.units
    → i + b.units * 8 ≤ h.heaptop
    → h.heaptop < 2 ^ 32
    → size + 8 ≡ n * 8
    → (b.used || ltb b.units n) ≡ true
    → search (suc fuel) i prev size h ≡ search fuel (i + b.units * 8) b.units size h
unfolding search
search_skip fuel n size prev i b h at pos room small e skip =
    let visit : i < h.heaptop = omega (arith, room, pos) in
    let size_of : (b.units * 8 + 2 ^ 32 - 8) % 2 ^ 32 ≡ b.units * 8 - 8 =
      omega (arith, room, small, pos) in
    let too_small : ltb b.units n ≡ ltb (b.units * 8 - 8) size = ground (arith, e, pos) in
    let f₁ : (h.header i).prevblock ≡ prev = ap (λ m. m.prevblock) at in
    let f₂ : (h.header i).nextblock ≡ b.units = ap (λ m. m.nextblock) at in
    let f₃ : (h.header i).inuse ≡ b.used = ap (λ m. m.inuse) at in
    let f₄ : (h.header i).magic1 ≡ 2 = ap (λ m. m.magic1) at in
    let f₅ : (h.header i).magic2 ≡ 2 = ap (λ m. m.magic2) at in
    ground (arith, visit, size_of, too_small, f₁, f₂, f₃, f₄, f₅, skip)

search_take :
    (fuel n size prev i : ℕ) (b : Block) (h h₁ : UserHeap)
    → h.header i ≡ header_of prev b
    → 0 < b.units
    → i + b.units * 8 ≤ h.heaptop
    → h.heaptop < 2 ^ 32
    → size + 8 ≡ n * 8
    → b.used ≡ false
    → n ≤ b.units
    → malloc_split i size h ≡ done h₁
    → search (suc fuel) i prev size h
      ≡ done
          (some i, (h.header i).nextblock, set_header i (record (h₁.header i) { inuse = true }) h₁)
unfolding search
search_take fuel n size prev i b h h₁ at pos room small e unused enough run =
    let visit : i < h.heaptop = omega (arith, room, pos) in
    let size_of : (b.units * 8 + 2 ^ 32 - 8) % 2 ^ 32 ≡ b.units * 8 - 8 =
      omega (arith, room, small, pos) in
    let big : size ≤ b.units * 8 - 8 = omega (arith, e, enough) in
    let f₁ : (h.header i).prevblock ≡ prev = ap (λ m. m.prevblock) at in
    let f₂ : (h.header i).nextblock ≡ b.units = ap (λ m. m.nextblock) at in
    let f₃ : (h.header i).inuse ≡ b.used = ap (λ m. m.inuse) at in
    let f₄ : (h.header i).magic1 ≡ 2 = ap (λ m. m.magic1) at in
    let f₅ : (h.header i).magic2 ≡ 2 = ap (λ m. m.magic2) at in
    ground (arith, visit, size_of, big, f₁, f₂, f₃, f₄, f₅, unused, run)

pub search_lem :
    (bs : List Block) (fuel n size prev i : ℕ) (h : UserHeap)
    → Chain h.header h.heaptop prev i bs
    → h.heaptop < 2 ^ 32
    → size + 8 ≡ n * 8
    → length bs < fuel
    → ((first_fit n bs ≡ none) × (search fuel i prev size h ≡ done (none, last_units prev bs, h)))
      ⊎ ((bs' : List Block) × (a u : ℕ) × (h' : UserHeap) × (search fuel i prev size h
            ≡ done (some a, u, h'))
          × IsFound n prev i bs h bs' a h')
unfolding search first_fit
search_lem bs zero n size prev i h c small e l = absurd (omega (arith, l))
search_lem [] (suc fuel) n size prev i h c small e l = inl (refl, ground (arith, c))
search_lem (b ∷ bs) (suc fuel) n size prev i h (at, pos, c) small e l =
    let room : i + b.units * 8 ≤ h.heaptop =
      omega (arith, Chain-le h.header h.heaptop b.units (i + b.units * 8) bs c) in
    elim (Bool-cases (b.used || ltb b.units n)) [
      | inl skip ↦
          let go = search_skip fuel n size prev i b h at pos room small e skip in
          elim (search_lem bs fuel n size b.units (i + b.units * 8) h c small e
            (omega (arith, l))) [
              | inl (none_fits, run) ↦ inl (ground (arith, skip, none_fits), go ∙ run)
              | inr (bs', a, u, h', run, f) ↦ inr (
                b ∷ bs',
                a,
                u,
                h',
                go ∙ run,
                record {
                  fit = ground (arith, skip, f.fit);
                  chain = (f.below i (omega (arith, pos)) ∙ at, pos, f.chain);
                  same_base = f.same_base;
                  same_top = f.same_top;
                  below = λ x lo. f.below x (omega (arith, lo));
                  served = IsServed-behind n i b bs bs' a f.served;
                },
              )
            ]
      | inr fits ↦
          let unused : b.used ≡ false = ground (arith, fits) in
          let enough : n ≤ b.units = ground (arith, fits) in
          let (h₁, run, t) = take_lem n size prev i b bs h (at, pos, c) small e enough in
          let h' = set_header i (record (h₁.header i) { inuse = true }) h₁ in
          inr (
            fit_here n b bs,
            i,
            (h.header i).nextblock,
            h',
            search_take fuel n size prev i b h h₁ at pos room small e unused enough run,
            record {
              fit = ground (arith, fits);
              chain = t.chain;
              same_base = t.same_base;
              same_top = t.same_top;
              below = t.below;
              served = fit_here-IsServed n i b bs unused enough;
            },
          )
    ]
