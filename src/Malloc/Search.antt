-- ===== src/Malloc/Search.antt =====
-- lib/libc/malloc.c: the first-fit search.
use ece344_operating_systems.Base.{
  ℕ, ◌+◌, ◌-◌, ◌*◌, ◌/◌, ◌%◌, ◌^◌, ◌≤◌, ◌<◌, ◌≡◌, ◌≢◌, refl, ap, sym, subst, true, false, List, [],
  ◌∷◌, arith, done,
}
use ece344_operating_systems.Malloc.{UserHeap, mmagic, set_header, malloc_split}
use ece344_operating_systems.Malloc.Blocks.{Block, header_of, Chain, Chain-le, Chain-cong, fit_here}

-- What is left of the search when it takes the block at `i`.
pub record IsTaken (n prev i : ℕ) (b : Block) (bs : List Block) (h h' : UserHeap) : Type 0 where
  pub chain : Chain h'.header h.heaptop prev i (fit_here n b bs)
  pub same_base : h'.heapbase ≡ h.heapbase
  pub same_top : h'.heaptop ≡ h.heaptop
  pub below : (a : ℕ) → a < i → h'.header a ≡ h.header a

pub take_whole :
    (n size prev i : ℕ) (b : Block) (bs : List Block) (h : UserHeap)
    → Chain h.header h.heaptop prev i (b ∷ bs)
    → h.heaptop < 2 ^ 32
    → size + 8 ≡ n * 8
    → n ≤ b.units
    → b.units - n < 2
    → (h₁ : UserHeap) × (malloc_split i size h ≡ done h₁)
      × IsTaken n prev i b bs h (set_header i (record (h₁.header i) { inuse = true }) h₁)
unfolding malloc_split fit_here
take_whole n size prev i b bs h (at, pos, c) small e fits tight =
    let room : i + b.units * 8 ≤ h.heaptop =
      omega (arith, Chain-le h.header h.heaptop b.units (i + b.units * 8) bs c) in
    let units : (h.header i).nextblock ≡ b.units = ap (λ m. m.nextblock) at in
    let aligned : size % 8 ≡ 0 = omega (arith, e) in
    let old : (b.units * 8 + 2 ^ 32 - 8) % 2 ^ 32 ≡ b.units * 8 - 8 =
      omega (arith, room, small, pos) in
    let few : (b.units * 8 - 8 + 2 ^ 32 - size) % 2 ^ 32 < 16 =
      omega (arith, room, small, pos, e, fits, tight) in
    let h' = set_header i (record (h.header i) { inuse = true }) h in
    let fit : record { units = b.units; used = true } ∷ bs ≡ fit_here n b bs =
      ground (arith, tight) in
    let head : h'.header i ≡ header_of prev (record { units = b.units; used = true }) =
      ground (arith, at) in
    let chain : Chain h'.header h.heaptop prev i (record { units = b.units; used = true } ∷ bs) = (
      head,
      pos,
      Chain-cong h.header h'.header h.heaptop b.units (i + b.units * 8) bs
          (λ a lo hi. ground (arith, lo, pos)) c,
    ) in
    (
      h,
      ground (arith, units, aligned, old, few),
      record {
        chain = subst (λ l. Chain h'.header h.heaptop prev i l) fit chain;
        same_base = refl;
        same_top = refl;
        below = λ a l. ground (arith, l);
      },
    )

-- The headers of the two parts of a block that is cut.
abbrev cut_header : ℕ → ℕ → ℕ → Block → UserHeap → UserHeap
cut_header n prev i b h =
    set_header (i + n * 8)
      (record {
        prevblock = n;
        magic1 = mmagic;
        nextblock = b.units - n;
        inuse = false;
        magic2 = mmagic;
      })
      (set_header i (record (h.header i) { nextblock = n }) h)

pub take_last :
    (n size prev i : ℕ) (b : Block) (h : UserHeap)
    → Chain h.header h.heaptop prev i (b ∷ [])
    → h.heaptop < 2 ^ 32
    → size + 8 ≡ n * 8
    → n ≤ b.units
    → 2 ≤ b.units - n
    → (h₁ : UserHeap) × (malloc_split i size h ≡ done h₁)
      × IsTaken n prev i b [] h (set_header i (record (h₁.header i) { inuse = true }) h₁)
unfolding malloc_split fit_here
take_last n size prev i b h (at, pos, c) small e fits room =
    let units : (h.header i).nextblock ≡ b.units = ap (λ m. m.nextblock) at in
    let aligned : size % 8 ≡ 0 = omega (arith, e) in
    let old : (b.units * 8 + 2 ^ 32 - 8) % 2 ^ 32 ≡ b.units * 8 - 8 =
      omega (arith, c, small, pos) in
    let many : 16 ≤ (b.units * 8 - 8 + 2 ^ 32 - size) % 2 ^ 32 =
      omega (arith, c, small, pos, e, fits, room) in
    let field : (size + 8) / 8 ≡ n = omega (arith, e) in
    let left : (b.units * 8 - 8 - size) / 8 ≡ b.units - n = omega (arith, e, fits) in
    let h₁ = cut_header n prev i b h in
    let some_n : 0 < n = omega (arith, e) in
    let h' = set_header i (record (h₁.header i) { inuse = true }) h₁ in
    let fit : record { units = n; used = true } ∷ record { units = b.units - n; used = false } ∷ []
        ≡ fit_here n b [] =
      ground (arith, room) in
    let chain : Chain h'.header h.heaptop prev i
        (record { units = n; used = true } ∷ record { units = b.units - n; used = false } ∷ []) =
      (
        ground (arith, at, some_n),
        some_n,
        (ground (arith, some_n), omega (arith, room), omega (arith, c, fits, room)),
      ) in
    (
      h₁,
      ground (arith, units, aligned, old, many, field, left, c, some_n, room),
      record {
        chain = subst (λ l. Chain h'.header h.heaptop prev i l) fit chain;
        same_base = refl;
        same_top = refl;
        below = λ a l. ground (arith, l);
      },
    )

pub take_more :
    (n size prev i : ℕ) (b d : Block) (ds : List Block) (h : UserHeap)
    → Chain h.header h.heaptop prev i (b ∷ d ∷ ds)
    → h.heaptop < 2 ^ 32
    → size + 8 ≡ n * 8
    → n ≤ b.units
    → 2 ≤ b.units - n
    → (h₁ : UserHeap) × (malloc_split i size h ≡ done h₁)
      × IsTaken n prev i b (d ∷ ds) h (set_header i (record (h₁.header i) { inuse = true }) h₁)
unfolding malloc_split fit_here
take_more n size prev i b d ds h (at, pos, (at', pos', c)) small e fits room =
    let next = i + b.units * 8 in
    let end : next + d.units * 8 ≤ h.heaptop =
      omega (arith, Chain-le h.header h.heaptop d.units (next + d.units * 8) ds c) in
    let units : (h.header i).nextblock ≡ b.units = ap (λ m. m.nextblock) at in
    let aligned : size % 8 ≡ 0 = omega (arith, e) in
    let old : (b.units * 8 + 2 ^ 32 - 8) % 2 ^ 32 ≡ b.units * 8 - 8 =
      omega (arith, end, small, pos) in
    let many : 16 ≤ (b.units * 8 - 8 + 2 ^ 32 - size) % 2 ^ 32 =
      omega (arith, end, small, pos, e, fits, room) in
    let field : (size + 8) / 8 ≡ n = omega (arith, e) in
    let left : (b.units * 8 - 8 - size) / 8 ≡ b.units - n = omega (arith, e, fits) in
    let cut = cut_header n prev i b h in
    let some_n : 0 < n = omega (arith, e) in
    let not_top : next ≢ h.heaptop = omega (arith, end, pos') in
    let h₁ = set_header next (record (cut.header next) { prevblock = b.units - n }) cut in
    let h' = set_header i (record (h₁.header i) { inuse = true }) h₁ in
    let fit : record { units = n; used = true }
          ∷ record { units = b.units - n; used = false }
          ∷ d
          ∷ ds
        ≡ fit_here n b (d ∷ ds) =
      ground (arith, room) in
    let there : i + n * 8 + (b.units - n) * 8 ≡ next = omega (arith, fits) in
    let far : (a : ℕ) → next < a → h'.header a ≡ h.header a =
      λ a lo. ground (arith, lo, fits, some_n, room) in
    let at_next : h'.header next ≡ header_of (b.units - n) d =
      ground (arith, at', fits, some_n, room, pos) in
    let rest : Chain h'.header h.heaptop (b.units - n) next (d ∷ ds) = (
      at_next,
      pos',
      Chain-cong h.header h'.header h.heaptop d.units (next + d.units * 8) ds
          (λ a lo hi. far a (omega (arith, lo, pos'))) c,
    ) in
    let chain : Chain h'.header h.heaptop prev i (
        record { units = n; used = true } ∷ record { units = b.units - n; used = false } ∷ d ∷ ds) =
      (
        ground (arith, at, some_n, pos, fits, room),
        some_n,
        (
          ground (arith, some_n, fits, room),
          omega (arith, room),
          subst (λ a. Chain h'.header h.heaptop (b.units - n) a (d ∷ ds)) (sym there) rest,
        ),
      ) in
    (
      h₁,
      ground (arith, units, aligned, old, many, field, left, not_top, some_n, room),
      record {
        chain = subst (λ l. Chain h'.header h.heaptop prev i l) fit chain;
        same_base = refl;
        same_top = refl;
        below = λ a l. ground (arith, l, pos);
      },
    )
