-- ===== src/Malloc/Blocks.antt =====
-- lib/libc/malloc.c: the heap as the list of its blocks, each with its length in units of eight bytes, its
-- header among them, and whether it is in use.
use ece344_operating_systems.Base.{
  ℕ, ◌+◌, ◌-◌, ◌*◌, ◌^◌, ◌≤◌, ◌<◌, ◌≡◌, ◌⊎◌, ◌∙◌, inl, Bool, true, false, ◌||◌, Option, none, some,
  List, [], ◌∷◌, length, arith, ltb, if◌then◌else◌,
}
use ece344_operating_systems.Malloc.{Mheader, UserHeap, mmagic}

pub record Block : Type 0 where
  pub units : ℕ
  pub used : Bool

-- The header that a block has behind one of `prev` units.
abbrev pub header_of : ℕ → Block → Mheader
header_of prev b = record {
  prevblock = prev;
  magic1 = mmagic;
  nextblock = b.units;
  inuse = b.used;
  magic2 = mmagic;
}

-- From the address `i` to `top` there stand just these blocks.
abbrev pub Chain : (ℕ → Mheader) → ℕ → ℕ → ℕ → List Block → Type 0
Chain header top prev i [] = i ≡ top
Chain header top prev i (b ∷ bs) =
    (header i ≡ header_of prev b) × (0 < b.units) × Chain header top b.units (i + b.units * 8) bs

pub Chain-le :
    (header : ℕ → Mheader) (top prev i : ℕ) (bs : List Block)
    → Chain header top prev i bs
    → i + length bs ≤ top
Chain-le header top prev i [] c = omega (arith, c)
Chain-le header top prev i (b ∷ bs) (h, pos, c) =
    omega (arith, pos, Chain-le header top b.units (i + b.units * 8) bs c)

-- The chain looks at the headers of its blocks alone, which stand in front of the top.
pub Chain-cong :
    (header header' : ℕ → Mheader) (top prev i : ℕ) (bs : List Block)
    → ((a : ℕ) → i ≤ a → a < top → header' a ≡ header a)
    → Chain header top prev i bs
    → Chain header' top prev i bs
Chain-cong header header' top prev i [] same c = c
Chain-cong header header' top prev i (b ∷ bs) same (h, pos, c) =
    let below : i + b.units * 8 ≤ top =
      omega (arith, Chain-le header top b.units (i + b.units * 8) bs c) in
    (
      same i (omega arith) (omega (arith, below, pos)) ∙ h,
      pos,
      Chain-cong header header' top b.units (i + b.units * 8) bs
          (λ a lo hi. same a (omega (arith, lo)) hi) c,
    )

-- The length of the last block, and `prev` when there is none.
abbrev pub last_units : ℕ → List Block → ℕ
last_units prev [] = prev
last_units prev (b ∷ bs) = last_units b.units bs

-- The block at an address.
abbrev pub Stands : ℕ → List Block → ℕ → Block → Type 0
Stands i [] a b = ⊥
Stands i (c ∷ bs) a b = ((a ≡ i) × (b ≡ c)) ⊎ Stands (i + c.units * 8) bs a b

-- No two free blocks stand side by side.
abbrev pub Coalesced : List Block → Type 0
Coalesced [] = Unit
Coalesced (b ∷ []) = Unit
Coalesced (b ∷ c ∷ bs) = ((b.used ≡ true) ⊎ (c.used ≡ true)) × Coalesced (c ∷ bs)

pub Coalesced-tail : (b : Block) (bs : List Block) → Coalesced (b ∷ bs) → Coalesced bs
Coalesced-tail b [] co = tt
Coalesced-tail b (c ∷ cs) co = co.1

pub Coalesced-used :
    (b : Block) (bs : List Block) → b.used ≡ true → Coalesced bs → Coalesced (b ∷ bs)
Coalesced-used b [] used co = tt
Coalesced-used b (c ∷ cs) used co = (inl used, co)

-- The heap of a program: from its base to its top.
pub record IsHeap (h : UserHeap) (bs : List Block) : Type 0 where
  pub based : 0 < h.heapbase
  pub small : h.heaptop < 2 ^ 32
  pub chain : Chain h.header h.heaptop 0 h.heapbase bs
  pub coalesced : Coalesced bs

-- First fit by the list: the first free block of at least `n` units, which is cut in two if at least two
-- units are left over.
unfoldable pub fit_here : ℕ → Block → List Block → List Block
fit_here n b bs =
    if ltb (b.units - n) 2
    then record { units = b.units; used = true } ∷ bs
    else record { units = n; used = true } ∷ record { units = b.units - n; used = false } ∷ bs

unfoldable pub first_fit : ℕ → List Block → Option (List Block)
first_fit n [] = none
first_fit n (b ∷ bs) =
    let later : Option (List Block) = elim (first_fit n bs) [
      | none ↦ none
      | some bs' ↦ some (b ∷ bs')
    ] in
    if b.used || ltb b.units n then later else some (fit_here n b bs)
