-- ===== src/Bitmap/Create.antt =====
-- kern/lib/bitmap.c: bitmap_create.
use ece344_operating_systems.Base.{
  ℕ, zero, suc, ◌+◌, ◌-◌, ◌*◌, ◌/◌, ◌%◌, ◌^◌, ◌≤◌, ◌<◌, ◌≡◌, refl, ap, ◌∙◌, inl, inr, Bool, true,
  false, Bool-cases, ==_iff, none, some, List, set, get_or, length, length-set, length-replicate,
  replicate, arith, ◌==◌, if◌then◌else◌, done, store_lem, ℕ_discrete, dec_lt, ◌⊎◌,
}
use ece344_operating_systems.Bitmap.{
  Word, Bitmap, or_word, mask, zero_word, words, mark_rest, bitmap_create,
}
use ece344_operating_systems.Bitmap.Bits.{bit_at, bit_at-with_bit, set-with_bit, eq_no}
use ece344_operating_systems.Bitmap.Refine.{bit, IsValid, get_word}
use ece344_operating_systems.Bitmap.Refine.{IsValid}

-- The loop that marks the leftover bits of byte `ix`.
mark_rest_lem :
    (rounds j ix : ℕ) (v : List Word)
    → j + rounds ≡ 8
    → ix < length v
    → (v' : List Word) × (mark_rest rounds j ix v ≡ done v')
      × (length v' ≡ length v)
      × ((i : ℕ) → ix * 8 + j ≤ i → i < ix * 8 + 8 → bit_at v' i ≡ true)
      × ((i : ℕ) → i < ix * 8 + j → bit_at v' i ≡ bit_at v i)
unfolding mark_rest
mark_rest_lem zero j ix v e l =
    (v, refl, refl, λ i low high. absurd (omega (arith, e, low, high)), λ i low. refl)
mark_rest_lem (suc rounds) j ix v e l =
    let w = or_word (get_or v ix zero_word) (mask j) in
    let v₁ = set v ix w in
    let (v', run, len, on, off) =
      mark_rest_lem rounds (j + 1) ix v₁ (omega arith) (omega (arith, length-set v ix w)) in
    let one : (i : ℕ) → bit_at v₁ i ≡ (if i == ix * 8 + j then true else bit_at v i) = λ i.
      ap (λ u. bit_at u i) (set-with_bit v ix j (omega arith))
      ∙ bit_at-with_bit v (ix * 8 + j) i (omega arith) in
    (
      v',
      ground (arith, get_word v ix l, store_lem v ix w l, run),
      omega (arith, len, length-set v ix w),
      λ i low high. elim (ℕ_discrete i (ix * 8 + j)) [
        | yes here ↦ off i (omega (arith, here)) ∙ one i ∙ rw ((==_iff i (ix * 8 + j)).1 here) refl
        | no past ↦ on i (omega (arith, low, past)) high
      ],
      λ i low.
          off i (omega (arith, low)) ∙ one i ∙ rw (eq_no i (ix * 8 + j) (omega (arith, low))) refl,
    )

bit_at-replicate : (n i : ℕ) → bit_at (replicate n zero_word) i ≡ false
bit_at-replicate n i = zeros n (i / 8)
  where
    zeros : (n q : ℕ) → get_or (replicate n zero_word) q zero_word (i % 8) ≡ false
    zeros zero q = refl
    zeros (suc n) zero = refl
    zeros (suc n) (suc q) = zeros n q

-- What a successful bitmap_create gives.
pub record Fresh (nbits : ℕ) (b : Bitmap) : Type 0 where
  pub valid : IsValid b
  pub same_size : b.nbits ≡ nbits
  pub clear : (i : ℕ) → i < nbits → bit b i ≡ false

create_whole :
    (mem : ℕ → Bool) (nbits : ℕ)
    → nbits + 7 < 2 ^ 32
    → mem 8 ≡ true
    → mem (words nbits) ≡ true
    → words nbits ≤ nbits / 8
    → (b : Bitmap) × (bitmap_create mem nbits ≡ done (some b)) × Fresh nbits b
unfolding bitmap_create
create_whole mem nbits small m m' whole =
    let n = words nbits in
    (
      record { nbits = nbits; v = replicate n zero_word },
      ground (arith, m, m', whole),
      record {
        valid = record {
          small = small;
          stored = omega (arith, length-replicate n zero_word);
          padded = λ i out low.
              absurd (omega (arith, whole, small, out, low, length-replicate n zero_word));
        };
        same_size = refl;
        clear = λ i l. bit_at-replicate n i;
      },
    )

create_rest :
    (mem : ℕ → Bool) (nbits : ℕ)
    → nbits + 7 < 2 ^ 32
    → mem 8 ≡ true
    → mem (words nbits) ≡ true
    → nbits / 8 < words nbits
    → (b : Bitmap) × (bitmap_create mem nbits ≡ done (some b)) × Fresh nbits b
unfolding bitmap_create
create_rest mem nbits small m m' rest =
    let n = words nbits in
    let ix = n - 1 in
    let o = (nbits + 2 ^ 32 - ix * 8) % 2 ^ 32 in
    let at : ix * 8 + o ≡ nbits = omega (arith, small, rest) in
    let few : o < 8 = omega (arith, small, rest) in
    let some_bits : 0 < o = omega (arith, small, rest) in
    let zeros : List Word = replicate n zero_word in
    let (v', run, len, on, off) =
      mark_rest_lem (8 - o) o ix zeros (omega (arith, few))
        (omega (arith, rest, length-replicate n zero_word)) in
    (
      record { nbits = nbits; v = v' },
      ground (
        arith,
        m,
        m',
        rest,
        few,
        some_bits,
        (==_iff (nbits / 8) (n - 1)).1 (omega (arith, small, rest)),
        run,
      ),
      record {
        valid = record {
          small = small;
          stored = omega (arith, len, length-replicate n zero_word, small);
          padded = λ i out low.
              on i (omega (arith, at, out)) (omega (arith, low, len, length-replicate n zero_word));
        };
        same_size = refl;
        clear = λ i l. off i (omega (arith, l, at)) ∙ bit_at-replicate n i;
      },
    )

-- bitmap_create, where kmalloc grants its two blocks, gives a map with every bit clear that
-- counts, and else NULL.
pub bitmap_create_lem :
    (mem : ℕ → Bool) (nbits : ℕ)
    → nbits + 7 < 2 ^ 32
    → ((n : ℕ) × (mem n ≡ false) × (bitmap_create mem nbits ≡ done none))
      ⊎ ((b : Bitmap) × (bitmap_create mem nbits ≡ done (some b)) × Fresh nbits b)
unfolding bitmap_create
bitmap_create_lem mem nbits small = elim (Bool-cases (mem 8)) [
  | inr m ↦ inl (8, m, ground (arith, m))
  | inl m ↦ elim (Bool-cases (mem (words nbits))) [
    | inr m' ↦ inl (words nbits, m', ground (arith, m, m'))
    | inl m' ↦ inr (elim (dec_lt (nbits / 8) (words nbits)) [
      | no whole ↦ create_whole mem nbits small m m' (omega (arith, whole))
      | yes rest ↦ create_rest mem nbits small m m' rest
    ])
  ]
]
