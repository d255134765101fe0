-- ===== src/Bitmap/Refine.antt =====
-- kern/lib/bitmap.c: the map as a row of bits, and what creating, marking and testing do to it.
use ece344_operating_systems.Base.{
  ℕ, ◌+◌, ◌/◌, ◌%◌, ◌^◌, ◌≤◌, ◌<◌, ◌≡◌, refl, ◌∙◌, inl, inr, Bool, true, false, Bool-cases, ==_iff,
  List, get_or, get_elem?-get_or, length, length-set, arith, ◌==◌, if◌then◌else◌, done, panic, load,
  load_lem, store_lem, dec_lt, ◌↔◌, ◌⊎◌,
}
use ece344_operating_systems.Bitmap.{
  Word, Bitmap, value, or_word, and_word, not_word, mask, zero_word, bitmap_mark, bitmap_unmark,
  bitmap_isset, bitmap_translate,
}
use ece344_operating_systems.Bitmap.Bits.{
  bit_at, with_bit, without_bit, bit_at-with_bit, bit_at-without_bit, value-and_mask, eq_no,
}

abbrev pub bit : Bitmap → ℕ → Bool
bit b i = bit_at b.v i

-- There are just enough bytes, and the bits behind the last one that counts are set.
pub record IsValid (b : Bitmap) : Type 0 where
  pub small : b.nbits + 7 < 2 ^ 32
  pub stored : length b.v ≡ (b.nbits + 7) / 8
  pub padded : (i : ℕ) → b.nbits ≤ i → i / 8 < length b.v → bit b i ≡ true

pub get_word : (v : List Word) (ix : ℕ) → ix < length v → load v ix ≡ done (get_or v ix zero_word)
get_word v ix l = load_lem v ix (get_elem?-get_or v ix zero_word l)

-- The byte of a bit that counts.
pub in_row : (b : Bitmap) (i : ℕ) → IsValid b → i < b.nbits → i / 8 < length b.v
in_row b i h l = omega (arith, h.stored)

-- The map with bit `i` set, or cleared, where it counts.
pub with_bit-IsValid :
    (b : Bitmap) (i : ℕ) → IsValid b → i < b.nbits → IsValid (record b { v = with_bit b.v i })
with_bit-IsValid b i h l = record {
  small = h.small;
  stored =
      length-set b.v (i / 8) (or_word (get_or b.v (i / 8) zero_word) (mask (i % 8))) ∙ h.stored;
  padded = λ j out low.
      bit_at-with_bit b.v i j (in_row b i h l)
      ∙ rw (eq_no j i (omega (arith, out, l))) (
          h.padded j out (
            omega (
              arith,
              low,
              length-set b.v (i / 8) (or_word (get_or b.v (i / 8) zero_word) (mask (i % 8))),
            )));
}

without_bit-IsValid :
    (b : Bitmap) (i : ℕ) → IsValid b → i < b.nbits → IsValid (record b { v = without_bit b.v i })
without_bit-IsValid b i h l = record {
  small = h.small;
  stored =
      length-set b.v (i / 8) (and_word (get_or b.v (i / 8) zero_word) (not_word (mask (i % 8))))
      ∙ h.stored;
  padded = λ j out low.
      bit_at-without_bit b.v i j (in_row b i h l)
      ∙ rw (eq_no j i (omega (arith, out, l))) (
          h.padded j out (
            omega (
              arith,
              low,
              length-set b.v (i / 8)
                  (and_word (get_or b.v (i / 8) zero_word) (not_word (mask (i % 8)))),
            )));
}

-- bitmap_mark sets a bit that counts and is clear, and no other; on any other index it panics.
pub bitmap_mark_lem :
    (b : Bitmap) (i : ℕ)
    → IsValid b
    → ((b' : Bitmap) × (i < b.nbits)
        × (bit b i ≡ false)
        × (bitmap_mark b i ≡ done b')
        × IsValid b'
        × ((j : ℕ) → bit b' j ≡ (if j == i then true else bit b j)))
      ⊎ ((i < b.nbits → bit b i ≡ true) × (bitmap_mark b i ≡ panic))
unfolding bitmap_mark bitmap_translate
bitmap_mark_lem b i h = elim (dec_lt i b.nbits) [
  | no out ↦ inr (λ l. absurd (out l), ground (arith, out))
  | yes l ↦
      let w = get_or b.v (i / 8) zero_word in
      let test = value-and_mask w (i % 8) (omega arith) in
      elim (Bool-cases (w (i % 8))) [
        | inl y ↦ inr (λ l'. y, ground (arith, l, get_word b.v (i / 8) (in_row b i h l), test, y))
        | inr x ↦ inl (
          record b { v = with_bit b.v i },
          l,
          x,
          ground (
            arith,
            l,
            get_word b.v (i / 8) (in_row b i h l),
            test,
            x,
            store_lem b.v (i / 8) (or_word w (mask (i % 8))) (in_row b i h l),
          ),
          with_bit-IsValid b i h l,
          λ j. bit_at-with_bit b.v i j (in_row b i h l),
        )
      ]
]

-- bitmap_unmark clears a bit that counts and is set, and no other; on any other index it panics.
pub bitmap_unmark_lem :
    (b : Bitmap) (i : ℕ)
    → IsValid b
    → ((b' : Bitmap) × (i < b.nbits)
        × (bit b i ≡ true)
        × (bitmap_unmark b i ≡ done b')
        × IsValid b'
        × ((j : ℕ) → bit b' j ≡ (if j == i then false else bit b j))
        × (b'.nbits ≡ b.nbits))
      ⊎ ((i < b.nbits → bit b i ≡ false) × (bitmap_unmark b i ≡ panic))
unfolding bitmap_unmark bitmap_translate
bitmap_unmark_lem b i h = elim (dec_lt i b.nbits) [
  | no out ↦ inr (λ l. absurd (out l), ground (arith, out))
  | yes l ↦
      let w = get_or b.v (i / 8) zero_word in
      let test = value-and_mask w (i % 8) (omega arith) in
      elim (Bool-cases (w (i % 8))) [
        | inr x ↦ inr (λ l'. x, ground (arith, l, get_word b.v (i / 8) (in_row b i h l), test, x))
        | inl y ↦ inl (
          record b { v = without_bit b.v i },
          l,
          y,
          ground (
            arith,
            l,
            get_word b.v (i / 8) (in_row b i h l),
            test,
            y,
            store_lem b.v (i / 8) (and_word w (not_word (mask (i % 8)))) (in_row b i h l),
          ),
          without_bit-IsValid b i h l,
          λ j. bit_at-without_bit b.v i j (in_row b i h l),
          refl,
        )
      ]
]

-- Of the bits that count, bitmap_isset gives 0 exactly on those that are clear.
pub bitmap_isset_lem :
    (b : Bitmap) (i : ℕ)
    → IsValid b
    → i < b.nbits
    → (n : ℕ) × (bitmap_isset b i ≡ done n) × ((n ≡ 0) ↔ (bit b i ≡ false))
unfolding bitmap_isset bitmap_translate
bitmap_isset_lem b i h l =
    let w = get_or b.v (i / 8) zero_word in
    let n = value (and_word w (mask (i % 8))) in
    let test = value-and_mask w (i % 8) (omega arith) in
    (
      n,
      ground (arith, get_word b.v (i / 8) (in_row b i h l)),
      (λ z. ground (arith, test, z), λ x. (==_iff n 0).0 (test ∙ rw x refl)),
    )
