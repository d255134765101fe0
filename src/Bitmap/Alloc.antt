-- ===== src/Bitmap/Alloc.antt =====
-- kern/lib/bitmap.c: bitmap_alloc.
use ece344_operating_systems.Base.{
  ℕ, zero, suc, ◌+◌, ◌-◌, ◌*◌, ◌%◌, ◌^◌, ◌<◌, ◌≡◌, refl, ap, sym, ◌∙◌, inl, inr, true, false,
  Bool-cases, none, some, get_or, length, arith, ◌==◌, if◌then◌else◌, done, store_lem, ℕ_discrete,
  dec_lt, ◌⊎◌,
}
use ece344_operating_systems.Base.Errno.{enospc}
use ece344_operating_systems.Bitmap.{
  Bitmap, value, or_word, mask, zero_word, words, alloc_bit, alloc_from, bitmap_alloc,
}
use ece344_operating_systems.Bitmap.Bits.{
  bit_at, with_bit, bit_at-with_bit, set-with_bit, bit_at-byte, value-and_mask, value-full,
  value-not_full,
}
use ece344_operating_systems.Bitmap.Refine.{bit, IsValid, get_word, in_row, with_bit-IsValid}

-- The bit that was handed out: the least clear one, which is set now, and no other is changed.
pub record Found (b : Bitmap) (i : ℕ) (b' : Bitmap) : Type 0 where
  pub counts : i < b.nbits
  pub clear : bit b i ≡ false
  pub least : (j : ℕ) → j < i → bit b j ≡ true
  pub valid : IsValid b'
  pub sized : b'.nbits ≡ b.nbits
  pub taken : (j : ℕ) → bit b' j ≡ (if j == i then true else bit b j)

alloc_bit_lem :
    (rounds offset ix : ℕ) (b : Bitmap)
    → IsValid b
    → offset + rounds ≡ 8
    → ix < length b.v
    → ((j : ℕ) → j < ix * 8 + offset → bit b j ≡ true)
    → (((o : ℕ) → o < 8 → get_or b.v ix zero_word o ≡ true) → ⊥)
    → (i : ℕ) × (b' : Bitmap) × (alloc_bit rounds offset ix (get_or b.v ix zero_word) b
        ≡ done (0, some i, b'))
      × Found b i b'
unfolding alloc_bit
alloc_bit_lem zero offset ix b h e l before free =
    absurd
      (free (λ o lo. sym (bit_at-byte b.v ix o lo) ∙ before (ix * 8 + o) (omega (arith, e, lo))))
alloc_bit_lem (suc rounds) offset ix b h e l before free =
    let w = get_or b.v ix zero_word in
    let test = value-and_mask w offset (omega (arith, e)) in
    let i = ix * 8 + offset in
    let here = bit_at-byte b.v ix offset (omega (arith, e)) in
    elim (Bool-cases (w offset)) [
      | inl y ↦
          let (i', b', run, f) =
            alloc_bit_lem rounds (offset + 1) ix b h (omega (arith, e)) l
              (λ j lj. elim (ℕ_discrete j i) [
                | yes same ↦ ap (bit_at b.v) same ∙ here ∙ y
                | no ne ↦ before j (omega (arith, lj, ne))
              ])
              free in
          (i', b', ground (arith, test, y, run), f)
      | inr x ↦
          let counts : i < b.nbits = elim (dec_lt i b.nbits) [
            | yes lt ↦ lt
            | no out ↦
                ground (arith, here, x, h.padded i (omega (arith, out)) (omega (arith, l, e)))
          ] in
          let wrap : i % 2 ^ 32 ≡ i = omega (arith, l, e, h.stored, h.small) in
          (
            i,
            record b { v = with_bit b.v i },
            ground (
              arith,
              test,
              x,
              store_lem b.v ix (or_word w (mask offset)) l,
              set-with_bit b.v ix offset (omega (arith, e)),
              wrap,
              counts,
            ),
            record {
              counts = counts;
              clear = here ∙ x;
              least = before;
              valid = with_bit-IsValid b i h counts;
              sized = refl;
              taken = λ j. bit_at-with_bit b.v i j (in_row b i h counts);
            },
          )
    ]

alloc_from_lem :
    (rounds ix : ℕ) (b : Bitmap)
    → IsValid b
    → ix + rounds ≡ length b.v
    → ((j : ℕ) → j < ix * 8 → bit b j ≡ true)
    → (((j : ℕ) → j < b.nbits → bit b j ≡ true) × (alloc_from rounds ix b ≡ done (enospc, none, b)))
      ⊎ ((i : ℕ) × (b' : Bitmap) × (alloc_from rounds ix b ≡ done (0, some i, b')) × Found b i b')
unfolding alloc_from
alloc_from_lem zero ix b h e before = inl (λ j l. before j (omega (arith, l, e, h.stored)), refl)
alloc_from_lem (suc rounds) ix b h e before =
    let w = get_or b.v ix zero_word in
    let l : ix < length b.v = omega (arith, e) in
    elim (Bool-cases (value w == 0xff)) [
      | inl y ↦
          let full : (j : ℕ) → j < (ix + 1) * 8 → bit b j ≡ true = λ j lj.
            elim (dec_lt j (ix * 8)) [
              | yes lt ↦ before j lt
              | no ge ↦
                  let o = j - ix * 8 in
                  let same : j ≡ ix * 8 + o = omega (arith, ge) in
                  let few : o < 8 = omega (arith, lj, ge) in
                  ap (bit_at b.v) same ∙ bit_at-byte b.v ix o few ∙ value-full w y o few
            ] in
          elim (alloc_from_lem rounds (ix + 1) b h (omega (arith, e)) full) [
            | inl (all, run) ↦ inl (all, ground (arith, get_word b.v ix l, y, run))
            | inr (i, b', run, f) ↦ inr (i, b', ground (arith, get_word b.v ix l, y, run), f)
          ]
      | inr x ↦
          let (i, b', run, f) =
            alloc_bit_lem 8 0 ix b h (omega arith) l (λ j lj. before j (omega (arith, lj)))
              (value-not_full w x) in
          inr (i, b', ground (arith, get_word b.v ix l, x, run), f)
    ]

-- bitmap_alloc says ENOSPC exactly when every bit that counts is set, and changes nothing then; it
-- hands out the least clear bit otherwise, and sets that bit alone. Its asserts hold.
pub bitmap_alloc_lem :
    (b : Bitmap)
    → IsValid b
    → (((j : ℕ) → j < b.nbits → bit b j ≡ true) × (bitmap_alloc b ≡ done (enospc, none, b)))
      ⊎ ((i : ℕ) × (b' : Bitmap) × (bitmap_alloc b ≡ done (0, some i, b')) × Found b i b')
unfolding bitmap_alloc
bitmap_alloc_lem b h =
    alloc_from_lem (words b.nbits) 0 b h (omega (arith, h.stored, h.small))
      (λ j l. absurd (omega (arith, l)))
