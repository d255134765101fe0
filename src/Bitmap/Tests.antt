-- ===== src/Bitmap/Tests.antt =====
-- kern/lib/bitmap.c: the theorems at a map of ten bits.
use ece344_operating_systems.Base.{
  ℕ, ◌/◌, ◌%◌, ◌<◌, ◌≡◌, ◌⊎◌, refl, ap, ◌∙◌, Bool, true, none, some, [], ◌∷◌, arith, leb, get_or,
  done,
}
use ece344_operating_systems.Base.Errno.{enospc}
use ece344_operating_systems.Bitmap.{Bitmap, zero_word, bitmap_alloc}
use ece344_operating_systems.Bitmap.Refine.{bit, IsValid}
use ece344_operating_systems.Bitmap.Alloc.{Found, bitmap_alloc_lem}

abbrev everything : ℕ → Bool
everything n = true

-- The first byte is full, and of the second the bits from 2 on.
abbrev ten : Bitmap
ten = record { nbits = 10; v = (λ j. true) ∷ (λ j. leb 2 j) ∷ [] }

ten-IsValid : IsValid ten
ten-IsValid = record {
  small = omega arith;
  stored = refl;
  padded = λ i out low.
      let second : i / 8 ≡ 1 = omega (arith, out, low) in
      let high : leb 2 (i % 8) ≡ true = ground (arith, out, low) in
      ap (λ q. get_or ten.v q zero_word (i % 8)) second ∙ high;
}

bitmap_alloc_lem_example :
    (((j : ℕ) → j < ten.nbits → bit ten j ≡ true) × (bitmap_alloc ten ≡ done (enospc, none, ten)))
    ⊎ ((i : ℕ) × (b' : Bitmap) × (bitmap_alloc ten ≡ done (0, some i, b')) × Found ten i b')
bitmap_alloc_lem_example = bitmap_alloc_lem ten ten-IsValid
