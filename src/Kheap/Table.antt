-- ===== src/Kheap/Table.antt =====
-- kern/lib/kheap.c: the table of pagerefs, and the choice of a size.
use ece344_operating_systems.Base.{
  ℕ, zero, suc, ◌+◌, ◌*◌, ◌/◌, ◌%◌, ◌≤◌, ◌<◌, ◌≡◌, ◌⊎◌, refl, ap, ap₂, sym, ◌∙◌, inl, inr, true,
  false, Bool-cases, none, some, arith, ℕ_discrete, dec_lt, done,
}
use ece344_operating_systems.Kheap.{
  size, Heap, set_inuse, scan_bits, all_inuse, scan_words, allocpageref, freepageref, blocktype,
  blocktype_from,
}

-- A word that is not all ones has a clear bit.
clear_bit :
    (n i : ℕ) (h : Heap) → all_inuse n i h ≡ false → (k : ℕ) × (k < n) × (h.inuse i k ≡ false)
unfolding all_inuse
clear_bit zero i h e = absurd ground (arith, e)
clear_bit (suc n) i h e = elim (Bool-cases (h.inuse i n)) [
  | inl y ↦ let (k, l, c) = clear_bit n i h ground (arith, e, y) in (k, omega (arith, l), c)
  | inr c ↦ (n, omega arith, c)
]

set_bits : (n i k : ℕ) (h : Heap) → all_inuse n i h ≡ true → k < n → h.inuse i k ≡ true
unfolding all_inuse
set_bits zero i k h e l = absurd (omega (arith, l))
set_bits (suc n) i k h e l = elim (ℕ_discrete k n) [
  | yes same ↦ ground (arith, e, ap (h.inuse i) same)
  | no ne ↦ set_bits n i k h ground (arith, e) (omega (arith, l, ne))
]

scan_bits_lem :
    (rounds j i k : ℕ) (h : Heap)
    → j ≤ k
    → k < j + rounds
    → h.inuse i k ≡ false
    → (m : ℕ) × (m < j + rounds)
      × (h.inuse i m ≡ false)
      × (scan_bits rounds j i h ≡ done (some (i * 32 + m), set_inuse i m true h))
unfolding scan_bits
scan_bits_lem zero j i k h lo hi c = absurd (omega (arith, lo, hi))
scan_bits_lem (suc rounds) j i k h lo hi c = elim (Bool-cases (h.inuse i j)) [
  | inr clear ↦ (j, omega arith, clear, ground (arith, clear))
  | inl used ↦ elim (ℕ_discrete j k) [
    | yes e ↦ absurd ground (arith, used, c, ap (h.inuse i) e)
    | no ne ↦
        let (m, l, clear, run) =
          scan_bits_lem rounds (j + 1) i k h (omega (arith, lo, ne)) (omega (arith, hi)) c in
        (m, omega (arith, l), clear, ground (arith, used, run))
  ]
]

-- Either every pageref behind the word `i` is in use, or one that is not is taken.
scan_words_lem :
    (rounds i : ℕ) (h : Heap)
    → ((scan_words rounds i h ≡ done (none, h))
        × ((w b : ℕ) → i ≤ w → w < i + rounds → b < 32 → h.inuse w b ≡ true))
      ⊎ ((w : ℕ) × (b : ℕ) × (w < i + rounds)
          × (b < 32)
          × (h.inuse w b ≡ false)
          × (scan_words rounds i h ≡ done (some (w * 32 + b), set_inuse w b true h)))
unfolding scan_words
scan_words_lem zero i h = inl (refl, λ w b lo hi l. absurd (omega (arith, lo, hi)))
scan_words_lem (suc rounds) i h = elim (Bool-cases (all_inuse 32 i h)) [
  | inr some_clear ↦
      let (k, l, c) = clear_bit 32 i h some_clear in
      let (m, l', c', run) = scan_bits_lem 32 0 i k h (omega arith) (omega (arith, l)) c in
      inr (i, m, omega arith, omega (arith, l'), c', ground (arith, some_clear, run))
  | inl full ↦ elim (scan_words_lem rounds (i + 1) h) [
    | inl (run, rest) ↦ inl (ground (arith, full, run), λ w b lo hi l. all w b lo hi l rest full)
    | inr (w, b, l, l', c, run) ↦ inr (w, b, omega (arith, l), l', c, ground (arith, full, run))
  ]
]
  where
    all :
        (w b : ℕ)
        → i ≤ w
        → w < i + suc rounds
        → b < 32
        → ((w b : ℕ) → i + 1 ≤ w → w < i + 1 + rounds → b < 32 → h.inuse w b ≡ true)
        → all_inuse 32 i h ≡ true
        → h.inuse w b ≡ true
    all w b lo hi l rest full = elim (ℕ_discrete i w) [
      | yes e ↦ ap (λ x. h.inuse x b) (sym e) ∙ set_bits 32 i b h full l
      | no ne ↦ rest w b (omega (arith, lo, ne)) (omega (arith, hi)) l
    ]

-- allocpageref takes a pageref of the table that was not in use and marks it as in use, and it
-- gives none and changes nothing when all 256 are in use.
pub allocpageref_lem :
    (h : Heap)
    → ((allocpageref h ≡ done (none, h)) × ((p : ℕ) → p < 256 → h.inuse (p / 32) (p % 32) ≡ true))
      ⊎ ((p : ℕ) × (p < 256)
          × (h.inuse (p / 32) (p % 32) ≡ false)
          × (allocpageref h ≡ done (some p, set_inuse (p / 32) (p % 32) true h)))
unfolding allocpageref
allocpageref_lem h = elim (scan_words_lem 8 0 h) [
  | inl (run, all) ↦
      inl (run, λ p l. all (p / 32) (p % 32) (omega arith) (omega (arith, l)) (omega arith))
  | inr (w, b, l, l', c, run) ↦
      let word : (w * 32 + b) / 32 ≡ w = omega (arith, l') in
      let bit : (w * 32 + b) % 32 ≡ b = omega (arith, l') in
      inr (
        w * 32 + b,
        omega (arith, l, l'),
        ap₂ h.inuse word bit ∙ c,
        run ∙ ap₂ (λ x y. done (some (w * 32 + b), set_inuse x y true h)) (sym word) (sym bit),
      )
]

pub freepageref_lem :
    (p : ℕ) (h : Heap)
    → p < 256
    → h.inuse (p / 32) (p % 32) ≡ true
    → freepageref p h ≡ done (set_inuse (p / 32) (p % 32) false h)
unfolding freepageref
freepageref_lem p h l e = ground (arith, l, e)

-- The smallest size that fits.
pub record IsSizeOf (t sz : ℕ) : Type 0 where
  pub type : t < 8
  pub fits : sz ≤ size t
  pub least : (u : ℕ) → u < t → size u < sz

size-7 : size 7 ≡ 2048
unfolding size
size-7 = refl

blocktype_from_lem :
    (rounds i sz : ℕ)
    → i + rounds ≡ 8
    → sz ≤ 2048
    → ((u : ℕ) → u < i → size u < sz)
    → (t : ℕ) × (blocktype_from rounds i sz ≡ done t) × IsSizeOf t sz
unfolding blocktype_from
blocktype_from_lem zero i sz e l below =
    absurd (omega (arith, below 7 (omega (arith, e)), size-7, l))
blocktype_from_lem (suc rounds) i sz e l below = elim (dec_lt (size i) sz) [
  | yes lt ↦
      let (t, run, h) =
        blocktype_from_lem rounds (i + 1) sz (omega (arith, e)) l (λ u b. next u b lt) in
      (t, ground (arith, lt, run), h)
  | no ge ↦ (
    i,
    ground (arith, ge),
    record { type = omega (arith, e); fits = omega (arith, ge); least = below },
  )
]
  where
    next : (u : ℕ) → u < i + 1 → size i < sz → size u < sz
    next u b lt = elim (ℕ_discrete u i) [
      | yes e ↦ omega (arith, ap size e, lt)
      | no ne ↦ below u (omega (arith, b, ne))
    ]

-- For up to 2048 bytes blocktype ends with the smallest block size that holds them.
pub blocktype_lem : (sz : ℕ) → sz ≤ 2048 → (t : ℕ) × (blocktype sz ≡ done t) × IsSizeOf t sz
unfolding blocktype
blocktype_lem sz l = blocktype_from_lem 8 0 sz refl l (λ u b. absurd (omega (arith, b)))
