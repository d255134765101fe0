-- ===== src/Bitmap/Bits.antt =====
-- kern/lib/bitmap.c: the bits of a byte and of a row of bytes.
use ece344_operating_systems.Base.{
  ℕ, zero, suc, ◌+◌, ◌*◌, ◌/◌, ◌%◌, ◌^◌, ◌<◌, ◌≡◌, ◌≢◌, refl, ap, ap₂, sym, ◌∙◌, inl, inr, Bool,
  true, false, ◌&&◌, ◌||◌, not, Bool-cases, ==_iff, List, set, get_or, length, arith, ◌==◌,
  if◌then◌else◌, get_or-set_self, get_or-set_ne, ℕ_discrete,
}
use ece344_operating_systems.Bitmap.{
  Word, value, value_below, or_word, and_word, not_word, mask, zero_word,
}

-- Bit `i` of the row.
abbrev pub bit_at : List Word → ℕ → Bool
bit_at v i = get_or v (i / 8) zero_word (i % 8)

-- One bit more.
value_below-set : (n : ℕ) (w : Word) → w n ≡ true → value_below (suc n) w ≡ 2 ^ n + value_below n w
unfolding value_below
value_below-set n w y = rw y refl

value_below-unset : (n : ℕ) (w : Word) → w n ≡ false → value_below (suc n) w ≡ value_below n w
unfolding value_below
value_below-unset n w x = rw x (omega arith)

double : (n : ℕ) → 2 ^ suc n ≡ 2 ^ n + 2 ^ n
double n = omega arith

positive : (n : ℕ) → 0 < 2 ^ n
positive zero = omega arith
positive (suc n) = omega (arith, double n, positive n)

value_below_bound : (n : ℕ) (w : Word) → value_below n w < 2 ^ n
unfolding value_below
value_below_bound zero w = omega arith
value_below_bound (suc n) w = elim (Bool-cases (w n)) [
  | inl y ↦ omega (arith, value_below-set n w y, double n, value_below_bound n w)
  | inr x ↦ omega (arith, value_below-unset n w x, double n, value_below_bound n w)
]

-- The number is 0 exactly if no bit is set.
value_below-none : (n : ℕ) (w : Word) → ((j : ℕ) → j < n → w j ≡ false) → value_below n w ≡ 0
unfolding value_below
value_below-none zero w off = refl
value_below-none (suc n) w off =
    value_below-unset n w (off n (omega arith)) ∙ value_below-none n w (λ j l. off j (omega arith))

value_below-some : (n : ℕ) (w : Word) (j : ℕ) → j < n → w j ≡ true → 0 < value_below n w
value_below-some zero w j l y = absurd (omega arith)
value_below-some (suc n) w j l y = elim (Bool-cases (w n)) [
  | inl z ↦ omega (arith, value_below-set n w z, positive n)
  | inr x ↦ omega (arith, value_below-unset n w x, value_below-some n w j (below n j l y x) y)
]
  where
    below : (n j : ℕ) → j < suc n → w j ≡ true → w n ≡ false → j < n
    below n j l y x = elim (ℕ_discrete j n) [
      | yes e ↦ ground (arith, y, x, ap w e)
      | no ne ↦ omega (arith, ne)
    ]

-- It is the greatest one exactly if all bits are.
value_below-full : (n : ℕ) (w : Word) → value_below n w + 1 ≡ 2 ^ n → (j : ℕ) → j < n → w j ≡ true
value_below-full zero w e j l = absurd (omega arith)
value_below-full (suc n) w e j l = elim (Bool-cases (w n)) [
  | inl y ↦ elim (ℕ_discrete j n) [
    | yes same ↦ ap w same ∙ y
    | no ne ↦
        value_below-full n w (omega (arith, value_below-set n w y, double n, e)) j
          (omega (arith, ne))
  ]
  | inr x ↦
      absurd
        (omega (arith, value_below-unset n w x, double n, e, value_below_bound n w, positive n))
]

value_below-all : (n : ℕ) (w : Word) → ((j : ℕ) → j < n → w j ≡ true) → value_below n w + 1 ≡ 2 ^ n
unfolding value_below
value_below-all zero w all = refl
value_below-all (suc n) w all = omega (
  arith,
  value_below-set n w (all n (omega arith)),
  double n,
  value_below-all n w (λ j l. all j (omega arith)),
)

-- `w & (1 << o)` is 0 exactly if bit `o` is not set.
masked : (w : Word) (o j : ℕ) → w o ≡ false → and_word w (mask o) j ≡ false
masked w o j x = elim (ℕ_discrete j o) [
  | yes e ↦ rw (e, x) refl
  | no ne ↦ elim (Bool-cases (j == o)) [
    | inl y ↦ absurd (ne ((==_iff j o).0 y))
    | inr n ↦ ground (arith, n)
  ]
]

pub value-and_mask : (w : Word) (o : ℕ) → o < 8 → (value (and_word w (mask o)) == 0) ≡ not (w o)
unfolding value
value-and_mask w o l = elim (Bool-cases (w o)) [
  | inl y ↦ rw y (
      ground
        (arith, value_below-some 8 (and_word w (mask o)) o l (rw (y, (==_iff o o).1 refl) refl)))
  | inr x ↦ rw x (ground (arith, value_below-none 8 (and_word w (mask o)) (λ j b. masked w o j x)))
]

-- A byte is 0xff exactly if all its bits are set.
pub value-full : (w : Word) → (value w == 0xff) ≡ true → (j : ℕ) → j < 8 → w j ≡ true
unfolding value
value-full w e j l = value_below-full 8 w (omega (arith, (==_iff (value_below 8 w) 0xff).0 e)) j l

pub value-not_full : (w : Word) → (value w == 0xff) ≡ false → ((j : ℕ) → j < 8 → w j ≡ true) → ⊥
unfolding value
value-not_full w e all = ground (arith, value_below-all 8 w all)

-- A row with bit `i` set or cleared.
abbrev pub with_bit : List Word → ℕ → List Word
with_bit v i = set v (i / 8) (or_word (get_or v (i / 8) zero_word) (mask (i % 8)))

abbrev pub without_bit : List Word → ℕ → List Word
without_bit v i = set v (i / 8) (and_word (get_or v (i / 8) zero_word) (not_word (mask (i % 8))))

pub eq_no : (a b : ℕ) → a ≢ b → (a == b) ≡ false
eq_no a b ne = ground (arith, ne)

-- A write in the byte of bit `i`, seen at bit `j` of that byte and of another.
bit_at-set_same :
    (v : List Word) (i j : ℕ) (w : Word)
    → i / 8 < length v
    → j / 8 ≡ i / 8
    → bit_at (set v (i / 8) w) j ≡ w (j % 8)
bit_at-set_same v i j w l e =
    ap (λ b. get_or (set v (i / 8) w) b zero_word (j % 8)) e
    ∙ ap (λ (x : Word). x (j % 8)) (get_or-set_self v (i / 8) w zero_word l)

bit_at-set_other :
    (v : List Word) (i j : ℕ) (w : Word) → i / 8 ≢ j / 8 → bit_at (set v (i / 8) w) j ≡ bit_at v j
bit_at-set_other v i j w ne =
    ap (λ (x : Word). x (j % 8)) (get_or-set_ne v (i / 8) (j / 8) w zero_word ne)

or_false : (b : Bool) → (b || false) ≡ b
or_false true = refl
or_false false = refl

or_true : (b : Bool) → (b || true) ≡ true
or_true true = refl
or_true false = refl

and_true : (b : Bool) → (b && true) ≡ b
and_true true = refl
and_true false = refl

and_false : (b : Bool) → (b && false) ≡ false
and_false true = refl
and_false false = refl

pub bit_at-with_bit :
    (v : List Word) (i j : ℕ)
    → i / 8 < length v
    → bit_at (with_bit v i) j ≡ (if j == i then true else bit_at v j)
bit_at-with_bit v i j l =
    let w : Word = get_or v (i / 8) zero_word in
    let w' : Word = or_word w (mask (i % 8)) in
    elim (ℕ_discrete j i) [
      | yes e ↦
          bit_at-set_same v i j w' l (ap (λ n. n / 8) e)
          ∙ rw ((==_iff (j % 8) (i % 8)).1 (ap (λ n. n % 8) e), (==_iff j i).1 e)
              (or_true (w (j % 8)))
      | no ne ↦ rw (eq_no j i ne) (elim (ℕ_discrete (j / 8) (i / 8)) [
        | yes e ↦
            bit_at-set_same v i j w' l e
            ∙ rw (eq_no (j % 8) (i % 8) (λ m. ne (omega (arith, e, m)))) (or_false (w (j % 8)))
            ∙ ap (λ b. get_or v b zero_word (j % 8)) (sym e)
        | no other ↦ bit_at-set_other v i j w' (λ e. other (sym e))
      ])
    ]

pub bit_at-without_bit :
    (v : List Word) (i j : ℕ)
    → i / 8 < length v
    → bit_at (without_bit v i) j ≡ (if j == i then false else bit_at v j)
bit_at-without_bit v i j l =
    let w : Word = get_or v (i / 8) zero_word in
    let w' : Word = and_word w (not_word (mask (i % 8))) in
    elim (ℕ_discrete j i) [
      | yes e ↦
          bit_at-set_same v i j w' l (ap (λ n. n / 8) e)
          ∙ rw ((==_iff (j % 8) (i % 8)).1 (ap (λ n. n % 8) e), (==_iff j i).1 e)
              (and_false (w (j % 8)))
      | no ne ↦ rw (eq_no j i ne) (elim (ℕ_discrete (j / 8) (i / 8)) [
        | yes e ↦
            bit_at-set_same v i j w' l e
            ∙ rw (eq_no (j % 8) (i % 8) (λ m. ne (omega (arith, e, m)))) (and_true (w (j % 8)))
            ∙ ap (λ b. get_or v b zero_word (j % 8)) (sym e)
        | no other ↦ bit_at-set_other v i j w' (λ e. other (sym e))
      ])
    ]

-- Bit `o` of byte `ix`, read and as the code sets it.
pub bit_at-byte :
    (v : List Word) (ix o : ℕ) → o < 8 → bit_at v (ix * 8 + o) ≡ get_or v ix zero_word o
bit_at-byte v ix o l =
    let q : (ix * 8 + o) / 8 ≡ ix = omega arith in
    let r : (ix * 8 + o) % 8 ≡ o = omega arith in ap₂ (λ a b. get_or v a zero_word b) q r

pub set-with_bit :
    (v : List Word) (ix o : ℕ)
    → o < 8
    → set v ix (or_word (get_or v ix zero_word) (mask o)) ≡ with_bit v (ix * 8 + o)
set-with_bit v ix o l =
    let q : ix ≡ (ix * 8 + o) / 8 = omega arith in
    let r : o ≡ (ix * 8 + o) % 8 = omega arith in
    ap₂ (λ a b. set v a (or_word (get_or v a zero_word) (mask b))) q r
