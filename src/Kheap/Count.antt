-- ===== src/Kheap/Count.antt =====
-- Lists of block numbers: a list that is shorter than the count of the numbers misses one.
use ece344_operating_systems.Base.{
  ℕ, zero, suc, ◌≤◌, ◌<◌, ◌≡◌, ◌≢◌, ◌⊎◌, inl, inr, ap, true, false, List, [], ◌∷◌, length, member,
  Bool-cases, ℕ_discrete, arith, ◌==◌, if◌then◌else◌,
}

abbrev without : ℕ → List ℕ → List ℕ
without n [] = []
without n (x ∷ xs) = if x == n then without n xs else x ∷ without n xs

without-member :
    (n l : ℕ) (xs : List ℕ) → l ≢ n → member l xs ≡ true → member l (without n xs) ≡ true
without-member n l [] ne m = ground (arith, m)
without-member n l (x ∷ xs) ne m = elim (ℕ_discrete l x) [
  | yes e ↦ ground (arith, e, ne)
  | no d ↦ ground (arith, d, m, without-member n l xs ne ground (arith, d, m))
]

length-without_le : (n : ℕ) (xs : List ℕ) → length (without n xs) ≤ length xs
length-without_le n [] = omega arith
length-without_le n (x ∷ xs) = ground (arith, length-without_le n xs)

length-without : (n : ℕ) (xs : List ℕ) → member n xs ≡ true → length (without n xs) < length xs
length-without n [] m = absurd ground (arith, m)
length-without n (x ∷ xs) m = elim (ℕ_discrete n x) [
  | yes e ↦ ground (arith, e, length-without_le n xs)
  | no d ↦ ground (arith, d, length-without n xs ground (arith, d, m))
]

length-all : (n : ℕ) (xs : List ℕ) → ((l : ℕ) → l < n → member l xs ≡ true) → n ≤ length xs
length-all zero xs all = omega arith
length-all (suc n) xs all =
    let rest =
      length-all n (without n xs)
        (λ l lt. without-member n l xs (omega (arith, lt)) (all l (omega (arith, lt)))) in
    omega (arith, rest, length-without n xs (all n (omega arith)))

some_missing :
    (n : ℕ) (xs : List ℕ)
    → ((l : ℕ) → l < n → member l xs ≡ true) ⊎ ((l : ℕ) × (l < n) × (member l xs ≡ false))
some_missing zero xs = inl (λ l lt. absurd (omega (arith, lt)))
some_missing (suc n) xs = elim (some_missing n xs) [
  | inr (l, lt, out) ↦ inr (l, omega (arith, lt), out)
  | inl all ↦ elim (Bool-cases (member n xs)) [
    | inr out ↦ inr (n, omega arith, out)
    | inl m ↦ inl (λ l lt. elim (ℕ_discrete l n) [
      | yes e ↦ ground (arith, ap (λ x. member x xs) e, m)
      | no ne ↦ all l (omega (arith, lt, ne))
    ])
  ]
]

pub length-missing :
    (n : ℕ) (xs : List ℕ) → length xs < n → (l : ℕ) × (l < n) × (member l xs ≡ false)
length-missing n xs short = elim (some_missing n xs) [
  | inl all ↦ absurd (omega (arith, short, length-all n xs all))
  | inr found ↦ found
]
