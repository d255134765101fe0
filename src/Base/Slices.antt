-- ===== src/Base/Slices.antt =====
-- `take`, `drop` and `set` against one another: parts of a C array before and after a write.
use Prim.Native.Nat.{ℕ, zero, suc, ◌-◌, ◌≤◌, ◌<◌}
use mathlib.Core.Path.{◌≡◌, refl, ap, ◌∙◌}
use mathlib.Core.Logic.{◌≢◌}
use mathlib.Core.List.{List, [], ◌∷◌, ◌++◌}
use mathlib.Core.Option.{some}
use native.Mathlib.Omega.{arith}
use ece344_operating_systems.Base.Lists.{length, get_elem?, get_or, set, take, drop, replicate}

module _ {ℓ} {A : Type ℓ} where
  pub get_elem?_of_lt : (xs : List A) (i : ℕ) → i < length xs → (x : A) × (get_elem? xs i ≡ some x)
  get_elem?_of_lt [] i h = absurd (omega arith)
  get_elem?_of_lt (x ∷ xs) zero h = (x, refl)
  get_elem?_of_lt (x ∷ xs) (suc i) h = get_elem?_of_lt xs i (omega arith)

  pub lt_of_get_elem? : (xs : List A) (i : ℕ) {x : A} → get_elem? xs i ≡ some x → i < length xs
  lt_of_get_elem? [] i h = cc
  lt_of_get_elem? (x ∷ xs) zero h = omega arith
  lt_of_get_elem? (x ∷ xs) (suc i) h = omega (arith, lt_of_get_elem? xs i h)

  pub drop-cons :
      (xs : List A) (i : ℕ) {x : A} → get_elem? xs i ≡ some x → drop i xs ≡ x ∷ drop (suc i) xs
  drop-cons [] i h = cc
  drop-cons (y ∷ xs) zero h = cc
  drop-cons (y ∷ xs) (suc i) h = drop-cons xs i h

  pub take_of_le : (n : ℕ) (xs : List A) → length xs ≤ n → take n xs ≡ xs
  take_of_le zero [] h = refl
  take_of_le zero (x ∷ xs) h = absurd (omega arith)
  take_of_le (suc n) [] h = refl
  take_of_le (suc n) (x ∷ xs) h = ap (λ t. x ∷ t) (take_of_le n xs (omega arith))

  pub drop_of_le : (n : ℕ) (xs : List A) → length xs ≤ n → drop n xs ≡ []
  drop_of_le zero [] h = refl
  drop_of_le zero (x ∷ xs) h = absurd (omega arith)
  drop_of_le (suc n) [] h = refl
  drop_of_le (suc n) (x ∷ xs) h = drop_of_le n xs (omega arith)

  pub take-set_of_le : (n i : ℕ) (xs : List A) (v : A) → n ≤ i → take n (set xs i v) ≡ take n xs
  take-set_of_le zero i xs v h = refl
  take-set_of_le (suc n) i [] v h = refl
  take-set_of_le (suc n) zero (x ∷ xs) v h = absurd (omega arith)
  take-set_of_le (suc n) (suc i) (x ∷ xs) v h =
      ap (λ t. x ∷ t) (take-set_of_le n i xs v (omega arith))

  pub drop-set_of_lt : (n i : ℕ) (xs : List A) (v : A) → i < n → drop n (set xs i v) ≡ drop n xs
  drop-set_of_lt zero i xs v h = absurd (omega arith)
  drop-set_of_lt (suc n) i [] v h = refl
  drop-set_of_lt (suc n) zero (x ∷ xs) v h = refl
  drop-set_of_lt (suc n) (suc i) (x ∷ xs) v h = drop-set_of_lt n i xs v (omega arith)

  pub take-set-suc :
      (i : ℕ) (xs : List A) (v : A)
      → i < length xs
      → take (suc i) (set xs i v) ≡ take i xs ++ v ∷ []
  take-set-suc i [] v h = absurd (omega arith)
  take-set-suc zero (x ∷ xs) v h = refl
  take-set-suc (suc i) (x ∷ xs) v h = ap (λ t. x ∷ t) (take-set-suc i xs v (omega arith))

  pub take-set_of_lt :
      (n i : ℕ) (xs : List A) (v : A) → i < n → take n (set xs i v) ≡ set (take n xs) i v
  take-set_of_lt zero i xs v h = absurd (omega arith)
  take-set_of_lt (suc n) i [] v h = refl
  take-set_of_lt (suc n) zero (x ∷ xs) v h = refl
  take-set_of_lt (suc n) (suc i) (x ∷ xs) v h =
      ap (λ t. x ∷ t) (take-set_of_lt n i xs v (omega arith))

  pub get_elem?-take : (n i : ℕ) (xs : List A) → i < n → get_elem? (take n xs) i ≡ get_elem? xs i
  get_elem?-take zero i xs h = absurd (omega arith)
  get_elem?-take (suc n) i [] h = refl
  get_elem?-take (suc n) zero (x ∷ xs) h = refl
  get_elem?-take (suc n) (suc i) (x ∷ xs) h = get_elem?-take n i xs (omega arith)

  pub take-append : (xs ys : List A) (n : ℕ) → n ≡ length xs → take n (xs ++ ys) ≡ xs
  take-append [] ys zero h = refl
  take-append [] ys (suc n) h = absurd (omega arith)
  take-append (x ∷ xs) ys zero h = absurd (omega arith)
  take-append (x ∷ xs) ys (suc n) h = ap (λ t. x ∷ t) (take-append xs ys n (omega arith))

  pub take-append_of_le : (xs ys : List A) (n : ℕ) → n ≤ length xs → take n (xs ++ ys) ≡ take n xs
  take-append_of_le xs ys zero h = refl
  take-append_of_le [] ys (suc n) h = absurd (omega arith)
  take-append_of_le (x ∷ xs) ys (suc n) h =
      ap (λ t. x ∷ t) (take-append_of_le xs ys n (omega arith))

  pub take-take : (m n : ℕ) (xs : List A) → m ≤ n → take m (take n xs) ≡ take m xs
  take-take zero n xs h = refl
  take-take (suc m) zero xs h = absurd (omega arith)
  take-take (suc m) (suc n) [] h = refl
  take-take (suc m) (suc n) (x ∷ xs) h = ap (λ t. x ∷ t) (take-take m n xs (omega arith))

  pub drop-replicate : (m n : ℕ) (a : A) → drop m (replicate n a) ≡ replicate (n - m) a
  drop-replicate zero n a = ap (λ k. replicate k a) {x = n} {y = n - zero} (omega arith)
  drop-replicate (suc m) zero a = ap (λ k. replicate k a) {x = 0} {y = 0 - suc m} (omega arith)
  drop-replicate (suc m) (suc n) a =
      drop-replicate m n a ∙ ap (λ k. replicate k a) {x = n - m} {y = suc n - suc m} (omega arith)

  pub drop-take : (m n : ℕ) (xs : List A) → drop m (take n xs) ≡ take (n - m) (drop m xs)
  drop-take zero n xs = ap (λ k. take k xs) {x = n} {y = n - 0} (omega arith)
  drop-take (suc m) zero xs =
      ap (λ k. take k (drop (suc m) xs)) {x = 0} {y = 0 - suc m} (omega arith)
  drop-take (suc m) (suc n) [] = nothing (suc n - suc m)
    where
      nothing : (k : ℕ) → ◌≡◌ {A = List A} [] (take k [])
      nothing zero = refl
      nothing (suc k) = refl
  drop-take (suc m) (suc n) (x ∷ xs) =
      drop-take m n xs ∙ ap (λ k. take k (drop m xs)) {x = n - m} {y = suc n - suc m} (omega arith)

  pub get_or-set_self :
      (xs : List A) (i : ℕ) (v d : A) → i < length xs → get_or (set xs i v) i d ≡ v
  get_or-set_self [] i v d h = absurd (omega arith)
  get_or-set_self (x ∷ xs) zero v d h = refl
  get_or-set_self (x ∷ xs) (suc i) v d h = get_or-set_self xs i v d (omega arith)

  pub get_or-set_ne :
      (xs : List A) (i j : ℕ) (v d : A) → i ≢ j → get_or (set xs i v) j d ≡ get_or xs j d
  get_or-set_ne [] i j v d h = refl
  get_or-set_ne (x ∷ xs) zero zero v d h = absurd (h refl)
  get_or-set_ne (x ∷ xs) zero (suc j) v d h = refl
  get_or-set_ne (x ∷ xs) (suc i) zero v d h = refl
  get_or-set_ne (x ∷ xs) (suc i) (suc j) v d h = get_or-set_ne xs i j v d (λ e. h (ap suc e))

  pub get_elem?-get_or :
      (xs : List A) (i : ℕ) (d : A) → i < length xs → get_elem? xs i ≡ some (get_or xs i d)
  get_elem?-get_or [] i d h = absurd (omega arith)
  get_elem?-get_or (x ∷ xs) zero d h = refl
  get_elem?-get_or (x ∷ xs) (suc i) d h = get_elem?-get_or xs i d (omega arith)

pub take-nil {ℓ} : (A : Type ℓ) (n : ℕ) → take {A = A} n [] ≡ []
take-nil A zero = refl
take-nil A (suc n) = refl
