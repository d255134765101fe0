-- ===== src/Queue/Window.antt =====
-- kern/lib/queue.c: the cells between two indices of a circular block.
use ece344_operating_systems.Base.{
  ℕ, zero, suc, ◌+◌, ◌-◌, ◌%◌, ◌≤◌, ◌<◌, ◌≡◌, ◌≢◌, refl, ap, ap₂, sym, Option, none, List, [], ◌∷◌,
  ◌++◌, arith, leb, ltb, if◌then◌else◌, length, get_or, set, get_or-set_self, get_or-set_ne,
}

-- The number of steps from index `i` up to index `j`, going round at `n`.
abbrev pub dist : ℕ → ℕ → ℕ → ℕ
dist n i j = if leb i j then j - i else j + n - i

pub next_lem : (n i : ℕ) → i < n → (i + 1) % n ≡ (if ltb (i + 1) n then i + 1 else 0)
next_lem n i h = grind arith

pub dist-next : (n i j : ℕ) → i < n → j < n → i ≢ j → dist n ((i + 1) % n) j + 1 ≡ dist n i j
dist-next n i j hi hj ne = ground (arith, next_lem n i hi)

pub dist-next_end :
    (n i j : ℕ) → i < n → j < n → (j + 1) % n ≢ i → dist n i ((j + 1) % n) ≡ dist n i j + 1
dist-next_end n i j hi hj ne = ground (arith, next_lem n j hj)

pub next_full : (n i j : ℕ) → i < n → j < n → (j + 1) % n ≡ i → dist n i j + 1 ≡ n
next_full n i j hi hj e = ground (arith, next_lem n j hj)

module _ {A : Type 0} (cells : List (Option A)) (n : ℕ) where
  abbrev pub window : ℕ → ℕ → List (Option A)
  window i zero = []
  window i (suc k) = get_or cells i none ∷ window ((i + 1) % n) k

  pub length-window : (i k : ℕ) → length (window i k) ≡ k
  length-window i zero = refl
  length-window i (suc k) = ap suc (length-window ((i + 1) % n) k)

  -- `window` matches on `suc`; the code compares the two ends
  pub window_step :
      (i k m : ℕ) → k ≡ m + 1 → window i k ≡ get_or cells i none ∷ window ((i + 1) % n) m
  window_step i zero m e = absurd (omega arith)
  window_step i (suc k) m e = ap (λ t. window i (suc t)) (omega arith)

-- A write just past the end of the window adds that cell to it.
pub window-set :
    {A : Type 0} (cells : List (Option A)) (x : Option A) (n k i j : ℕ)
    → n ≤ length cells
    → i < n
    → j < n
    → dist n i j ≡ k
    → k + 1 < n
    → window (set cells j x) n i (suc k) ≡ window cells n i k ++ x ∷ []
window-set cells x n zero i j hs hi hj e lt =
    let same : i ≡ j = ground arith in
    rw same (ap (λ c. c ∷ []) (get_or-set_self cells j x none (omega arith)))
window-set cells x n (suc k) i j hs hi hj e lt =
    let apart : i ≢ j = λ p. ground arith in
    ap₂ ◌∷◌ (get_or-set_ne cells j i x none (λ p. apart (sym p))) (
      window-set cells x n k ((i + 1) % n) j hs (omega arith) hj
        (omega (arith, dist-next n i j hi hj apart)) (omega arith))
