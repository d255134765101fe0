-- ===== src/Base/Members.antt =====
-- Membership in a list of numbers as a test, and lists without repetition.
use Prim.Native.Nat.{ℕ}
use mathlib.Core.Path.{◌≡◌}
use mathlib.Core.Logic.{◌≢◌}
use mathlib.Core.Bool.{Bool, true, false}
use mathlib.Core.List.{List, [], ◌∷◌}
use native.Mathlib.Omega.{arith}
use ece344_operating_systems.Base.Tests.{◌==◌, if◌then◌else◌}

abbrev pub member : ℕ → List ℕ → Bool
member t [] = false
member t (z ∷ zs) = if t == z then true else member t zs

-- No number stands in the list twice.
abbrev pub Distinct : List ℕ → Type 0
Distinct [] = Unit
Distinct (x ∷ xs) = (member x xs ≡ false) × Distinct xs

pub member-tail : (x y : ℕ) (ys : List ℕ) → member x (y ∷ ys) ≡ false → member x ys ≡ false
member-tail x y ys h = ground arith

pub member-head : (x y : ℕ) (ys : List ℕ) → member x (y ∷ ys) ≡ false → x ≢ y
member-head x y ys h e = ground (arith, h, e)
