-- ===== src/Base/Outcome.antt =====
-- The outcome of a piece of C: a value, a failed assert or panic, behaviour that C leaves undefined
-- (a signed overflow, an access outside an object or through NULL), or a loop out of fuel.
use mathlib.Core.Bool.{Bool, true, false}
use mathlib.Core.Option.{Option, none, some}
use mathlib.Core.List.{List}
use mathlib.Core.Path.{◌≡◌, refl}
use Prim.Native.Nat.{ℕ, ◌<◌}
use native.Mathlib.Omega.{arith}
use ece344_operating_systems.Base.Lists.{length, get_elem?, set}
use ece344_operating_systems.Base.Tests.{ltb, if◌then◌else◌}

pub data Run {ℓ} (A : Type ℓ) : Type ℓ where
  done : A → Run A
  panic : Run A
  undef : Run A
  spin : Run A

infixl 5 ◌>>=◌ ◌>>◌
abbrev pub ◌>>=◌ {ℓ κ} : {A : Type ℓ} {B : Type κ} → Run A → (A → Run B) → Run B
done a >>= f = f a
panic >>= f = panic
undef >>= f = undef
spin >>= f = spin

abbrev pub ◌>>◌ {ℓ} : {B : Type ℓ} → Run (Unit {0}) → Run B → Run B
m >> k = m >>= λ _. k

-- `assert(b)`
abbrev pub require : Bool → Run (Unit {0})
require true = done tt
require false = panic

-- What C demands of an expression before it has a meaning.
abbrev pub defined : Bool → Run (Unit {0})
defined true = done tt
defined false = undef

module _ {ℓ} {A : Type ℓ} where
  -- `v[i]` as a value and as the target of an assignment
  unfoldable pub load : List A → ℕ → Run A
  load xs i = elim (get_elem? xs i) [ none ↦ undef | some x ↦ done x ]

  unfoldable pub store : List A → ℕ → A → Run (List A)
  store xs i x = if ltb i (length xs) then done (set xs i x) else undef

  -- `*p` for a pointer that may be NULL
  abbrev pub deref : Option A → Run A
  deref none = undef
  deref (some x) = done x

  pub load_lem : (xs : List A) (i : ℕ) {x : A} → get_elem? xs i ≡ some x → load xs i ≡ done x
  unfolding load
  load_lem xs i h = ground arith

  pub store_lem : (xs : List A) (i : ℕ) (x : A) → i < length xs → store xs i x ≡ done (set xs i x)
  unfolding store
  store_lem xs i x h = ground arith

pub >>=-eq-done {ℓ κ} :
    {A : Type ℓ} {B : Type κ} (m : Run A) (f : A → Run B) {b : B}
    → (m >>= f) ≡ done b
    → (a : A) × (m ≡ done a) × (f a ≡ done b)
>>=-eq-done (done a) f h = (a, refl, h)
>>=-eq-done panic f h = cc
>>=-eq-done undef f h = cc
>>=-eq-done spin f h = cc
