-- ===== src/Array.antt =====
-- kern/lib/array.c: an array of pointers that grows. `A` is the type of the pointers; a cell that
-- has never been written holds `none`. An `int` is a number that is not negative, so the tests
-- `>= 0` of the asserts hold by type; a signed overflow is `undef`. `mem` says for which sizes
-- kmalloc returns a block during the call.
pub mod Grow
pub mod Inv
pub mod Ops
pub mod Remove
pub mod Reserve
mod Tests
use ece344_operating_systems.Base.{
  ℕ, zero, suc, ◌+◌, ◌-◌, ◌*◌, ◌/◌, ◌%◌, ◌^◌, Bool, true, false, ◌&&◌, not, Option, none, some,
  List, ◌++◌, ltb, leb, ◌==◌, if◌then◌else◌, Run, done, undef, spin, ◌>>=◌, ◌>>◌, require, defined,
  load, store, deref, length, take, drop, replicate,
}
use ece344_operating_systems.Base.Errno.{enomem}

-- `v` is NULL or points to a block of cells.
pub record Array {ℓ} (A : Type ℓ) : Type ℓ where
  pub num : ℕ
  pub max : ℕ
  pub v : Option (List (Option A))

-- The cells of a block of `n * sizeof(void *)` bytes: the product is a 32-bit size_t.
abbrev pub bytes : ℕ → ℕ
bytes n = n * 4 % 2 ^ 32

-- `while (nguys > newmax) newmax = (newmax+1)*2;`
unfoldable pub grow_max : ℕ → ℕ → ℕ → Run ℕ
grow_max zero nguys newmax = spin
grow_max (suc fuel) nguys newmax =
    let again = grow_max fuel nguys ((newmax + 1) * 2) in
    if ltb newmax nguys then defined (ltb ((newmax + 1) * 2) (2 ^ 31)) >> again else done newmax

module _ {ℓ} {A : Type ℓ} where
  unfoldable pub create : (ℕ → Bool) → Option (Array A)
  create mem = if mem 12 then some (record { num = 0; max = 0; v = none }) else none

  unfoldable pub getnum : Array A → ℕ
  getnum a = a.num

  unfoldable pub getguy : Array A → ℕ → Run (Option A)
  getguy a index = do
    require (leb a.num a.max)
    require (ltb index a.num)
    cells ← deref a.v
    load cells index

  -- `for (i=0; i<a->num; i++) newv[i] = a->v[i];` with `rounds` to go
  unfoldable pub copy_cells :
      ℕ → ℕ → Option (List (Option A)) → List (Option A) → Run (List (Option A))
  copy_cells zero i v newv = done newv
  copy_cells (suc rounds) i v newv = do
    cells ← deref v
    x ← load cells i
    newv' ← store newv i x
    copy_cells rounds (i + 1) v newv'

  -- A block that kmalloc has just returned.
  abbrev pub fresh_cells : ℕ → List (Option A)
  fresh_cells n = replicate (bytes n / 4) none

  unfoldable pub preallocate : (ℕ → Bool) → Array A → ℕ → Run (ℕ × Array A)
  preallocate mem a nguys = do
    require (leb a.num a.max)
    newmax ← grow_max (suc nguys) nguys a.max
    let refused : Run (ℕ × Array A) = done (enomem, a)
    let moved : Run (ℕ × Array A) = do
      newv ← copy_cells a.num 0 a.v (fresh_cells newmax)
      done (0, record { num = a.num; max = newmax; v = some newv })
    if mem (bytes newmax) then moved else refused

  abbrev is_null : Option (List (Option A)) → Bool
  is_null none = true
  is_null (some cells) = false

  unfoldable pub setsize : (ℕ → Bool) → Array A → ℕ → Run (ℕ × Array A)
  setsize mem a nguys = do
    require (leb a.num a.max)
    let grown : Run (ℕ × Array A) = do
      (result, a') ← preallocate mem a nguys
      done (if result == 0 then (0, record a' { num = nguys }) else (result, a'))
    let emptied : Run (ℕ × Array A) = do
      require (not (is_null a.v))
      done (0, record { num = nguys; max = 0; v = none })
    if ltb a.max nguys
        then grown
        else if nguys == 0 && ltb 16 a.max
        then emptied
        else done (0, record a { num = nguys })

  unfoldable pub setguy : Array A → ℕ → A → Run (Array A)
  setguy a index ptr = do
    require (leb a.num a.max)
    require (ltb index a.num)
    cells ← deref a.v
    cells' ← store cells index (some ptr)
    done (record a { v = some cells' })

  unfoldable pub add : (ℕ → Bool) → Array A → A → Run (ℕ × Array A)
  add mem a guy = do
    let ix = a.num
    (result, a') ← setsize mem a (ix + 1)
    let stored : Run (ℕ × Array A) = do
      cells ← deref a'.v
      cells' ← store cells ix (some guy)
      done (0, record a' { v = some cells' })
    if result == 0 then stored else done (result, a')

  -- memmove of `n` cells from `src` to `dst`, both in the block `cells`
  unfoldable pub memmove_cells : List (Option A) → ℕ → ℕ → ℕ → Run (List (Option A))
  memmove_cells cells dst src n =
      if leb (dst + n) (length cells) && leb (src + n) (length cells)
      then done (take dst cells ++ (take n (drop src cells) ++ drop (dst + n) cells))
      else undef

  unfoldable pub remove : Array A → ℕ → Run (Array A)
  remove a index = do
    require (leb a.num a.max)
    require (ltb index a.num)
    let nmove = a.num - (index + 1)
    cells ← deref a.v
    cells' ← memmove_cells cells index (index + 1) nmove
    done (record a { num = a.num - 1; v = some cells' })
