-- ===== src/Bitmap.antt =====
-- kern/lib/bitmap.c: maps of bits. A byte is given by its bits, of which those at 0 to 7 count, so
-- that `|`, `&` and `~` work bit by bit. `mem` says for which sizes kmalloc returns a block during
-- a call, and the arithmetic of u_int32_t wraps around where it can.
pub mod Bits
pub mod Refine
pub mod Create
pub mod Alloc
mod Tests
use ece344_operating_systems.Base.{
  ℕ, zero, suc, ◌+◌, ◌-◌, ◌*◌, ◌/◌, ◌%◌, ◌^◌, Bool, true, false, ◌&&◌, ◌||◌, not, Option, none,
  some, List, replicate, ltb, ◌==◌, if◌then◌else◌, Run, done, panic, ◌>>=◌, ◌>>◌, require, load,
  store,
}
use ece344_operating_systems.Base.Errno.{enospc}

abbrev pub Word : Type 0
Word = ℕ → Bool

-- The number that the lowest `n` bits make.
pub value_below : ℕ → Word → ℕ
value_below zero w = 0
value_below (suc n) w = (if w n then 2 ^ n else 0) + value_below n w

unfoldable pub value : Word → ℕ
value w = value_below 8 w

abbrev pub or_word : Word → Word → Word
or_word w m j = w j || m j

abbrev pub and_word : Word → Word → Word
and_word w m j = w j && m j

abbrev pub not_word : Word → Word
not_word w j = not (w j)

-- `((WORD_TYPE)1) << offset`
abbrev pub mask : ℕ → Word
mask offset j = j == offset

abbrev pub zero_word : Word
zero_word j = false

pub record Bitmap : Type 0 where
  pub nbits : ℕ
  pub v : List Word

-- `DIVROUNDUP(nbits, BITS_PER_WORD)`
abbrev pub words : ℕ → ℕ
words nbits = (nbits + 7) % 2 ^ 32 / 8

-- `for (j=overbits; j<BITS_PER_WORD; j++) b->v[ix] |= ((WORD_TYPE)1 << j);` with `rounds` to go
unfoldable pub mark_rest : ℕ → ℕ → ℕ → List Word → Run (List Word)
mark_rest zero j ix v = done v
mark_rest (suc rounds) j ix v = do
  w ← load v ix
  v' ← store v ix (or_word w (mask j))
  mark_rest rounds (j + 1) ix v'

unfoldable pub bitmap_create : (ℕ → Bool) → ℕ → Run (Option Bitmap)
bitmap_create mem nbits =
    let n = words nbits in
    let ix = n - 1 in
    let overbits = (nbits + 2 ^ 32 - ix * 8) % 2 ^ 32 in
    let marked : Run (Option Bitmap) = do
      require (nbits / 8 == n - 1)
      require (ltb 0 overbits && ltb overbits 8)
      v ← mark_rest (8 - overbits) overbits ix (replicate n zero_word)
      done (some (record { nbits = nbits; v = v }))
    in let made : Run (Option Bitmap) =
        if ltb (nbits / 8) n
        then marked
        else done (some (record { nbits = nbits; v = replicate n zero_word })) in
      if mem 8 && mem n then made else done none

unfoldable pub bitmap_getdata : Bitmap → List Word
bitmap_getdata b = b.v

-- The inner loop of bitmap_alloc in byte `ix`, which is `w`, and assert(0) behind it.
unfoldable pub alloc_bit : ℕ → ℕ → ℕ → Word → Bitmap → Run (ℕ × Option ℕ × Bitmap)
alloc_bit zero offset ix w b = panic
alloc_bit (suc rounds) offset ix w b =
    let found : Run (ℕ × Option ℕ × Bitmap) = do
      v' ← store b.v ix (or_word w (mask offset))
      let index = (ix * 8 + offset) % 2 ^ 32
      require (ltb index b.nbits)
      done (0, some index, record b { v = v' })
    in let next = alloc_bit rounds (offset + 1) ix w b in
      if value (and_word w (mask offset)) == 0 then found else next

-- The outer loop, with `rounds` to go.
unfoldable pub alloc_from : ℕ → ℕ → Bitmap → Run (ℕ × Option ℕ × Bitmap)
alloc_from zero ix b = done (enospc, none, b)
alloc_from (suc rounds) ix b = do
  w ← load b.v ix
  let next = alloc_from rounds (ix + 1) b
  if value w == 0xff then next else alloc_bit 8 0 ix w b

-- The error code, `*index` where it is written, and the map.
unfoldable pub bitmap_alloc : Bitmap → Run (ℕ × Option ℕ × Bitmap)
bitmap_alloc b = alloc_from (words b.nbits) 0 b

unfoldable pub bitmap_translate : ℕ → ℕ × Word
bitmap_translate bitno = (bitno / 8, mask (bitno % 8))

unfoldable pub bitmap_mark : Bitmap → ℕ → Run Bitmap
bitmap_mark b index = do
  require (ltb index b.nbits)
  let (ix, m) = bitmap_translate index
  w ← load b.v ix
  require (value (and_word w m) == 0)
  v' ← store b.v ix (or_word w m)
  done (record b { v = v' })

unfoldable pub bitmap_unmark : Bitmap → ℕ → Run Bitmap
bitmap_unmark b index = do
  require (ltb index b.nbits)
  let (ix, m) = bitmap_translate index
  w ← load b.v ix
  require (not (value (and_word w m) == 0))
  v' ← store b.v ix (and_word w (not_word m))
  done (record b { v = v' })

unfoldable pub bitmap_isset : Bitmap → ℕ → Run ℕ
bitmap_isset b index = do
  let (ix, m) = bitmap_translate index
  w ← load b.v ix
  done (value (and_word w m))
