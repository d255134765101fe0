-- ===== src/Uio.antt =====
-- kern/userprog/uio.c: moving data between a kernel buffer and what a `struct uio` describes. Both
-- enums have only the values that the code tests for. The base of the block is one address, of
-- kernel or of user memory by `segflg`, and `space_ok` is whether `uio_space` is as uiomove
-- asserts. off_t is kept from its overflow, and the unsigned fields wrap around.
pub mod Move
mod Tests
use ece344_operating_systems.Base.{
  ℕ, zero, suc, ◌+◌, ◌-◌, ◌%◌, ◌^◌, Bool, true, false, ◌&&◌, Option, none, some, List, [], ◌∷◌, ltb,
  leb, ◌==◌, if◌then◌else◌, get_or, length, Run, done, panic, spin, ◌>>=◌, ◌>>◌, require, defined,
  deref,
}
use ece344_operating_systems.Copy.{User, copyin, copyout}

pub data UioRw : Type 0 where
  uio_read : UioRw
  uio_write : UioRw

pub data UioSeg : Type 0 where
  uio_userspace : UioSeg
  uio_sysspace : UioSeg
  uio_userispace : UioSeg

pub record Uio : Type 0 where
  pub base : ℕ
  pub len : ℕ
  pub offset : ℕ
  pub resid : ℕ
  pub segflg : UioSeg
  pub rw : UioRw
  pub space_ok : Bool

pub record Memory : Type 0 where
  pub kernel : ℕ → ℕ
  pub user : User

-- memmove of `n` bytes, whether or not the blocks overlap.
abbrev pub memmove : ℕ → ℕ → ℕ → (ℕ → ℕ) → ℕ → ℕ
memmove dst src n byte a = if leb dst a && ltb a (dst + n) then byte (src + (a - dst)) else byte a

-- The bytes of a kernel buffer, and a kernel buffer that is filled with bytes.
abbrev pub buffer : (ℕ → ℕ) → ℕ → ℕ → List ℕ
buffer byte ptr zero = []
buffer byte ptr (suc n) = byte ptr ∷ buffer byte (ptr + 1) n

abbrev pub fill : ℕ → List ℕ → (ℕ → ℕ) → ℕ → ℕ
fill ptr bs byte a = if leb ptr a && ltb a (ptr + length bs) then get_or bs (a - ptr) 0 else byte a

-- The `switch`: the code, and the memory.
unfoldable pub move_block : ℕ → ℕ → Uio → Memory → Run (ℕ × Memory)
move_block ptr size u m = elim u.segflg [
  | uio_sysspace ↦ elim u.rw [
    | uio_read ↦ done (0, record m { kernel = memmove u.base ptr size m.kernel })
    | uio_write ↦ done (0, record m { kernel = memmove ptr u.base size m.kernel })
  ]
  | uio_userspace ↦ user_block ptr size u m
  | uio_userispace ↦ user_block ptr size u m
]
  where
    user_block : ℕ → ℕ → Uio → Memory → Run (ℕ × Memory)
    user_block ptr size u m = elim u.rw [
      | uio_read ↦ do
        (result, user') ← copyout m.user (buffer m.kernel ptr size) u.base size
        done (result, record m { user = user' })
      | uio_write ↦ do
        (result, bytes, user') ← copyin m.user u.base size
        done (
          result,
          elim bytes [
            | none ↦ record m { user = user' }
            | some bs ↦ record { kernel = fill ptr bs m.kernel; user = user' }
          ],
        )
    ]

-- The fields after `size` bytes.
unfoldable pub advance : ℕ → Uio → Run Uio
advance size u = do
  defined (ltb (u.offset + size) (2 ^ 31))
  done (record u {
    base = (u.base + size) % 2 ^ 32;
    len = u.len - size;
    offset = u.offset + size;
    resid = (u.resid + 2 ^ 32 - size) % 2 ^ 32;
  })

-- The loop of uiomove.
unfoldable pub uiomove_loop : ℕ → ℕ → ℕ → Uio → Memory → Run (ℕ × Uio × Memory)
uiomove_loop zero ptr n u m = spin
uiomove_loop (suc fuel) ptr n u m =
    let size = if ltb n u.len then n else u.len in
    let turn : Run (ℕ × Uio × Memory) = do
      require (ltb 0 size)
      (result, m') ← move_block ptr size u m
      let moved : Run (ℕ × Uio × Memory) = do
        u' ← advance size u
        uiomove_loop fuel (ptr + size) (n - size) u' m'
      if result == 0 then moved else done (result, u, m')
    in if ltb 0 n && ltb 0 u.resid then turn else done (0, u, m)

unfoldable pub uiomove : ℕ → ℕ → Uio → Memory → Run (ℕ × Uio × Memory)
uiomove ptr n u m = do require u.space_ok; uiomove_loop (suc n) ptr n u m

-- The loop of uiomovezeros; `zero_block` is the address of its 16 bytes.
unfoldable pub uiomovezeros_loop : ℕ → ℕ → ℕ → Uio → Memory → Run (ℕ × Uio × Memory)
uiomovezeros_loop zero zero_block n u m = spin
uiomovezeros_loop (suc fuel) zero_block n u m =
    let amt = if ltb n 16 then n else 16 in
    let turn : Run (ℕ × Uio × Memory) = do
      (result, u', m') ← uiomove zero_block amt u m
      let next = uiomovezeros_loop fuel zero_block (n - amt) u' m'
      if result == 0 then next else done (result, u', m')
    in if ltb 0 n then turn else done (0, u, m)

unfoldable pub uiomovezeros : ℕ → ℕ → Uio → Memory → Run (ℕ × Uio × Memory)
uiomovezeros zero_block n u m = do
  require (elim u.rw [ uio_read ↦ true | uio_write ↦ false ])
  uiomovezeros_loop (suc n) zero_block n u m

unfoldable pub mk_kuio : ℕ → ℕ → ℕ → UioRw → Uio
mk_kuio kbuf len pos rw = record {
  base = kbuf;
  len = len;
  offset = pos;
  resid = len;
  segflg = uio_sysspace;
  rw = rw;
  space_ok = true;
}
