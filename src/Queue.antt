-- ===== src/Queue.antt =====
-- kern/lib/queue.c: a queue of pointers in a circular block that doubles when it is full. `A` is
-- the type of the pointers; a cell that has never been written holds `none`. One cell stays free,
-- so that a full queue is not taken for an empty one. `mem` says for which sizes kmalloc returns
-- a block during the call. q_addtail and q_grow call one another, so they take the depth that the
-- calls may reach (two is enough: `Queue.Ops`).
pub mod Window
pub mod Ops
pub mod Refine
pub mod Head
mod Tests
use ece344_operating_systems.Base.{
  ℕ, zero, suc, ◌+◌, ◌*◌, ◌%◌, ◌^◌, Bool, true, false, ◌&&◌, not, Option, none, some, List, ltb,
  ◌==◌, if◌then◌else◌, Run, done, spin, ◌>>=◌, ◌>>◌, require, defined, load, store,
}
use ece344_operating_systems.Base.Errno.{enomem}
use ece344_operating_systems.Array.{bytes, fresh_cells}

-- `struct queue`; `cells` is the block at `data`.
pub record Queue {ℓ} (A : Type ℓ) : Type ℓ where
  pub size : ℕ
  pub nextwrite : ℕ
  pub nextread : ℕ
  pub cells : List (Option A)

-- `while (nsize < targetsize) { nsize *= 2; assert(nsize > 0); }`
unfoldable pub grow_size : ℕ → ℕ → ℕ → Run ℕ
grow_size zero target nsize = spin
grow_size (suc fuel) target nsize =
    let again = grow_size fuel target (nsize * 2) in
    if ltb nsize target
    then (defined (ltb (nsize * 2) (2 ^ 31)) >> require (ltb 0 (nsize * 2)) >> again)
    else done nsize

-- q_addtail, as q_grow calls it
abbrev pub Adder {ℓ} : Type ℓ → Type ℓ
Adder A = Queue A → Option A → Run (ℕ × Queue A)

module _ {ℓ} {A : Type ℓ} where
  -- `for (i=onr; i!=onw; i = (i+1)%osize) { result = q_addtail(q, olddata[i]); assert(result==0); }`
  unfoldable pub readd : Adder A → ℕ → ℕ → ℕ → ℕ → List (Option A) → Queue A → Run (Queue A)
  readd addtail zero i onw osize olddata q = spin
  readd addtail (suc fuel) i onw osize olddata q = elim (i == onw) [
    | true ↦ done q
    | false ↦ do
      guy ← load olddata i
      (result, q') ← addtail q guy
      require (result == 0)
      readd addtail fuel ((i + 1) % osize) onw osize olddata q'
  ]

  unfoldable pub grow : Adder A → (ℕ → Bool) → Queue A → ℕ → Run (ℕ × Queue A)
  grow addtail mem q targetsize = do
    nsize ← grow_size (suc targetsize) targetsize q.size
    let refused : Run (ℕ × Queue A) = done (enomem, q)
    let moved : Run (ℕ × Queue A) = do
      q' ←
          readd addtail (suc q.size) q.nextread q.nextwrite q.size q.cells
            (record { size = nsize; nextwrite = 0; nextread = 0; cells = fresh_cells nsize })
      done (0, q')
    if mem (bytes nsize) then moved else refused

  unfoldable pub write : Queue A → Option A → ℕ → Run (ℕ × Queue A)
  write q ptr nextnext = do
    cells' ← store q.cells q.nextwrite ptr
    done (0, record q { cells = cells'; nextwrite = nextnext })

  unfoldable pub addtail_at : ℕ → (ℕ → Bool) → Queue A → Option A → Run (ℕ × Queue A)
  addtail_at zero mem q ptr = spin
  addtail_at (suc depth) mem q ptr = do
    require (ltb 0 q.size)
    let nextnext = (q.nextwrite + 1) % q.size
    let grown : Run (ℕ × Queue A) = do
      (result, q') ← grow (addtail_at depth mem) mem q (q.size + 1)
      if result == 0 then write q' ptr ((q'.nextwrite + 1) % q'.size) else done (result, q')
    if nextnext == q.nextread then grown else write q ptr nextnext

  unfoldable pub create : (ℕ → Bool) → ℕ → Option (Queue A)
  create mem size =
      if mem 16 && mem (bytes size)
      then some (record { size = size; nextwrite = 0; nextread = 0; cells = fresh_cells size })
      else none

  unfoldable pub addtail : (ℕ → Bool) → Queue A → A → Run (ℕ × Queue A)
  addtail mem q ptr = addtail_at 2 mem q (some ptr)

  unfoldable pub preallocate : (ℕ → Bool) → Queue A → ℕ → Run (ℕ × Queue A)
  preallocate mem q size = do
    require (ltb 0 q.size)
    let grown = grow (addtail_at 1 mem) mem q size
    if ltb q.size size then grown else done (0, q)

  unfoldable pub empty : Queue A → Bool
  empty q = q.nextwrite == q.nextread

  unfoldable pub remhead : Queue A → Run (Option A × Queue A)
  remhead q = do
    require (ltb 0 q.size)
    require (not (empty q))
    ret ← load q.cells q.nextread
    done (ret, record q { nextread = (q.nextread + 1) % q.size })

  -- The frees leave nothing behind.
  unfoldable pub destroy : Queue A → Run (Unit {0})
  destroy q = require (empty q)

  unfoldable pub getstart : Queue A → ℕ
  getstart q = q.nextread

  unfoldable pub getend : Queue A → ℕ
  getend q = q.nextwrite

  unfoldable pub getsize : Queue A → ℕ
  getsize q = q.size

  unfoldable pub getguy : Queue A → ℕ → Run (Option A)
  getguy q index = do require (ltb index q.size); load q.cells index
