-- ===== src/Sfs.antt =====
-- kern/fs/sfs/sfs_vnode.c and sfs_io.c: the blocks of a file. A block of the disk is the function from the
-- number of one of its 128 words to the word. What d_io answers from now on is the list `answers`, and 0
-- behind it; on a 0 the block was transferred, and on any other code nothing was. A buffer that
-- sfs_rblock fills with the code 0 is the block of the disk itself.
pub mod Space
pub mod Mapped
pub mod Bmap
pub mod Alloc
pub mod Trimmed
pub mod Direct
pub mod Entries
pub mod Truncate
mod Tests
use ece344_operating_systems.Base.{
  ℕ, zero, suc, ◌+◌, ◌-◌, ◌*◌, ◌/◌, ◌%◌, ◌^◌, Bool, true, false, ◌&&◌, ◌||◌, not, Option, none,
  some, List, [], ◌∷◌, ltb, leb, ◌==◌, if◌then◌else◌, Run, done, panic, spin, ◌>>=◌, ◌>>◌, require,
  defined, deref,
}
use ece344_operating_systems.Base.Errno.{einval, eio}
use ece344_operating_systems.Bitmap.{Bitmap, bitmap_alloc, bitmap_unmark, bitmap_isset}

abbrev pub ndirect : ℕ
ndirect = 15

abbrev pub dbperidb : ℕ
dbperidb = 128

-- `sfi_direct[i]` is `direct i`.
pub record Inode : Type 0 where
  pub size : ℕ
  pub type : ℕ
  pub linkcount : ℕ
  pub direct : ℕ → ℕ
  pub indirect : ℕ

pub record SfsVnode : Type 0 where
  pub inode : Inode
  pub ino : ℕ
  pub dirty : Bool

-- `nblocks` is that of the superblock.
pub record SfsFs : Type 0 where
  pub nblocks : ℕ
  pub freemap : Bitmap
  pub freemapdirty : Bool
  pub disk : ℕ → ℕ → ℕ
  pub answers : List ℕ

abbrev pub first_answer : List ℕ → ℕ
first_answer [] = 0
first_answer (a ∷ rest) = a

abbrev pub later_answers : List ℕ → List ℕ
later_answers [] = []
later_answers (a ∷ rest) = rest

-- From the label retry on, with `tries` so far.
unfoldable pub rwblock_from : ℕ → ℕ → SfsFs → Run (ℕ × SfsFs)
rwblock_from zero tries fs = spin
rwblock_from (suc fuel) tries fs =
    let result = first_answer fs.answers in
    let fs' : SfsFs = record fs { answers = later_answers fs.answers } in
    let again = rwblock_from fuel (tries + 1) fs' in
    if result == einval
    then panic
    else if result == eio && ltb tries 10
    then again
    else done (result, fs')

unfoldable pub sfs_rwblock : SfsFs → Run (ℕ × SfsFs)
sfs_rwblock fs = rwblock_from 11 0 fs

abbrev pub set_block : ℕ → (ℕ → ℕ) → SfsFs → SfsFs
set_block block data_words fs = record fs {
  disk = λ b. if b == block then data_words else fs.disk b;
}

unfoldable pub sfs_wblock : (ℕ → ℕ) → ℕ → SfsFs → Run (ℕ × SfsFs)
sfs_wblock data_words block fs = do
  (result, fs') ← sfs_rwblock fs
  done (result, if result == 0 then set_block block data_words fs' else fs')

unfoldable pub sfs_clearblock : ℕ → SfsFs → Run (ℕ × SfsFs)
sfs_clearblock block fs = sfs_wblock (λ w. 0) block fs

-- The code, and `*diskblock` where bitmap_alloc has written it, as it does with the code 0.
unfoldable pub sfs_balloc : SfsFs → Run (ℕ × Option ℕ × SfsFs)
sfs_balloc fs = do
  (result, index, freemap) ← bitmap_alloc fs.freemap
  elim index [
    | none ↦ done (result, none, record fs { freemap = freemap })
    | some block ↦ do
      let fs₁ : SfsFs = record fs { freemap = freemap; freemapdirty = true }
      require (ltb block fs.nblocks)
      (result, fs₂) ← sfs_clearblock block fs₁
      done (result, some block, fs₂)
  ]

unfoldable pub sfs_bfree : ℕ → SfsFs → Run SfsFs
sfs_bfree diskblock fs = do
  freemap ← bitmap_unmark fs.freemap diskblock
  done (record fs { freemap = freemap; freemapdirty = true })

unfoldable pub sfs_bused : ℕ → SfsFs → Run ℕ
sfs_bused diskblock fs = do require (ltb diskblock fs.nblocks); bitmap_isset fs.freemap diskblock

-- The code, `*diskblock`, and the state.
abbrev pub Mapping : Type 0
Mapping = Run (ℕ × Option ℕ × SfsFs × SfsVnode)

unfoldable pub hand_back : ℕ → SfsFs → SfsVnode → Mapping
hand_back block fs sv =
    let checked : Mapping = do
      used ← sfs_bused block fs
      require (not (used == 0))
      done (0, some block, fs, sv)
    in if block == 0 then done (0, some block, fs, sv) else checked

abbrev pub set_direct : ℕ → ℕ → SfsVnode → SfsVnode
set_direct i block sv = record sv {
  inode = record sv.inode { direct = λ k. if k == i then block else sv.inode.direct k };
  dirty = true;
}

abbrev pub set_indirect : ℕ → SfsVnode → SfsVnode
set_indirect block sv = record sv { inode = record sv.inode { indirect = block }; dirty = true }

-- One of the direct blocks.
unfoldable pub bmap_direct : ℕ → Bool → SfsFs → SfsVnode → Mapping
bmap_direct fileblock doalloc fs sv =
    let fresh : Mapping = do
      (result, found, fs₁) ← sfs_balloc fs
      let taken : Mapping = do
        block ← deref found
        hand_back block fs₁ (set_direct fileblock block sv)
      if result == 0 then taken else done (result, none, fs₁, sv)
    in let block = sv.inode.direct fileblock in
      if block == 0 && doalloc then fresh else hand_back block fs sv

abbrev pub set_word : ℕ → ℕ → (ℕ → ℕ) → ℕ → ℕ
set_word i value words k = if k == i then value else words k

-- From `block = idbuf[idoff]` on.
unfoldable pub bmap_entry : ℕ → Bool → ℕ → (ℕ → ℕ) → SfsFs → SfsVnode → Mapping
bmap_entry idoff doalloc idblock idbuf fs sv =
    let fresh : Mapping = do
      (result, found, fs₁) ← sfs_balloc fs
      let taken : Mapping = do
        block ← deref found
        (result, fs₂) ← sfs_wblock (set_word idoff block idbuf) idblock fs₁
        let back = hand_back block fs₂ sv
        if result == 0 then back else done (result, none, fs₂, sv)
      if result == 0 then taken else done (result, none, fs₁, sv)
    in if idbuf idoff == 0 && doalloc then fresh else hand_back (idbuf idoff) fs sv

-- A block behind the direct ones, with `idoff` its place in the indirect block.
unfoldable pub bmap_indirect : ℕ → Bool → SfsFs → SfsVnode → Mapping
bmap_indirect idoff doalloc fs sv =
    let idblock = sv.inode.indirect in
    let fresh : Mapping = do
      (result, found, fs₁) ← sfs_balloc fs
      let taken : Mapping = do
        new_block ← deref found
        bmap_entry idoff doalloc new_block (λ w. 0) fs₁ (set_indirect new_block sv)
      if result == 0 then taken else done (result, none, fs₁, sv)
    in let loaded : Mapping = do
      (result, fs₁) ← sfs_rwblock fs
      let entry = bmap_entry idoff doalloc idblock (fs₁.disk idblock) fs₁ sv
      if result == 0 then entry else done (result, none, fs₁, sv)
      in if idblock == 0 && not doalloc
        then done (0, some 0, fs, sv)
        else if idblock == 0
        then fresh
        else loaded

unfoldable pub sfs_bmap : ℕ → Bool → SfsFs → SfsVnode → Mapping
sfs_bmap fileblock doalloc fs sv =
    let idnum = (fileblock - ndirect) / dbperidb in
    let idoff = (fileblock - ndirect) % dbperidb in
    let indirect : Mapping =
      if ltb 0 idnum then done (einval, none, fs, sv) else bmap_indirect idoff doalloc fs sv in
    if ltb fileblock ndirect then bmap_direct fileblock doalloc fs sv else indirect

-- The loop of sfs_truncate over the direct blocks, with `rounds` to go.
unfoldable pub free_direct : ℕ → ℕ → ℕ → SfsFs → SfsVnode → Run (SfsFs × SfsVnode)
free_direct zero i blocklen fs sv = done (fs, sv)
free_direct (suc rounds) i blocklen fs sv =
    let block = sv.inode.direct i in
    let freed : Run (SfsFs × SfsVnode) = do
      fs₁ ← sfs_bfree block fs
      free_direct rounds (i + 1) blocklen fs₁ (set_direct i 0 sv)
    in let kept = free_direct rounds (i + 1) blocklen fs sv in
      if leb blocklen i && not (block == 0) then freed else kept

-- The loop over the indirect block: the buffer, hasnonzero and iddirty, and the state.
unfoldable pub free_entries :
    ℕ → ℕ → ℕ → (ℕ → ℕ) → Bool → Bool → SfsFs → Run ((ℕ → ℕ) × Bool × Bool × SfsFs)
free_entries zero j blocklen idbuf hasnonzero iddirty fs = done (idbuf, hasnonzero, iddirty, fs)
free_entries (suc rounds) j blocklen idbuf hasnonzero iddirty fs =
    let freed : Run ((ℕ → ℕ) × Bool × Bool × SfsFs) = do
      fs₁ ← sfs_bfree (idbuf j) fs
      free_entries rounds (j + 1) blocklen (set_word j 0 idbuf) hasnonzero true fs₁
    in let kept =
        free_entries rounds (j + 1) blocklen idbuf (if idbuf j == 0 then hasnonzero else true)
          iddirty fs in
      if ltb blocklen (ndirect + j) && not (idbuf j == 0) then freed else kept

-- What is done about the indirect block `idblock`.
unfoldable pub truncate_indirect : ℕ → ℕ → SfsFs → SfsVnode → Run (ℕ × SfsFs × SfsVnode)
truncate_indirect blocklen idblock fs sv =
    let read : Run (ℕ × SfsFs × SfsVnode) = do
      (result, fs₁) ← sfs_rwblock fs
      let work : Run (ℕ × SfsFs × SfsVnode) = do
        (idbuf, hasnonzero, iddirty, fs₂) ←
            free_entries dbperidb 0 blocklen (fs₁.disk idblock) false false fs₁
        let empty : Run (ℕ × SfsFs × SfsVnode) = do
          fs₃ ← sfs_bfree idblock fs₂
          done (0, fs₃, set_indirect 0 sv)
        let written : Run (ℕ × SfsFs × SfsVnode) = do
          (result, fs₃) ← sfs_wblock idbuf idblock fs₂
          done (result, fs₃, sv)
        if not hasnonzero then empty else if iddirty then written else done (0, fs₂, sv)
      if result == 0 then work else done (result, fs₁, sv)
    in if ltb blocklen (ndirect + dbperidb - 1) && not (idblock == 0)
      then read
      else done (0, fs, sv)

-- `DIVROUNDUP(len, SFS_BLOCKSIZE)`
unfoldable pub sfs_truncate : ℕ → SfsFs → SfsVnode → Run (ℕ × SfsFs × SfsVnode)
sfs_truncate len fs sv = do
  defined (ltb (len + 512) (2 ^ 31))
  let blocklen = (len + 511) / 512
  (fs₁, sv₁) ← free_direct ndirect 0 blocklen fs sv
  (result, fs₂, sv₂) ← truncate_indirect blocklen sv₁.inode.indirect fs₁ sv₁
  let sized : SfsVnode = record sv₂ { inode = record sv₂.inode { size = len }; dirty = true }
  if result == 0 then done (0, fs₂, sized) else done (result, fs₂, sv₂)
