-- ===== src/Sfs/Space.antt =====
-- kern/fs/sfs/sfs_vnode.c and sfs_io.c: the blocks that are in use, and transfers to the device.
use ece344_operating_systems.Base.{
  ℕ, zero, suc, ◌+◌, ◌≤◌, ◌<◌, ◌≡◌, ◌≢◌, ◌⊎◌, refl, ap, sym, ◌∙◌, inl, inr, Bool, true, false, none,
  some, List, [], ◌∷◌, ◌++◌, replicate, arith, ◌==◌, if◌then◌else◌, done, panic, Run, ℕ_discrete,
  dec_lt,
}
use ece344_operating_systems.Base.Errno.{einval, eio, enospc}
use ece344_operating_systems.Bitmap.Refine.{bit, IsValid, bitmap_unmark_lem, bitmap_isset_lem}
use ece344_operating_systems.Bitmap.Alloc.{bitmap_alloc_lem}
use ece344_operating_systems.Sfs.{
  SfsFs, rwblock_from, sfs_rwblock, set_block, sfs_wblock, sfs_clearblock, sfs_balloc, sfs_bfree,
  sfs_bused,
}

-- The device answers 0 for all that follows.
abbrev pub Works : SfsFs → Type 0
Works fs = fs.answers ≡ []

abbrev pub in_use : SfsFs → ℕ → Bool
in_use fs i = bit fs.freemap i

-- Every block of the disk has a bit, the bits behind the last block are set, and the superblock is in use.
pub record IsSpace (fs : SfsFs) : Type 0 where
  pub map : IsValid fs.freemap
  pub room : fs.nblocks ≤ fs.freemap.nbits
  pub tail : (i : ℕ) → fs.nblocks ≤ i → i < fs.freemap.nbits → in_use fs i ≡ true
  pub super : in_use fs 0 ≡ true

rwblock-Works : (fs : SfsFs) → Works fs → sfs_rwblock fs ≡ done (0, fs)
unfolding sfs_rwblock rwblock_from
rwblock-Works fs w =
    let none_left : [] ≡ fs.answers = sym w in
    ap (λ l. rwblock_from 11 0 (record fs { answers = l })) w
    ∙ ap (λ l. done (0, record fs { answers = l })) none_left

pub sfs_rwblock-Works : (fs : SfsFs) → Works fs → sfs_rwblock fs ≡ done (0, fs)
sfs_rwblock-Works fs w = rwblock-Works fs w

pub sfs_wblock-Works :
    (words : ℕ → ℕ) (block : ℕ) (fs : SfsFs)
    → Works fs
    → sfs_wblock words block fs ≡ done (0, set_block block words fs)
unfolding sfs_wblock
sfs_wblock-Works words block fs w = ground (arith, rwblock-Works fs w)

-- The block that sfs_balloc hands out was free, is in use now and is cleared; nothing else is changed.
pub record IsFresh (fs : SfsFs) (b : ℕ) (fs' : SfsFs) : Type 0 where
  pub positive : 0 < b
  pub inside : b < fs.nblocks
  pub clear : in_use fs b ≡ false
  pub space : IsSpace fs'
  pub works : Works fs'
  pub same : fs'.nblocks ≡ fs.nblocks
  pub taken : (i : ℕ) → in_use fs' i ≡ (if i == b then true else in_use fs i)
  pub zeroed : (c w : ℕ) → fs'.disk c w ≡ (if c == b then 0 else fs.disk c w)

pub sfs_balloc_lem :
    (fs : SfsFs)
    → IsSpace fs
    → Works fs
    → (((i : ℕ) → i < fs.nblocks → in_use fs i ≡ true) × (sfs_balloc fs ≡ done (enospc, none, fs)))
      ⊎ ((b : ℕ) × (fs' : SfsFs) × (sfs_balloc fs ≡ done (0, some b, fs')) × IsFresh fs b fs')
unfolding sfs_balloc sfs_clearblock
sfs_balloc_lem fs s works = elim (bitmap_alloc_lem fs.freemap s.map) [
  | inl (full, run) ↦ inl (λ i l. full i (omega (arith, l, s.room)), ground (arith, run))
  | inr (b, map', run, f) ↦
      let inside : b < fs.nblocks = elim (dec_lt b fs.nblocks) [
        | yes l ↦ l
        | no ge ↦ ground (arith, s.tail b (omega (arith, ge)) f.counts, f.clear)
      ] in
      let fs₁ : SfsFs = record fs { freemap = map'; freemapdirty = true } in
      let written = sfs_wblock-Works (λ w. 0) b fs₁ works in
      let nbits : map'.nbits ≡ fs.freemap.nbits = f.sized in
      inr (
        b,
        set_block b (λ w. 0) fs₁,
        ground (arith, run, inside, written),
        record {
          positive = elim (ℕ_discrete b 0) [
            | yes z ↦ ground (arith, s.super, f.clear, ap (bit fs.freemap) z)
            | no ne ↦ omega (arith, ne)
          ];
          inside = inside;
          clear = f.clear;
          space = record {
            map = f.valid;
            room = omega (arith, nbits, s.room);
            tail = λ i lo hi. ground (arith, f.taken i, s.tail i lo (omega (arith, hi, nbits)));
            super = ground (arith, f.taken 0, s.super);
          };
          works = works;
          same = refl;
          taken = f.taken;
          zeroed = λ c w. ground arith;
        },
      )
]

-- A block in use that is given back: its bit alone is changed.
pub record IsFreed (fs : SfsFs) (b : ℕ) (fs' : SfsFs) : Type 0 where
  pub space : IsSpace fs'
  pub works : Works fs'
  pub same : fs'.nblocks ≡ fs.nblocks
  pub left : (i : ℕ) → in_use fs' i ≡ (if i == b then false else in_use fs i)
  pub disk : (c w : ℕ) → fs'.disk c w ≡ fs.disk c w

pub sfs_bfree_lem :
    (b : ℕ) (fs : SfsFs)
    → IsSpace fs
    → Works fs
    → 0 < b
    → b < fs.nblocks
    → in_use fs b ≡ true
    → (fs' : SfsFs) × (sfs_bfree b fs ≡ done fs') × IsFreed fs b fs'
unfolding sfs_bfree
sfs_bfree_lem b fs s works pos inside used = elim (bitmap_unmark_lem fs.freemap b s.map) [
  | inr (free, run) ↦ absurd ground (arith, free (omega (arith, inside, s.room)), used)
  | inl (map', counts, set, run, valid, left, sized) ↦ (
    record fs { freemap = map'; freemapdirty = true },
    ground (arith, run),
    record {
      space = record {
        map = valid;
        room = omega (arith, sized, s.room);
        tail = λ i lo hi.
            let ne : i ≢ b = omega (arith, lo, inside) in
            ground (arith, left i, s.tail i lo (omega (arith, hi, sized)), ne);
        super = ground (arith, left 0, s.super, pos);
      };
      works = works;
      same = refl;
      left = left;
      disk = λ c w. refl;
    },
  )
]

-- sfs_bused in front of a panic: the block is in use.
pub sfs_bused_lem :
    (b : ℕ) (fs : SfsFs)
    → IsSpace fs
    → b < fs.nblocks
    → in_use fs b ≡ true
    → (n : ℕ) × (sfs_bused b fs ≡ done n) × (n ≢ 0)
unfolding sfs_bused
sfs_bused_lem b fs s inside used =
    let (n, run, z) = bitmap_isset_lem fs.freemap b s.map (omega (arith, inside, s.room)) in
    (n, ground (arith, run, inside), λ e. ground (arith, z.0 e, used))

-- How the transfer ends with the answer `c`.
abbrev pub ended : ℕ → List ℕ → SfsFs → Run (ℕ × SfsFs)
ended c rest fs = if c == einval then panic else done (c, record fs { answers = rest })

-- The answers one by one.
rwblock_from-eio :
    (k fuel tries c : ℕ) (rest : List ℕ) (fs : SfsFs)
    → fs.answers ≡ replicate k eio ++ c ∷ rest
    → k < fuel
    → tries + k ≤ 10
    → (c ≢ eio) ⊎ (tries + k ≡ 10)
    → rwblock_from fuel tries fs ≡ ended c rest fs
unfolding rwblock_from
rwblock_from-eio k zero tries c rest fs e l t last = absurd (omega (arith, l))
rwblock_from-eio zero (suc fuel) tries c rest fs e l t last =
    ap (λ a. rwblock_from (suc fuel) tries (record fs { answers = a })) e ∙ answered last
  where
    answered :
        (c ≢ eio) ⊎ (tries + 0 ≡ 10)
        → rwblock_from (suc fuel) tries (record fs { answers = c ∷ rest }) ≡ ended c rest fs
    answered (inl ne) = ground (arith, ne)
    answered (inr full) = ground (arith, full)
rwblock_from-eio (suc k) (suc fuel) tries c rest fs e l t last =
    let later =
      rwblock_from-eio k fuel (tries + 1) c rest
        (record fs { answers = replicate k eio ++ c ∷ rest }) refl (omega (arith, l))
        (omega (arith, t)) (still last) in
    ap (λ a. rwblock_from (suc fuel) tries (record fs { answers = a })) e ∙ ground (arith, later, t)
  where
    still : (c ≢ eio) ⊎ (tries + suc k ≡ 10) → (c ≢ eio) ⊎ (tries + 1 + k ≡ 10)
    still (inl ne) = inl ne
    still (inr full) = inr (omega (arith, full))

-- When d_io answers EIO up to ten times and then another code, sfs_rwblock ends with that code, or
-- panics if it is EINVAL; when d_io answers EIO eleven times, sfs_rwblock ends with EIO. The later
-- answers are left.
pub sfs_rwblock_lem :
    (k c : ℕ) (rest : List ℕ) (fs : SfsFs)
    → fs.answers ≡ replicate k eio ++ c ∷ rest
    → ((k ≤ 10) × (c ≢ eio)) ⊎ ((k ≡ 10) × (c ≡ eio))
    → sfs_rwblock fs ≡ (if c == einval then panic else done (c, record fs { answers = rest }))
unfolding sfs_rwblock
sfs_rwblock_lem k c rest fs e (inl (few, ne)) =
    rwblock_from-eio k 11 0 c rest fs e (omega (arith, few)) (omega (arith, few)) (inl ne)
sfs_rwblock_lem k c rest fs e (inr (ten, last)) =
    rwblock_from-eio k 11 0 c rest fs e (omega (arith, ten)) (omega (arith, ten))
      (inr (omega (arith, ten)))
