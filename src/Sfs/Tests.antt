-- ===== src/Sfs/Tests.antt =====
-- kern/fs/sfs/sfs_vnode.c and sfs_io.c at concrete inputs.
use ece344_operating_systems.Base.{
  ℕ, ◌+◌, ◌-◌, ◌/◌, ◌<◌, ◌≡◌, ◌≢◌, ◌⊎◌, refl, ap, sym, ◌∙◌, inl, inr, true, false, none, some, [],
  ◌∷◌, arith, ltb, ◌==◌, if◌then◌else◌, done, ℕ_discrete,
}
use ece344_operating_systems.Base.Errno.{einval, eio, enospc}
use ece344_operating_systems.Bitmap.{Word}
use ece344_operating_systems.Sfs.{SfsFs, SfsVnode, sfs_rwblock, sfs_bmap, sfs_truncate}
use ece344_operating_systems.Sfs.Space.{in_use, IsSpace, sfs_rwblock_lem}
use ece344_operating_systems.Sfs.Mapped.{mapped, Valid}
use ece344_operating_systems.Sfs.Bmap.{bmap-present}
use ece344_operating_systems.Sfs.Alloc.{Outcome, sfs_bmap_lem, bmap-past_end}
use ece344_operating_systems.Sfs.Trimmed.{IsTrimmed}
use ece344_operating_systems.Sfs.Truncate.{truncated, sfs_truncate_lem}

-- A disk of eight blocks, of which the last is free. The file has block 3 first, and by its indirect
-- block 4 the blocks 5 and 6.
abbrev all_but_7 : Word
all_but_7 i = ltb i 7

abbrev small_fs : SfsFs
small_fs = record {
  nblocks = 8;
  freemap = record { nbits = 8; v = all_but_7 ∷ [] };
  freemapdirty = false;
  disk = λ b w. if b == 4 then (if w == 0 then 5 else if w == 1 then 6 else 0) else 0;
  answers = [];
}

abbrev small_file : SfsVnode
small_file = record {
  inode = record {
    size = 8704;
    type = 1;
    linkcount = 1;
    direct = λ k. if k == 0 then 3 else 0;
    indirect = 4;
  };
  ino = 2;
  dirty = false;
}

small_fs-IsSpace : IsSpace small_fs
small_fs-IsSpace = record {
  map = record {
    small = omega arith;
    stored = refl;
    padded = λ i lo hi. absurd (omega (arith, lo, hi));
  };
  room = omega arith;
  tail = λ i lo hi. absurd (omega (arith, lo, hi));
  super = refl;
}

places :
    (k : ℕ)
    → mapped small_fs small_file k ≢ 0
    → ((k ≡ 0) × (mapped small_fs small_file k ≡ 3))
      ⊎ (((k ≡ 15) × (mapped small_fs small_file k ≡ 5))
          ⊎ ((k ≡ 16) × (mapped small_fs small_file k ≡ 6)))
places k nz = elim (ℕ_discrete k 0) [
  | yes e ↦ inl (e, ground (arith, e))
  | no n₀ ↦ elim (ℕ_discrete k 15) [
    | yes e ↦ inr (inl (e, ground (arith, e)))
    | no n₁ ↦ elim (ℕ_discrete k 16) [
      | yes e ↦ inr (inr (e, ground (arith, e)))
      | no n₂ ↦ let low : k - 15 ≢ 1 = omega (arith, n₂) in absurd (nz ground (arith, n₀, n₁, low))
    ]
  ]
]

small_file-Valid : Valid small_fs small_file
small_file-Valid = record {
  space = small_fs-IsSpace;
  used = λ k l nz. used k (places k nz);
  index = λ nz. (omega arith, refl);
  apart = λ k l nz e. apart k (places k nz) e;
  once = λ k l lk ll ne nz e. once k l ne (places k nz) (places l (λ z. nz (e ∙ z))) e;
}
  where
    Place : ℕ → Type 0
    Place k =
        ((k ≡ 0) × (mapped small_fs small_file k ≡ 3))
        ⊎ (((k ≡ 15) × (mapped small_fs small_file k ≡ 5))
            ⊎ ((k ≡ 16) × (mapped small_fs small_file k ≡ 6)))

    used :
        (k : ℕ)
        → Place k
        → (mapped small_fs small_file k < 8)
          × (in_use small_fs (mapped small_fs small_file k) ≡ true)
    used k (inl (at, e)) = (omega (arith, e), ap (in_use small_fs) e)
    used k (inr (inl (at, e))) = (omega (arith, e), ap (in_use small_fs) e)
    used k (inr (inr (at, e))) = (omega (arith, e), ap (in_use small_fs) e)

    apart : (k : ℕ) → Place k → mapped small_fs small_file k ≢ 4
    apart k (inl (at, e)) same = omega (arith, e, same)
    apart k (inr (inl (at, e))) same = omega (arith, e, same)
    apart k (inr (inr (at, e))) same = omega (arith, e, same)

    once :
        (k l : ℕ)
        → k ≢ l
        → Place k
        → Place l
        → mapped small_fs small_file k ≢ mapped small_fs small_file l
    once k l ne (inl (at, e)) (inl (at', e')) same = ne (at ∙ sym at')
    once k l ne (inl (at, e)) (inr (inl (at', e'))) same = omega (arith, e, e', same)
    once k l ne (inl (at, e)) (inr (inr (at', e'))) same = omega (arith, e, e', same)
    once k l ne (inr (inl (at, e))) (inl (at', e')) same = omega (arith, e, e', same)
    once k l ne (inr (inl (at, e))) (inr (inl (at', e'))) same = ne (at ∙ sym at')
    once k l ne (inr (inl (at, e))) (inr (inr (at', e'))) same = omega (arith, e, e', same)
    once k l ne (inr (inr (at, e))) (inl (at', e')) same = omega (arith, e, e', same)
    once k l ne (inr (inr (at, e))) (inr (inl (at', e'))) same = omega (arith, e, e', same)
    once k l ne (inr (inr (at, e))) (inr (inr (at', e'))) same = ne (at ∙ sym at')

-- A hole of the file gets block 7.
sfs_bmap_lem_example : Outcome 20 (sfs_bmap 20 true small_fs small_file) small_fs small_file
sfs_bmap_lem_example = sfs_bmap_lem 20 small_fs small_file small_file-Valid refl (omega arith) refl

bmap-present_example :
    sfs_bmap 16 false small_fs small_file
    ≡ done (0, some (mapped small_fs small_file 16), small_fs, small_file)
bmap-present_example =
    bmap-present 16 false small_fs small_file small_file-Valid refl (omega arith) (inl refl)

-- At 15 blocks the first entry of the indirect block is kept, and the second is given back.
sfs_truncate_lem_example :
    (fs' : SfsFs) × (sv' : SfsVnode) × (sfs_truncate 7680 small_fs small_file ≡ done (0, fs', sv'))
    × (sv'.inode.size ≡ 7680)
    × IsTrimmed (truncated ((7680 + 511) / 512)) small_fs small_file fs' sv'
sfs_truncate_lem_example =
    sfs_truncate_lem 7680 small_fs small_file small_file-Valid refl (omega arith)

abbrev flaky_fs : SfsFs
flaky_fs = record small_fs { answers = eio ∷ eio ∷ enospc ∷ 7 ∷ [] }

sfs_rwblock_lem_example : sfs_rwblock flaky_fs ≡ done (enospc, record flaky_fs { answers = 7 ∷ [] })
sfs_rwblock_lem_example =
    sfs_rwblock_lem 2 enospc (7 ∷ []) flaky_fs refl (inl (omega arith, omega arith))

far_away : sfs_bmap 200 true small_fs small_file ≡ done (einval, none, small_fs, small_file)
far_away = bmap-past_end 200 true small_fs small_file (omega arith)
