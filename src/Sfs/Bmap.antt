-- ===== src/Sfs/Bmap.antt =====
-- kern/fs/sfs/sfs_vnode.c: sfs_bmap.
use ece344_operating_systems.Base.{
  ℕ, ◌-◌, ◌/◌, ◌%◌, ◌<◌, ◌≡◌, ◌≢◌, ◌⊎◌, refl, ap, sym, ◌∙◌, subst, inl, inr, Bool, true, false,
  ◌&&◌, none, some, arith, ◌==◌, if◌then◌else◌, done, ℕ_discrete, dec_lt,
}
use ece344_operating_systems.Base.Errno.{enospc}
use ece344_operating_systems.Sfs.{
  SfsFs, SfsVnode, set_direct, hand_back, bmap_direct, bmap_entry, bmap_indirect, sfs_bmap,
}
use ece344_operating_systems.Sfs.Space.{
  Works, in_use, IsSpace, IsFresh, sfs_bused_lem, sfs_balloc_lem, sfs_rwblock-Works,
}
use ece344_operating_systems.Sfs.Mapped.{mapped, limit, Valid, Valid-mapped}

pub hand_back_lem :
    (b : ℕ) (fs : SfsFs) (sv : SfsVnode)
    → IsSpace fs
    → (b ≢ 0 → (b < fs.nblocks) × (in_use fs b ≡ true))
    → hand_back b fs sv ≡ done (0, some b, fs, sv)
unfolding hand_back
hand_back_lem b fs sv s h = elim (ℕ_discrete b 0) [
  | yes z ↦ ground (arith, z)
  | no ne ↦ let (n, run, nz) = sfs_bused_lem b fs s (h ne).0 (h ne).1 in ground (arith, run, nz, ne)
]

-- Without doalloc, or where the file has the block, sfs_bmap answers the file's block and changes nothing,
-- on a file whose blocks are in use and differ and with a device that works.
pub bmap-present :
    (fb : ℕ) (doalloc : Bool) (fs : SfsFs) (sv : SfsVnode)
    → Valid fs sv
    → Works fs
    → fb < 143
    → (doalloc ≡ false) ⊎ (mapped fs sv fb ≢ 0)
    → sfs_bmap fb doalloc fs sv ≡ done (0, some (mapped fs sv fb), fs, sv)
unfolding sfs_bmap bmap_direct bmap_indirect bmap_entry
bmap-present fb doalloc fs sv v works low either = elim (dec_lt fb 15) [
  | yes small ↦
      let at : mapped fs sv fb ≡ sv.inode.direct fb = ground (arith, small) in
      let back : hand_back (sv.inode.direct fb) fs sv
          ≡ done (0, some (sv.inode.direct fb), fs, sv) =
        hand_back_lem (sv.inode.direct fb) fs sv v.space (λ ne.
          subst (λ x. (x < fs.nblocks) × (in_use fs x ≡ true)) at
            (v.used fb low (λ z. ne (sym at ∙ z)))) in
      let skip : (sv.inode.direct fb == 0 && doalloc) ≡ false = skipped (sv.inode.direct fb) at in
      ground (arith, small, at, back, skip)
  | no big ↦
      let zero_id : (fb - 15) / 128 ≡ 0 = omega (arith, low) in
      let off : (fb - 15) % 128 ≡ fb - 15 = omega (arith, low) in
      elim (ℕ_discrete sv.inode.indirect 0) [
        | yes z ↦
            let at : mapped fs sv fb ≡ 0 = ground (arith, big, z) in
            let no_alloc : doalloc ≡ false = elim either [ inl f ↦ f | inr ne ↦ absurd (ne at) ] in
            ground (arith, big, z, at, no_alloc, zero_id)
        | no nz ↦
            let at : mapped fs sv fb ≡ fs.disk sv.inode.indirect (fb - 15) =
              ground (arith, big, nz) in
            let b = fs.disk sv.inode.indirect (fb - 15) in
            let back : hand_back b fs sv ≡ done (0, some b, fs, sv) =
              hand_back_lem b fs sv v.space (λ ne.
                subst (λ x. (x < fs.nblocks) × (in_use fs x ≡ true)) at
                  (v.used fb low (λ z. ne (sym at ∙ z)))) in
            let skip : (b == 0 && doalloc) ≡ false = skipped b at in
            ground (arith, big, nz, at, back, skip, zero_id, off, sfs_rwblock-Works fs works)
      ]
]
  where
    skipped : (b : ℕ) → mapped fs sv fb ≡ b → (b == 0 && doalloc) ≡ false
    skipped b at = elim either [
      | inl f ↦ ground (arith, f)
      | inr ne ↦ let nz : b ≢ 0 = λ z. ne (at ∙ z) in ground (arith, nz)
    ]

-- Block `b`, which was free and is cleared, is block `fb` of the file now. The other blocks of the file
-- are as before, blocks in use stay in use, and of those only the file's indirect block is written.
pub record IsAllocated (fb b : ℕ) (fs : SfsFs) (sv : SfsVnode) (fs' : SfsFs) (sv' : SfsVnode)
    : Type 0 where
  pub valid : Valid fs' sv'
  pub works : Works fs'
  pub positive : 0 < b
  pub clear : in_use fs b ≡ false
  pub at : (k : ℕ) → k < limit → mapped fs' sv' k ≡ (if k == fb then b else mapped fs sv k)
  pub zeroed : (w : ℕ) → fs'.disk b w ≡ 0
  pub kept : (i : ℕ) → in_use fs i ≡ true → in_use fs' i ≡ true
  pub frame : (c w : ℕ) → in_use fs c ≡ true → c ≢ sv.inode.indirect → fs'.disk c w ≡ fs.disk c w

-- No block is free any more, and the file and the blocks in use are as before.
pub record IsFull (fs : SfsFs) (sv : SfsVnode) (fs' : SfsFs) (sv' : SfsVnode) : Type 0 where
  pub valid : Valid fs' sv'
  pub works : Works fs'
  pub full : (i : ℕ) → i < fs'.nblocks → in_use fs' i ≡ true
  pub at : (k : ℕ) → k < limit → mapped fs' sv' k ≡ mapped fs sv k
  pub frame : (c w : ℕ) → in_use fs c ≡ true → fs'.disk c w ≡ fs.disk c w

-- A block that is handed out is none of the file's, so that clearing it leaves the file's map.
pub mapped-IsFresh :
    (b k : ℕ) (fs fs' : SfsFs) (sv : SfsVnode)
    → Valid fs sv
    → IsFresh fs b fs'
    → mapped fs' sv k ≡ mapped fs sv k
mapped-IsFresh b k fs fs' sv v f = elim (ℕ_discrete sv.inode.indirect 0) [
  | yes z ↦ ground (arith, z)
  | no nz ↦
      let apart : sv.inode.indirect ≢ b =
        λ e. ground (arith, (v.index nz).1, f.clear, ap (in_use fs) e) in
      ground (arith, nz, f.zeroed sv.inode.indirect (k - 15), apart)
]

pub fresh-frame :
    (b c w : ℕ) (fs fs' : SfsFs)
    → IsFresh fs b fs'
    → in_use fs c ≡ true
    → fs'.disk c w ≡ fs.disk c w
fresh-frame b c w fs fs' f used =
    let apart : c ≢ b = λ e. ground (arith, used, f.clear, ap (in_use fs) e) in
    ground (arith, f.zeroed c w, apart)

pub direct_lem :
    (fb : ℕ) (fs : SfsFs) (sv : SfsVnode)
    → Valid fs sv
    → Works fs
    → fb < 15
    → sv.inode.direct fb ≡ 0
    → (IsFull fs sv fs sv × (bmap_direct fb true fs sv ≡ done (enospc, none, fs, sv)))
      ⊎ ((b : ℕ) × (fs' : SfsFs) × (sv' : SfsVnode) × (bmap_direct fb true fs sv
            ≡ done (0, some b, fs', sv'))
          × IsAllocated fb b fs sv fs' sv')
unfolding bmap_direct
direct_lem fb fs sv v works small free = elim (sfs_balloc_lem fs v.space works) [
  | inl (full, run) ↦ inl (
    record { valid = v; works = works; full = full; at = λ k l. refl; frame = λ c w u. refl },
    ground (arith, run, free),
  )
  | inr (b, fs', run, f) ↦
      let sv' = set_direct fb b sv in
      let at : (k : ℕ) → k < limit → mapped fs' sv' k ≡ (if k == fb then b else mapped fs sv k) =
        λ k l. ground (arith, mapped-IsFresh b k fs fs' sv v f, small) in
      let valid : Valid fs' sv' =
        Valid-mapped fb b fs fs' sv sv' v f.space f.positive f.inside f.clear f.same refl f.taken
          at in
      let back : hand_back b fs' sv' ≡ done (0, some b, fs', sv') =
        hand_back_lem b fs' sv' f.space
          (λ ne. (omega (arith, f.inside, f.same), ground (arith, f.taken b))) in
      inr (
        b,
        fs',
        sv',
        ground (arith, run, free, back),
        record {
          valid = valid;
          works = f.works;
          positive = f.positive;
          clear = f.clear;
          at = at;
          zeroed = λ w. ground (arith, f.zeroed b w);
          kept = λ i u. ground (arith, f.taken i, u);
          frame = λ c w u ne. fresh-frame b c w fs fs' f u;
        },
      )
]
