-- ===== src/Sfs/Truncate.antt =====
-- kern/fs/sfs/sfs_vnode.c: sfs_truncate.
use ece344_operating_systems.Base.{
  ℕ, ◌+◌, ◌-◌, ◌/◌, ◌^◌, ◌<◌, ◌≡◌, ◌≢◌, ◌⊎◌, refl, sym, ◌∙◌, inl, inr, Bool, true, false, ◌&&◌,
  ◌||◌, not, Bool-cases, arith, ltb, leb, ◌==◌, if◌then◌else◌, Run, done, ◌>>=◌, ℕ_discrete, dec_lt,
}
use ece344_operating_systems.Sfs.{
  SfsFs, SfsVnode, set_indirect, sfs_bfree, sfs_wblock, truncate_indirect, sfs_truncate,
}
use ece344_operating_systems.Sfs.Space.{Works, sfs_bfree_lem, sfs_wblock-Works, sfs_rwblock-Works}
use ece344_operating_systems.Sfs.Mapped.{mapped, limit, Valid}
use ece344_operating_systems.Sfs.Trimmed.{
  IsTrimmed, IsTrimmed-none, IsTrimmed-cong, IsTrimmed-trans, IsTrimmed-same, trim_index,
}
use ece344_operating_systems.Sfs.Direct.{direct_gone, free_direct_lem}
use ece344_operating_systems.Sfs.Entries.{
  buffered, entry_gone, IsSwept, IsSpace-buffered, buffered-IsSpace, free_entries_lem,
}

-- What is given back behind the direct blocks.
abbrev index_gone : ℕ → ℕ → Bool
index_gone blocklen k = leb 15 k && ltb blocklen k

-- The indirect block's buffer holds what the disk holds.
loaded :
    (fs : SfsFs) (sv : SfsVnode)
    → Valid fs sv
    → Works fs
    → sv.inode.indirect ≢ 0
    → IsTrimmed (λ k. false) fs sv (buffered (fs.disk sv.inode.indirect) fs sv) sv
loaded fs sv v works nz =
    IsTrimmed-same fs (buffered (fs.disk sv.inode.indirect) fs sv) sv sv v
      (buffered-IsSpace (fs.disk sv.inode.indirect) fs sv v.space) works refl (λ i. refl) refl
      (λ k l. ground (arith, nz)) (λ c w ne. ground (arith, ne))

-- A buffer that was not written to is not written back.
unwritten :
    (idbuf : ℕ → ℕ) (fs : SfsFs) (sv : SfsVnode)
    → Valid (buffered idbuf fs sv) sv
    → Works fs
    → sv.inode.indirect ≢ 0
    → ((w : ℕ) → idbuf w ≡ fs.disk sv.inode.indirect w)
    → IsTrimmed (λ k. false) (buffered idbuf fs sv) sv fs sv
unwritten idbuf fs sv v works nz same =
    IsTrimmed-same (buffered idbuf fs sv) fs sv sv v (IsSpace-buffered idbuf fs sv v.space) works
      refl (λ i. refl) refl (λ k l. ground (arith, nz, same (k - 15)))
      (λ c w ne. ground (arith, ne))

truncate_indirect_lem :
    (blocklen : ℕ) (fs : SfsFs) (sv : SfsVnode)
    → Valid fs sv
    → Works fs
    → (fs' : SfsFs) × (sv' : SfsVnode) × (truncate_indirect blocklen sv.inode.indirect fs sv
        ≡ done (0, fs', sv'))
      × IsTrimmed (index_gone blocklen) fs sv fs' sv'
unfolding truncate_indirect
truncate_indirect_lem blocklen fs sv v works =
    elim (Bool-cases (ltb blocklen (15 + 128 - 1) && not (sv.inode.indirect == 0))) [
      | inr n ↦ (
        fs,
        sv,
        ground (arith, n),
        IsTrimmed-cong (λ k. false) (index_gone blocklen) fs fs sv sv (IsTrimmed-none fs sv v works)
            (λ k l. nothing k l n (ℕ_discrete sv.inode.indirect 0)),
      )
      | inl y ↦
          let nz : sv.inode.indirect ≢ 0 = ground (arith, y) in
          let t₀ = loaded fs sv v works nz in
          let (idbuf, nonzero, dirty, fs₂, run, s) =
            free_entries_lem 128 0 blocklen (fs.disk sv.inode.indirect) false false fs sv refl nz
              t₀.valid works in
          let t₁ =
            IsTrimmed-trans (λ k. false) (entry_gone 0 blocklen) fs
              (buffered (fs.disk sv.inode.indirect) fs sv) (buffered idbuf fs₂ sv) sv sv sv refl t₀
              s.trimmed in
          let (fs', sv', rest, t₂) = closed idbuf nonzero dirty fs₂ s nz in
          (
            fs',
            sv',
            ground (arith, y, sfs_rwblock-Works fs works, run, rest),
            IsTrimmed-cong (λ k. (false || entry_gone 0 blocklen k) || false) (index_gone blocklen)
                fs fs' sv sv'
                (IsTrimmed-trans (λ k. false || entry_gone 0 blocklen k) (λ k. false) fs
                  (buffered idbuf fs₂ sv) fs' sv sv sv' refl t₁ t₂)
                (λ k l. inl ground arith),
          )
    ]
  where
    nothing :
        (k : ℕ)
        → k < limit
        → (ltb blocklen (15 + 128 - 1) && not (sv.inode.indirect == 0)) ≡ false
        → Dec (sv.inode.indirect ≡ 0)
        → (false ≡ index_gone blocklen k) ⊎ (mapped fs sv k ≡ 0)
    nothing k l n (no nz) = inl ground (arith, n, nz, l)
    nothing k l n (yes z) = elim (dec_lt k 15) [
      | yes small ↦ inl ground (arith, small)
      | no big ↦ inr ground (arith, big, z)
    ]

    rest_of : (ℕ → ℕ) → Bool → Bool → SfsFs → Run (ℕ × SfsFs × SfsVnode)
    rest_of idbuf nonzero dirty fs₂ =
        let empty : Run (ℕ × SfsFs × SfsVnode) = do
          fs₃ ← sfs_bfree sv.inode.indirect fs₂
          done (0, fs₃, set_indirect 0 sv)
        in let written : Run (ℕ × SfsFs × SfsVnode) = do
          (result, fs₃) ← sfs_wblock idbuf sv.inode.indirect fs₂
          done (result, fs₃, sv)
          in if not nonzero then empty else if dirty then written else done (0, fs₂, sv)

    closed :
        (idbuf : ℕ → ℕ) (nonzero dirty : Bool) (fs₂ : SfsFs)
        → IsSwept 0 blocklen (fs.disk sv.inode.indirect) false false fs sv idbuf nonzero dirty fs₂
        → sv.inode.indirect ≢ 0
        → (fs' : SfsFs) × (sv' : SfsVnode) × (rest_of idbuf nonzero dirty fs₂ ≡ done (0, fs', sv'))
          × IsTrimmed (λ k. false) (buffered idbuf fs₂ sv) sv fs' sv'
    closed idbuf false dirty fs₂ s nz =
        let v₂ = s.trimmed.valid in
        let (inside, mark) = v₂.index nz in
        let (fs₃, run, f) =
          sfs_bfree_lem sv.inode.indirect fs₂ (IsSpace-buffered idbuf fs₂ sv v₂.space)
            s.trimmed.works (omega (arith, nz)) inside mark in
        let zeros = (s.empty refl).1 in
        (
          fs₃,
          set_indirect 0 sv,
          ground (arith, run),
          trim_index (buffered idbuf fs₂ sv) fs₃ sv v₂ nz
              (λ k lo hi.
                ground (arith, nz, lo, zeros (k - 15) (omega arith) (omega (arith, hi, lo))))
              f.space f.works f.same f.left (λ c w ne. ground (arith, f.disk c w, ne)),
        )
    closed idbuf true true fs₂ s nz = (
      buffered idbuf fs₂ sv,
      sv,
      ground (arith, sfs_wblock-Works idbuf sv.inode.indirect fs₂ s.trimmed.works),
      IsTrimmed-none (buffered idbuf fs₂ sv) sv s.trimmed.valid s.trimmed.works,
    )
    closed idbuf true false fs₂ s nz = (
      fs₂,
      sv,
      refl,
      unwritten idbuf fs₂ sv s.trimmed.valid s.trimmed.works nz
          (λ w. (s.clean refl).1 w ∙ sym (s.disk sv.inode.indirect w)),
    )

-- The blocks of a file that sfs_truncate gives back: the direct ones from the new length in blocks on,
-- and those of the indirect block behind that length.
abbrev pub truncated : ℕ → ℕ → Bool
truncated blocklen k = if ltb k 15 then leb blocklen k else ltb blocklen k

sized :
    (g : ℕ → Bool) (len : ℕ) (fs fs' : SfsFs) (sv sv' : SfsVnode)
    → IsTrimmed g fs sv fs' sv'
    → IsTrimmed g fs sv fs' (record sv' { inode = record sv'.inode { size = len }; dirty = true })
sized g len fs fs' sv sv' t = record {
  valid = record {
    space = t.valid.space;
    used = t.valid.used;
    index = t.valid.index;
    apart = t.valid.apart;
    once = t.valid.once;
  };
  works = t.works;
  at = t.at;
  freed = t.freed;
  still_free = t.still_free;
  kept = t.kept;
  frame = t.frame;
}

-- On a file whose blocks are in use and differ, with a device that works and a length that an off_t can
-- round up, sfs_truncate ends with the code 0 and sets the size. The blocks of the file whose places are
-- at least the new length in blocks (direct ones) or greater than it (those of the indirect block) are free
-- and not the file's any more, its other blocks are as before, and so are the blocks of the disk
-- that are not the file's; the file's blocks are in use and differ afterwards.
pub sfs_truncate_lem :
    (len : ℕ) (fs : SfsFs) (sv : SfsVnode)
    → Valid fs sv
    → Works fs
    → len + 512 < 2 ^ 31
    → (fs' : SfsFs) × (sv' : SfsVnode) × (sfs_truncate len fs sv ≡ done (0, fs', sv'))
      × (sv'.inode.size ≡ len)
      × IsTrimmed (truncated ((len + 511) / 512)) fs sv fs' sv'
unfolding sfs_truncate
sfs_truncate_lem len fs sv v works fits =
    let blocklen = (len + 511) / 512 in
    let (fs₁, sv₁, run, ei, t) = free_direct_lem 15 0 blocklen fs sv refl v works in
    let (fs₂, sv₂, run', t') = truncate_indirect_lem blocklen fs₁ sv₁ t.valid t.works in
    let sv' : SfsVnode = record sv₂ { inode = record sv₂.inode { size = len }; dirty = true } in
    let both =
      IsTrimmed-trans (direct_gone 0 blocklen) (index_gone blocklen) fs fs₁ fs₂ sv sv₁ sv₂ ei t
        t' in
    (
      fs₂,
      sv',
      ground (arith, fits, run, run'),
      refl,
      sized (truncated blocklen) len fs fs₂ sv sv₂ (
          IsTrimmed-cong (λ k. direct_gone 0 blocklen k || index_gone blocklen k)
            (truncated blocklen) fs fs₂ sv sv₂ both (λ k l. inl ground arith)),
    )
