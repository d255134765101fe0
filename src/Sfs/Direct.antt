-- ===== src/Sfs/Direct.antt =====
-- kern/fs/sfs/sfs_vnode.c: the loop of sfs_truncate over the direct blocks.
use ece344_operating_systems.Base.{
  ℕ, zero, suc, ◌+◌, ◌-◌, ◌<◌, ◌≡◌, ◌≢◌, ◌⊎◌, refl, ap, sym, ◌∙◌, inl, inr, Bool, false, ◌&&◌, ◌||◌,
  not, Bool-cases, arith, ltb, leb, ◌==◌, if◌then◌else◌, done, ℕ_discrete, dec_lt,
}
use ece344_operating_systems.Sfs.{SfsFs, SfsVnode, set_direct, sfs_bfree, free_direct}
use ece344_operating_systems.Sfs.Space.{Works, sfs_bfree_lem}
use ece344_operating_systems.Sfs.Mapped.{mapped, limit, Valid}
use ece344_operating_systems.Sfs.Trimmed.{
  IsTrimmed, IsTrimmed-none, IsTrimmed-cong, IsTrimmed-trans, trim_one,
}

-- What the loop over the direct blocks gives back from place `i` on.
abbrev pub direct_gone : ℕ → ℕ → ℕ → Bool
direct_gone i blocklen k = leb i k && (ltb k 15 && leb blocklen k)

pub free_direct_lem :
    (rounds i blocklen : ℕ) (fs : SfsFs) (sv : SfsVnode)
    → i + rounds ≡ 15
    → Valid fs sv
    → Works fs
    → (fs' : SfsFs) × (sv' : SfsVnode) × (free_direct rounds i blocklen fs sv ≡ done (fs', sv'))
      × (sv'.inode.indirect ≡ sv.inode.indirect)
      × IsTrimmed (direct_gone i blocklen) fs sv fs' sv'
unfolding free_direct
free_direct_lem zero i blocklen fs sv e v works = (
  fs,
  sv,
  refl,
  refl,
  IsTrimmed-cong (λ k. false) (direct_gone i blocklen) fs fs sv sv (IsTrimmed-none fs sv v works)
      (λ k l. inl ground (arith, e)),
)
free_direct_lem (suc rounds) i blocklen fs sv e v works =
    elim (Bool-cases (leb blocklen i && not (sv.inode.direct i == 0))) [
      | inr n ↦
          let (fs', sv', run, ei, t) =
            free_direct_lem rounds (i + 1) blocklen fs sv (omega (arith, e)) v works in
          (
            fs',
            sv',
            ground (arith, n, run),
            ei,
            IsTrimmed-cong (direct_gone (i + 1) blocklen) (direct_gone i blocklen) fs fs' sv sv' t
                (λ k l. nothing k n),
          )
      | inl y ↦
          let small : i < 15 = omega (arith, e) in
          let nz : mapped fs sv i ≢ 0 = ground (arith, y, small) in
          let here : mapped fs sv i ≡ sv.inode.direct i = ground (arith, small) in
          let (inside, mark) = v.used i (omega (arith, small)) nz in
          let (fs₁, run, f) =
            sfs_bfree_lem (mapped fs sv i) fs v.space works (omega (arith, nz)) inside mark in
          let run' : sfs_bfree (sv.inode.direct i) fs ≡ done fs₁ =
            ap (λ b. sfs_bfree b fs) (sym here) ∙ run in
          let sv₁ = set_direct i 0 sv in
          let at : (k : ℕ) → k < limit → mapped fs₁ sv₁ k ≡ (if k == i then 0 else mapped fs sv k) =
            λ k l. ground (arith, small, f.disk sv.inode.indirect (k - 15)) in
          let t₁ : IsTrimmed (λ k. k == i) fs sv fs₁ sv₁ =
            trim_one i fs fs₁ sv sv₁ v (omega (arith, small)) nz f.space f.works f.same f.left refl
              at (λ c w ne. f.disk c w) in
          let (fs', sv', rest, ei, t) =
            free_direct_lem rounds (i + 1) blocklen fs₁ sv₁ (omega (arith, e)) t₁.valid t₁.works in
          (
            fs',
            sv',
            ground (arith, y, run', rest),
            ei,
            IsTrimmed-cong (λ k. (k == i) || direct_gone (i + 1) blocklen k)
                (direct_gone i blocklen) fs fs' sv sv'
                (IsTrimmed-trans (λ k. k == i) (direct_gone (i + 1) blocklen) fs fs₁ fs' sv sv₁ sv'
                  refl t₁ t)
                (λ k l. inl ground (arith, y, small)),
          )
    ]
  where
    nothing :
        (k : ℕ)
        → (leb blocklen i && not (sv.inode.direct i == 0)) ≡ false
        → (direct_gone (i + 1) blocklen k ≡ direct_gone i blocklen k) ⊎ (mapped fs sv k ≡ 0)
    nothing k n = elim (ℕ_discrete k i) [
      | no ne ↦ inl ground (arith, ne)
      | yes at ↦ elim (ℕ_discrete (sv.inode.direct k) 0) [
        | yes z ↦ elim (dec_lt k 15) [
          | yes small ↦ inr ground (arith, z, small)
          | no big ↦ inl ground (arith, big)
        ]
        | no nz ↦ inl (ground (arith, n, at, nz, ap sv.inode.direct at))
      ]
    ]
