-- ===== src/Sfs/Trimmed.antt =====
-- kern/fs/sfs/sfs_vnode.c: some blocks of a file are given back.
use ece344_operating_systems.Base.{
  ℕ, ◌≤◌, ◌<◌, ◌≡◌, ◌≢◌, ◌⊎◌, refl, ap, sym, ◌∙◌, subst, inl, inr, Bool, true, false, ◌||◌,
  Bool-cases, ==_iff, arith, ◌==◌, if◌then◌else◌, ℕ_discrete, dec_lt,
}
use ece344_operating_systems.Sfs.{SfsFs, SfsVnode, set_indirect}
use ece344_operating_systems.Sfs.Space.{Works, in_use, IsSpace}
use ece344_operating_systems.Sfs.Mapped.{mapped, limit, Valid}

-- The blocks of the file that `gone` names are not the file's any more and are free; its others are as
-- before, and so are the blocks of the disk that are not the file's.
pub record IsTrimmed (gone : ℕ → Bool) (fs : SfsFs) (sv : SfsVnode) (fs' : SfsFs) (sv' : SfsVnode)
    : Type 0 where
  pub valid : Valid fs' sv'
  pub works : Works fs'
  pub at : (k : ℕ) → k < limit → mapped fs' sv' k ≡ (if gone k then 0 else mapped fs sv k)
  pub freed :
      (k : ℕ) → k < limit → gone k ≡ true → mapped fs sv k ≢ 0 → in_use fs' (mapped fs sv k) ≡ false
  pub still_free : (i : ℕ) → in_use fs i ≡ false → in_use fs' i ≡ false
  pub kept :
      (i : ℕ)
      → in_use fs i ≡ true
      → i ≢ sv.inode.indirect
      → ((k : ℕ) → k < limit → mapped fs sv k ≡ i → i ≡ 0)
      → in_use fs' i ≡ true
  pub frame : (c w : ℕ) → c ≢ sv.inode.indirect → fs'.disk c w ≡ fs.disk c w

pub IsTrimmed-none :
    (fs : SfsFs) (sv : SfsVnode) → Valid fs sv → Works fs → IsTrimmed (λ k. false) fs sv fs sv
IsTrimmed-none fs sv v works = record {
  valid = v;
  works = works;
  at = λ k l. refl;
  freed = λ k l g. ground (arith, g);
  still_free = λ i u. u;
  kept = λ i u ne out. u;
  frame = λ c w ne. refl;
}

-- Whether a place that holds no block counts as gone makes no difference.
pub IsTrimmed-cong :
    (g g' : ℕ → Bool) (fs fs' : SfsFs) (sv sv' : SfsVnode)
    → IsTrimmed g fs sv fs' sv'
    → ((k : ℕ) → k < limit → (g k ≡ g' k) ⊎ (mapped fs sv k ≡ 0))
    → IsTrimmed g' fs sv fs' sv'
IsTrimmed-cong g g' fs fs' sv sv' t same = record {
  valid = t.valid;
  works = t.works;
  at = λ k l. at k (same k l) (t.at k l);
  freed = λ k l gone nz. t.freed k l (gone_too k gone nz (same k l)) nz;
  still_free = t.still_free;
  kept = t.kept;
  frame = t.frame;
}
  where
    at :
        (k : ℕ)
        → (g k ≡ g' k) ⊎ (mapped fs sv k ≡ 0)
        → mapped fs' sv' k ≡ (if g k then 0 else mapped fs sv k)
        → mapped fs' sv' k ≡ (if g' k then 0 else mapped fs sv k)
    at k (inl e) h = ground (arith, h, e)
    at k (inr z) h = ground (arith, h, z)

    gone_too :
        (k : ℕ)
        → g' k ≡ true
        → mapped fs sv k ≢ 0
        → (g k ≡ g' k) ⊎ (mapped fs sv k ≡ 0)
        → g k ≡ true
    gone_too k gone nz (inl e) = e ∙ gone
    gone_too k gone nz (inr z) = absurd (nz z)

-- One after the other.
pub IsTrimmed-trans :
    (g g' : ℕ → Bool) (fs fs₁ fs₂ : SfsFs) (sv sv₁ sv₂ : SfsVnode)
    → sv₁.inode.indirect ≡ sv.inode.indirect
    → IsTrimmed g fs sv fs₁ sv₁
    → IsTrimmed g' fs₁ sv₁ fs₂ sv₂
    → IsTrimmed (λ k. g k || g' k) fs sv fs₂ sv₂
IsTrimmed-trans g g' fs fs₁ fs₂ sv sv₁ sv₂ ei t t' = record {
  valid = t'.valid;
  works = t'.works;
  at = λ k l. ground (arith, t.at k l, t'.at k l);
  freed = λ k l gone nz. elim (Bool-cases (g k)) [
    | inl y ↦ t'.still_free (mapped fs sv k) (t.freed k l y nz)
    | inr n ↦
        let e : mapped fs₁ sv₁ k ≡ mapped fs sv k = ground (arith, t.at k l, n) in
        ap (in_use fs₂) (sym e) ∙ t'.freed k l ground (arith, gone, n) (λ z. nz (sym e ∙ z))
  ];
  still_free = λ i u. t'.still_free i (t.still_free i u);
  kept = λ i u ne out.
      t'.kept i (t.kept i u ne out) (λ e. ne (e ∙ ei)) (λ k l e. out' i k out l (t.at k l) e);
  frame = λ c w ne. t'.frame c w (λ e. ne (e ∙ ei)) ∙ t.frame c w ne;
}
  where
    out' :
        (i k : ℕ)
        → ((k : ℕ) → k < limit → mapped fs sv k ≡ i → i ≡ 0)
        → k < limit
        → mapped fs₁ sv₁ k ≡ (if g k then 0 else mapped fs sv k)
        → mapped fs₁ sv₁ k ≡ i
        → i ≡ 0
    out' i k out l at e = elim (Bool-cases (g k)) [
      | inl y ↦ ground (arith, at, y, e)
      | inr n ↦ out k l ground (arith, at, n, e)
    ]

-- The block at place `i` is given back.
pub trim_one :
    (i : ℕ) (fs fs' : SfsFs) (sv sv' : SfsVnode)
    → Valid fs sv
    → i < limit
    → mapped fs sv i ≢ 0
    → IsSpace fs'
    → Works fs'
    → fs'.nblocks ≡ fs.nblocks
    → ((j : ℕ) → in_use fs' j ≡ (if j == mapped fs sv i then false else in_use fs j))
    → sv'.inode.indirect ≡ sv.inode.indirect
    → ((k : ℕ) → k < limit → mapped fs' sv' k ≡ (if k == i then 0 else mapped fs sv k))
    → ((c w : ℕ) → c ≢ sv.inode.indirect → fs'.disk c w ≡ fs.disk c w)
    → IsTrimmed (λ k. k == i) fs sv fs' sv'
trim_one i fs fs' sv sv' v low nz space works same left ei at frame = record {
  valid = record {
    space = space;
    used = λ k l ne.
        let there = stays k l ne in
        let (inside, mark) = v.used k l (λ z. ne (there ∙ z)) in
        (
          subst (λ x. x < fs'.nblocks) (sym there) (omega (arith, inside, same)),
          ap (in_use fs') there
              ∙ kept (mapped fs sv k) mark (v.once k i l low (other k l ne) (λ z. ne (there ∙ z))),
        );
    index = λ ne.
        let (inside, mark) = v.index (λ z. ne (ei ∙ z)) in
        (
          subst (λ x. x < fs'.nblocks) (sym ei) (omega (arith, inside, same)),
          ap (in_use fs') ei ∙ kept sv.inode.indirect mark (λ e. v.apart i low nz (sym e)),
        );
    apart = λ k l ne eq.
        let there = stays k l ne in v.apart k l (λ z. ne (there ∙ z)) (sym there ∙ eq ∙ ei);
    once = λ k l lk ll differ ne eq.
        let there = stays k lk ne in
        let there' = stays l ll (λ z. ne (eq ∙ z)) in
        v.once k l lk ll differ (λ z. ne (there ∙ z)) (sym there ∙ eq ∙ there');
  };
  works = works;
  at = at;
  freed =
      λ k l gone ne. ground (arith, left (mapped fs sv k), ap (mapped fs sv) ((==_iff k i).0 gone));
  still_free = λ j u. ground (arith, left j, u);
  kept = λ j u ne out. elim (ℕ_discrete j (mapped fs sv i)) [
    | yes e ↦ absurd (nz (sym e ∙ out i low (sym e)))
    | no ne' ↦ kept j u ne'
  ];
  frame = frame;
}
  where
    stays : (k : ℕ) → k < limit → mapped fs' sv' k ≢ 0 → mapped fs' sv' k ≡ mapped fs sv k
    stays k l ne = elim (ℕ_discrete k i) [
      | yes e ↦ absurd (ne ground (arith, at k l, e))
      | no ne' ↦ ground (arith, at k l, ne')
    ]

    other : (k : ℕ) → k < limit → mapped fs' sv' k ≢ 0 → k ≢ i
    other k l ne e = ne ground (arith, at k l, e)

    kept : (j : ℕ) → in_use fs j ≡ true → j ≢ mapped fs sv i → in_use fs' j ≡ true
    kept j u ne = ground (arith, left j, u, ne)

-- The same blocks by another state.
pub IsTrimmed-same :
    (fs fs' : SfsFs) (sv sv' : SfsVnode)
    → Valid fs sv
    → IsSpace fs'
    → Works fs'
    → fs'.nblocks ≡ fs.nblocks
    → ((i : ℕ) → in_use fs' i ≡ in_use fs i)
    → sv'.inode.indirect ≡ sv.inode.indirect
    → ((k : ℕ) → k < limit → mapped fs' sv' k ≡ mapped fs sv k)
    → ((c w : ℕ) → c ≢ sv.inode.indirect → fs'.disk c w ≡ fs.disk c w)
    → IsTrimmed (λ k. false) fs sv fs' sv'
IsTrimmed-same fs fs' sv sv' v space works same bits ei at frame = record {
  valid = record {
    space = space;
    used = λ k l ne.
        let (inside, mark) = v.used k l (λ z. ne (at k l ∙ z)) in
        (
          subst (λ x. x < fs'.nblocks) (sym (at k l)) (omega (arith, inside, same)),
          ap (in_use fs') (at k l) ∙ bits (mapped fs sv k) ∙ mark,
        );
    index = λ ne.
        let (inside, mark) = v.index (λ z. ne (ei ∙ z)) in
        (
          subst (λ x. x < fs'.nblocks) (sym ei) (omega (arith, inside, same)),
          ap (in_use fs') ei ∙ bits sv.inode.indirect ∙ mark,
        );
    apart = λ k l ne eq. v.apart k l (λ z. ne (at k l ∙ z)) (sym (at k l) ∙ eq ∙ ei);
    once = λ k l lk ll differ ne eq.
        v.once k l lk ll differ (λ z. ne (at k lk ∙ z)) (sym (at k lk) ∙ eq ∙ at l ll);
  };
  works = works;
  at = at;
  freed = λ k l g. ground (arith, g);
  still_free = λ i u. bits i ∙ u;
  kept = λ i u ne out. bits i ∙ u;
  frame = frame;
}

-- The indirect block, which holds no block any more, is given back.
pub trim_index :
    (fs fs' : SfsFs) (sv : SfsVnode)
    → Valid fs sv
    → sv.inode.indirect ≢ 0
    → ((k : ℕ) → 15 ≤ k → k < limit → mapped fs sv k ≡ 0)
    → IsSpace fs'
    → Works fs'
    → fs'.nblocks ≡ fs.nblocks
    → ((j : ℕ) → in_use fs' j ≡ (if j == sv.inode.indirect then false else in_use fs j))
    → ((c w : ℕ) → c ≢ sv.inode.indirect → fs'.disk c w ≡ fs.disk c w)
    → IsTrimmed (λ k. false) fs sv fs' (set_indirect 0 sv)
trim_index fs fs' sv v nz empty space works same left frame = record {
  valid = record {
    space = space;
    used = λ k l ne.
        let nz' : mapped fs sv k ≢ 0 = λ z. ne (at k l ∙ z) in
        let (inside, mark) = v.used k l nz' in
        (
          subst (λ x. x < fs'.nblocks) (sym (at k l)) (omega (arith, inside, same)),
          ap (in_use fs') (at k l) ∙ kept (mapped fs sv k) mark (v.apart k l nz'),
        );
    index = λ ne. absurd (ne refl);
    apart = λ k l ne eq. ne eq;
    once = λ k l lk ll differ ne eq.
        v.once k l lk ll differ (λ z. ne (at k lk ∙ z)) (sym (at k lk) ∙ eq ∙ at l ll);
  };
  works = works;
  at = at;
  freed = λ k l g. ground (arith, g);
  still_free = λ i u. ground (arith, left i, u);
  kept = λ i u ne out. kept i u ne;
  frame = frame;
}
  where
    at : (k : ℕ) → k < limit → mapped fs' (set_indirect 0 sv) k ≡ mapped fs sv k
    at k l = elim (dec_lt k 15) [
      | yes small ↦ ground (arith, small)
      | no big ↦ ground (arith, big, empty k (omega (arith, big)) l)
    ]

    kept : (i : ℕ) → in_use fs i ≡ true → i ≢ sv.inode.indirect → in_use fs' i ≡ true
    kept i u ne = ground (arith, left i, u, ne)
