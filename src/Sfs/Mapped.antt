-- ===== src/Sfs/Mapped.antt =====
-- kern/fs/sfs/sfs_vnode.c: the blocks of a file as one map, and what holds of them.
use ece344_operating_systems.Base.{
  ℕ, ◌-◌, ◌<◌, ◌≡◌, ◌≢◌, ap, sym, ◌∙◌, subst, true, false, arith, ltb, ◌==◌, if◌then◌else◌,
  ℕ_discrete,
}
use ece344_operating_systems.Sfs.{SfsFs, SfsVnode}
use ece344_operating_systems.Sfs.Space.{in_use, IsSpace}

-- The disk block that holds block `k` of the file, and 0 where there is none.
abbrev pub mapped : SfsFs → SfsVnode → ℕ → ℕ
mapped fs sv k =
    if ltb k 15
    then sv.inode.direct k
    else if sv.inode.indirect == 0
    then 0
    else fs.disk sv.inode.indirect (k - 15)

abbrev pub limit : ℕ
limit = 143

-- The blocks of the file and its indirect block are in mark, and they are different blocks.
pub record Valid (fs : SfsFs) (sv : SfsVnode) : Type 0 where
  pub space : IsSpace fs
  pub used :
      (k : ℕ)
      → k < limit
      → mapped fs sv k ≢ 0
      → (mapped fs sv k < fs.nblocks) × (in_use fs (mapped fs sv k) ≡ true)
  pub index :
      sv.inode.indirect ≢ 0
      → (sv.inode.indirect < fs.nblocks) × (in_use fs sv.inode.indirect ≡ true)
  pub apart : (k : ℕ) → k < limit → mapped fs sv k ≢ 0 → mapped fs sv k ≢ sv.inode.indirect
  pub once :
      (k l : ℕ)
      → k < limit
      → l < limit
      → k ≢ l
      → mapped fs sv k ≢ 0
      → mapped fs sv k ≢ mapped fs sv l

-- A block that was free goes to place `fb` of the file.
pub Valid-mapped :
    (fb b : ℕ) (fs fs' : SfsFs) (sv sv' : SfsVnode)
    → Valid fs sv
    → IsSpace fs'
    → 0 < b
    → b < fs.nblocks
    → in_use fs b ≡ false
    → fs'.nblocks ≡ fs.nblocks
    → sv'.inode.indirect ≡ sv.inode.indirect
    → ((i : ℕ) → in_use fs' i ≡ (if i == b then true else in_use fs i))
    → ((k : ℕ) → k < limit → mapped fs' sv' k ≡ (if k == fb then b else mapped fs sv k))
    → Valid fs' sv'
Valid-mapped fb b fs fs' sv sv' v s pos inside clear same ei taken at = record {
  space = s;
  used = λ k l ne. elim (ℕ_discrete k fb) [
    | yes e ↦
        let here : mapped fs' sv' k ≡ b = ground (arith, at k l, e) in
        (
          subst (λ x. x < fs'.nblocks) (sym here) (omega (arith, inside, same)),
          ap (in_use fs') here ∙ ground (arith, taken b),
        )
    | no ne' ↦
        let there : mapped fs' sv' k ≡ mapped fs sv k = ground (arith, at k l, ne') in
        let (low, mark) = v.used k l (λ z. ne (there ∙ z)) in
        (
          subst (λ x. x < fs'.nblocks) (sym there) (omega (arith, low, same)),
          ap (in_use fs') there ∙ kept (mapped fs sv k) mark,
        )
  ];
  index = λ ne.
      let (low, mark) = v.index (λ z. ne (ei ∙ z)) in
      (
        subst (λ x. x < fs'.nblocks) (sym ei) (omega (arith, low, same)),
        ap (in_use fs') ei ∙ kept sv.inode.indirect mark,
      );
  apart = λ k l ne eq. elim (ℕ_discrete k fb) [
    | yes e ↦
        let here : mapped fs' sv' k ≡ b = ground (arith, at k l, e) in
        let hit : sv.inode.indirect ≡ b = sym ei ∙ sym eq ∙ here in
        let nz : sv.inode.indirect ≢ 0 = λ z. omega (arith, hit, z, pos) in
        ground (arith, (v.index nz).1, ap (in_use fs) hit, clear)
    | no ne' ↦
        let there : mapped fs' sv' k ≡ mapped fs sv k = ground (arith, at k l, ne') in
        v.apart k l (λ z. ne (there ∙ z)) (sym there ∙ eq ∙ ei)
  ];
  once = λ k l lk ll ne nz eq. different k l lk ll ne nz eq;
}
  where
    kept : (i : ℕ) → in_use fs i ≡ true → in_use fs' i ≡ true
    kept i mark = ground (arith, taken i, mark)

    fresh : (k : ℕ) → k < limit → mapped fs sv k ≢ b
    fresh k l e = ground (arith, (v.used k l (omega (arith, e, pos))).1, clear, ap (in_use fs) e)

    different :
        (k l : ℕ)
        → k < limit
        → l < limit
        → k ≢ l
        → mapped fs' sv' k ≢ 0
        → mapped fs' sv' k ≢ mapped fs' sv' l
    different k l lk ll ne nz eq = elim (ℕ_discrete k fb) [
      | yes e ↦
          let here : mapped fs' sv' k ≡ b = ground (arith, at k lk, e) in
          let other : l ≢ fb = λ e'. ne (e ∙ sym e') in
          let there : mapped fs' sv' l ≡ mapped fs sv l = ground (arith, at l ll, other) in
          fresh l ll (sym there ∙ sym eq ∙ here)
      | no ne' ↦
          let there : mapped fs' sv' k ≡ mapped fs sv k = ground (arith, at k lk, ne') in
          elim (ℕ_discrete l fb) [
            | yes e ↦
                let here : mapped fs' sv' l ≡ b = ground (arith, at l ll, e) in
                fresh k lk (sym there ∙ eq ∙ here)
            | no ne'' ↦
                let there' : mapped fs' sv' l ≡ mapped fs sv l = ground (arith, at l ll, ne'') in
                v.once k l lk ll ne (λ z. nz (there ∙ z)) (sym there ∙ eq ∙ there')
          ]
    ]

-- A block that was free becomes the indirect block of a file that had none.
pub Valid-indexed :
    (b : ℕ) (fs fs' : SfsFs) (sv sv' : SfsVnode)
    → Valid fs sv
    → IsSpace fs'
    → 0 < b
    → b < fs.nblocks
    → in_use fs b ≡ false
    → fs'.nblocks ≡ fs.nblocks
    → sv'.inode.indirect ≡ b
    → ((i : ℕ) → in_use fs' i ≡ (if i == b then true else in_use fs i))
    → ((k : ℕ) → k < limit → mapped fs' sv' k ≡ mapped fs sv k)
    → Valid fs' sv'
Valid-indexed b fs fs' sv sv' v s pos inside clear same ei taken at = record {
  space = s;
  used = λ k l ne.
      let (low, mark) = v.used k l (λ z. ne (at k l ∙ z)) in
      (
        subst (λ x. x < fs'.nblocks) (sym (at k l)) (omega (arith, low, same)),
        ap (in_use fs') (at k l) ∙ ground (arith, taken (mapped fs sv k), mark),
      );
  index = λ ne. (
    subst (λ x. x < fs'.nblocks) (sym ei) (omega (arith, inside, same)),
    ap (in_use fs') ei ∙ ground (arith, taken b),
  );
  apart = λ k l ne eq. fresh k l (sym (at k l) ∙ eq ∙ ei);
  once = λ k l lk ll ne nz eq.
      v.once k l lk ll ne (λ z. nz (at k lk ∙ z)) (sym (at k lk) ∙ eq ∙ at l ll);
}
  where
    fresh : (k : ℕ) → k < limit → mapped fs sv k ≢ b
    fresh k l e = ground (arith, (v.used k l (omega (arith, e, pos))).1, clear, ap (in_use fs) e)
