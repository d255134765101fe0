-- ===== src/Sfs/Alloc.antt =====
-- kern/fs/sfs/sfs_vnode.c: sfs_bmap where it has to allocate.
use ece344_operating_systems.Base.{
  ℕ, ◌-◌, ◌/◌, ◌%◌, ◌≤◌, ◌<◌, ◌≡◌, ◌≢◌, ◌⊎◌, refl, ap, sym, ◌∙◌, inl, inr, Bool, true, Bool-cases,
  none, some, arith, ◌==◌, if◌then◌else◌, done, ℕ_discrete, dec_lt,
}
use ece344_operating_systems.Base.Errno.{enospc, einval}
use ece344_operating_systems.Sfs.{
  SfsFs, SfsVnode, Mapping, set_indirect, set_block, set_word, hand_back, bmap_entry, bmap_indirect,
  sfs_bmap,
}
use ece344_operating_systems.Sfs.Space.{
  Works, in_use, IsSpace, IsFresh, sfs_balloc_lem, sfs_wblock-Works, sfs_rwblock-Works,
}
use ece344_operating_systems.Sfs.Mapped.{mapped, limit, Valid, Valid-mapped, Valid-indexed}
use ece344_operating_systems.Sfs.Bmap.{hand_back_lem, IsAllocated, IsFull, fresh-frame, direct_lem}

-- The block is put into the indirect block, which the file has.
entry_lem :
    (fb : ℕ) (idbuf : ℕ → ℕ) (fs : SfsFs) (sv : SfsVnode)
    → Valid fs sv
    → Works fs
    → 15 ≤ fb
    → sv.inode.indirect ≢ 0
    → ((w : ℕ) → idbuf w ≡ fs.disk sv.inode.indirect w)
    → mapped fs sv fb ≡ 0
    → (IsFull fs sv fs sv
        × (bmap_entry (fb - 15) true sv.inode.indirect idbuf fs sv ≡ done (enospc, none, fs, sv)))
      ⊎ ((b : ℕ) × (fs' : SfsFs) × (bmap_entry (fb - 15) true sv.inode.indirect idbuf fs sv
            ≡ done (0, some b, fs', sv))
          × IsAllocated fb b fs sv fs' sv)
unfolding bmap_entry
entry_lem fb idbuf fs sv v works big nz same free =
    let here : mapped fs sv fb ≡ fs.disk sv.inode.indirect (fb - 15) = ground (arith, big, nz) in
    let empty : idbuf (fb - 15) ≡ 0 = same (fb - 15) ∙ sym here ∙ free in
    elim (sfs_balloc_lem fs v.space works) [
      | inl (full, run) ↦ inl (
        record { valid = v; works = works; full = full; at = λ k l. refl; frame = λ c w u. refl },
        ground (arith, run, empty),
      )
      | inr (b, fs₁, run, f) ↦
          let id = sv.inode.indirect in
          let words = set_word (fb - 15) b idbuf in
          let fs' = set_block id words fs₁ in
          let written = sfs_wblock-Works words id fs₁ f.works in
          let space : IsSpace fs' = record {
            map = f.space.map;
            room = f.space.room;
            tail = f.space.tail;
            super = f.space.super;
          } in
          let at : (k : ℕ) → k < limit → mapped fs' sv k ≡ (if k == fb then b else mapped fs sv k) =
            λ k l. at_lem b fs₁ f k in
          let valid : Valid fs' sv =
            Valid-mapped fb b fs fs' sv sv v space f.positive f.inside f.clear f.same refl f.taken
              at in
          let back : hand_back b fs' sv ≡ done (0, some b, fs', sv) =
            hand_back_lem b fs' sv space
              (λ ne. (omega (arith, f.inside, f.same), ground (arith, f.taken b))) in
          let apart : b ≢ id = λ e. ground (arith, (v.index nz).1, f.clear, ap (in_use fs) e) in
          inr (
            b,
            fs',
            ground (arith, run, empty, written, back),
            record {
              valid = valid;
              works = f.works;
              positive = f.positive;
              clear = f.clear;
              at = at;
              zeroed = λ w. ground (arith, f.zeroed b w, apart);
              kept = λ i u. ground (arith, f.taken i, u);
              frame = λ c w u ne. ground (arith, fresh-frame b c w fs fs₁ f u, ne);
            },
          )
    ]
  where
    at_lem :
        (b : ℕ) (fs₁ : SfsFs)
        → IsFresh fs b fs₁
        → (k : ℕ)
        → mapped (set_block sv.inode.indirect (set_word (fb - 15) b idbuf) fs₁) sv k
          ≡ (if k == fb then b else mapped fs sv k)
    at_lem b fs₁ f k = elim (dec_lt k 15) [
      | yes small ↦ ground (arith, small, big)
      | no large ↦ elim (ℕ_discrete k fb) [
        | yes e ↦ ground (arith, e, big, nz)
        | no ne ↦
            let other : k - 15 ≢ fb - 15 = omega (arith, large, big, ne) in
            ground (arith, large, nz, other, ne, same (k - 15))
      ]
    ]

-- What sfs_bmap leaves when the file does not have the block.
abbrev pub Outcome : ℕ → Mapping → SfsFs → SfsVnode → Type 0
Outcome fb m fs sv =
    ((fs' : SfsFs) × (sv' : SfsVnode) × (m ≡ done (enospc, none, fs', sv')) × IsFull fs sv fs' sv')
    ⊎ ((b : ℕ) × (fs' : SfsFs) × (sv' : SfsVnode) × (m ≡ done (0, some b, fs', sv'))
        × IsAllocated fb b fs sv fs' sv')

-- The same after the file has got its indirect block.
after_index :
    (fb id b : ℕ) (fs fs₁ fs' : SfsFs) (sv sv₁ sv' : SfsVnode)
    → Valid fs sv
    → IsFresh fs id fs₁
    → sv.inode.indirect ≡ 0
    → sv₁.inode.indirect ≡ id
    → ((k : ℕ) → k < limit → mapped fs₁ sv₁ k ≡ mapped fs sv k)
    → IsAllocated fb b fs₁ sv₁ fs' sv'
    → IsAllocated fb b fs sv fs' sv'
after_index fb id b fs fs₁ fs' sv sv₁ sv' v f none_yet ei at a = record {
  valid = a.valid;
  works = a.works;
  positive = a.positive;
  clear = elim (Bool-cases (in_use fs b)) [
    | inl y ↦ ground (arith, f.taken b, y, a.clear)
    | inr n ↦ n
  ];
  at = λ k l. ground (arith, a.at k l, at k l);
  zeroed = a.zeroed;
  kept = λ i u. a.kept i ground (arith, f.taken i, u);
  frame = λ c w u ne.
      let apart : c ≢ id = λ e. ground (arith, u, f.clear, ap (in_use fs) e) in
      a.frame c w ground (arith, f.taken c, u) (λ e. apart (e ∙ ei))
      ∙ fresh-frame id c w fs fs₁ f u;
}

indirect_lem :
    (fb : ℕ) (fs : SfsFs) (sv : SfsVnode)
    → Valid fs sv
    → Works fs
    → 15 ≤ fb
    → mapped fs sv fb ≡ 0
    → Outcome fb (bmap_indirect (fb - 15) true fs sv) fs sv
unfolding bmap_indirect
indirect_lem fb fs sv v works big free = elim (ℕ_discrete sv.inode.indirect 0) [
  | no nz ↦ elim (entry_lem fb (fs.disk sv.inode.indirect) fs sv v works big nz (λ w. refl) free) [
    | inl (is, run) ↦ inl (fs, sv, ground (arith, nz, sfs_rwblock-Works fs works, run), is)
    | inr (b, fs', run, is) ↦
        inr (b, fs', sv, ground (arith, nz, sfs_rwblock-Works fs works, run), is)
  ]
  | yes z ↦ elim (sfs_balloc_lem fs v.space works) [
    | inl (full, run) ↦ inl (
      fs,
      sv,
      ground (arith, z, run),
      record { valid = v; works = works; full = full; at = λ k l. refl; frame = λ c w u. refl },
    )
    | inr (id, fs₁, run, f) ↦
        let sv₁ = set_indirect id sv in
        let at : (k : ℕ) → k < limit → mapped fs₁ sv₁ k ≡ mapped fs sv k =
          λ k l. ground (arith, z, f.zeroed id (k - 15)) in
        let v₁ : Valid fs₁ sv₁ =
          Valid-indexed id fs fs₁ sv sv₁ v f.space f.positive f.inside f.clear f.same refl f.taken
            at in
        let nz : id ≢ 0 = omega (arith, f.positive) in
        let empty : mapped fs₁ sv₁ fb ≡ 0 = ground (arith, big, nz, f.zeroed id (fb - 15)) in
        elim (entry_lem fb (λ w. 0) fs₁ sv₁ v₁ f.works big nz (λ w. ground (arith, f.zeroed id w))
          empty) [
            | inl (is, run') ↦ inl (
              fs₁,
              sv₁,
              ground (arith, z, run, run'),
              record {
                valid = v₁;
                works = f.works;
                full = is.full;
                at = at;
                frame = λ c w u. fresh-frame id c w fs fs₁ f u;
              },
            )
            | inr (b, fs', run', is) ↦ inr (
              b,
              fs',
              sv₁,
              ground (arith, z, run, run'),
              after_index fb id b fs fs₁ fs' sv sv₁ sv₁ v f z refl at is,
            )
          ]
  ]
]

-- On a file whose blocks are in use and differ, with a device that works, sfs_bmap with doalloc and a
-- block among the first 143 that the file does not have ends in one of two ways. Either it hands out a
-- free block, cleared, as that block of the file and keeps every other block of the file and every block
-- in use, and writes none of them but the file's indirect block; or it says ENOSPC with every block of the
-- disk in use, the file's map as it was and no block written that was in use.
pub sfs_bmap_lem :
    (fb : ℕ) (fs : SfsFs) (sv : SfsVnode)
    → Valid fs sv
    → Works fs
    → fb < 143
    → mapped fs sv fb ≡ 0
    → Outcome fb (sfs_bmap fb true fs sv) fs sv
unfolding sfs_bmap
sfs_bmap_lem fb fs sv v works low free = elim (dec_lt fb 15) [
  | yes small ↦
      let none_yet : sv.inode.direct fb ≡ 0 = ground (arith, small, free) in
      elim (direct_lem fb fs sv v works small none_yet) [
        | inl (is, run) ↦ inl (fs, sv, ground (arith, small, run), is)
        | inr (b, fs', sv', run, is) ↦ inr (b, fs', sv', ground (arith, small, run), is)
      ]
  | no big ↦
      let zero_id : (fb - 15) / 128 ≡ 0 = omega (arith, low) in
      let off : (fb - 15) % 128 ≡ fb - 15 = omega (arith, low) in
      elim (indirect_lem fb fs sv v works (omega (arith, big)) free) [
        | inl (fs', sv', run, is) ↦ inl (fs', sv', ground (arith, big, zero_id, off, run), is)
        | inr (b, fs', sv', run, is) ↦ inr (b, fs', sv', ground (arith, big, zero_id, off, run), is)
      ]
]

-- Past the last block that an indirect block can hold, sfs_bmap says EINVAL.
pub bmap-past_end :
    (fb : ℕ) (doalloc : Bool) (fs : SfsFs) (sv : SfsVnode)
    → 143 ≤ fb
    → sfs_bmap fb doalloc fs sv ≡ done (einval, none, fs, sv)
unfolding sfs_bmap
bmap-past_end fb doalloc fs sv big =
    let id : 0 < (fb - 15) / 128 = omega (arith, big) in ground (arith, id, big)
