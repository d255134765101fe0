-- ===== src/Sfs/Entries.antt =====
-- kern/fs/sfs/sfs_vnode.c: the loop of sfs_truncate over the indirect block in its buffer.
use ece344_operating_systems.Base.{
  ℕ, zero, suc, ◌+◌, ◌-◌, ◌≤◌, ◌<◌, ◌≡◌, ◌≢◌, ◌⊎◌, refl, ap, sym, ◌∙◌, inl, inr, Bool, true, false,
  ◌&&◌, ◌||◌, not, Bool-cases, arith, ltb, leb, ◌==◌, if◌then◌else◌, done, ℕ_discrete, dec_lt,
}
use ece344_operating_systems.Sfs.{SfsFs, SfsVnode, set_block, set_word, sfs_bfree, free_entries}
use ece344_operating_systems.Sfs.Space.{Works, IsSpace, sfs_bfree_lem}
use ece344_operating_systems.Sfs.Mapped.{mapped, Valid}
use ece344_operating_systems.Sfs.Trimmed.{
  IsTrimmed, IsTrimmed-none, IsTrimmed-cong, IsTrimmed-trans, trim_one,
}

-- The disk as it will be when the buffer of the file's indirect block is written back.
abbrev pub buffered : (ℕ → ℕ) → SfsFs → SfsVnode → SfsFs
buffered idbuf fs sv = set_block sv.inode.indirect idbuf fs

-- What the loop gives back from entry `j` on.
abbrev pub entry_gone : ℕ → ℕ → ℕ → Bool
entry_gone j blocklen k = leb (15 + j) k && ltb blocklen k

-- What it leaves: the buffer, hasnonzero, iddirty and the state.
pub record IsSwept (j blocklen : ℕ) (idbuf : ℕ → ℕ) (nonzero dirty : Bool) (fs : SfsFs)
    (sv : SfsVnode) (idbuf' : ℕ → ℕ) (nonzero' dirty' : Bool) (fs' : SfsFs) : Type 0 where
  pub trimmed :
      IsTrimmed (entry_gone j blocklen) (buffered idbuf fs sv) sv (buffered idbuf' fs' sv) sv
  pub before : (w : ℕ) → w < j → idbuf' w ≡ idbuf w
  pub empty : nonzero' ≡ false → (nonzero ≡ false) × ((w : ℕ) → j ≤ w → w < 128 → idbuf' w ≡ 0)
  pub clean : dirty' ≡ false → (dirty ≡ false) × ((w : ℕ) → idbuf' w ≡ idbuf w)
  pub disk : (c w : ℕ) → fs'.disk c w ≡ fs.disk c w

pub IsSpace-buffered :
    (idbuf : ℕ → ℕ) (fs : SfsFs) (sv : SfsVnode) → IsSpace (buffered idbuf fs sv) → IsSpace fs
IsSpace-buffered idbuf fs sv s = record {
  map = s.map;
  room = s.room;
  tail = s.tail;
  super = s.super;
}

pub buffered-IsSpace :
    (idbuf : ℕ → ℕ) (fs : SfsFs) (sv : SfsVnode) → IsSpace fs → IsSpace (buffered idbuf fs sv)
buffered-IsSpace idbuf fs sv s = record {
  map = s.map;
  room = s.room;
  tail = s.tail;
  super = s.super;
}

at_entry :
    (words : ℕ → ℕ) (fs : SfsFs) (sv : SfsVnode) (w : ℕ)
    → sv.inode.indirect ≢ 0
    → mapped (buffered words fs sv) sv (15 + w) ≡ words w
at_entry words fs sv w nz =
    let back : (15 + w) - 15 ≡ w = omega arith in ground (arith, nz, ap words back)

-- An entry that stays.
IsSwept-kept :
    (j blocklen : ℕ) (idbuf idbuf' : ℕ → ℕ) (nonzero dirty nonzero' dirty' : Bool) (fs fs' : SfsFs)
    (sv : SfsVnode)
    → sv.inode.indirect ≢ 0
    → (ltb blocklen (15 + j) && not (idbuf j == 0)) ≡ false
    → IsSwept
        (j + 1)
        blocklen
        idbuf
        (if idbuf j == 0 then nonzero else true)
        dirty
        fs
        sv
        idbuf'
        nonzero'
        dirty'
        fs'
    → IsSwept j blocklen idbuf nonzero dirty fs sv idbuf' nonzero' dirty' fs'
IsSwept-kept j blocklen idbuf idbuf' nonzero dirty nonzero' dirty' fs fs' sv nz n s = record {
  trimmed =
      IsTrimmed-cong (entry_gone (j + 1) blocklen) (entry_gone j blocklen) (buffered idbuf fs sv)
        (buffered idbuf' fs' sv) sv sv s.trimmed
        (λ k l. nothing k (ℕ_discrete k (15 + j)) (ℕ_discrete (idbuf j) 0));
  before = λ w l. s.before w (omega (arith, l));
  empty = λ z. (
    none_yet (s.empty z).0,
    λ w lo hi. zeros w lo hi (s.empty z).0 (s.empty z).1 (ℕ_discrete w j),
  );
  clean = s.clean;
  disk = s.disk;
}
  where
    none_yet : (if idbuf j == 0 then nonzero else true) ≡ false → nonzero ≡ false
    none_yet e = ground (arith, e)

    zeros :
        (w : ℕ)
        → j ≤ w
        → w < 128
        → (if idbuf j == 0 then nonzero else true) ≡ false
        → ((w : ℕ) → j + 1 ≤ w → w < 128 → idbuf' w ≡ 0)
        → Dec (w ≡ j)
        → idbuf' w ≡ 0
    zeros w lo hi e rest (yes at) =
        let z : idbuf j ≡ 0 = ground (arith, e) in s.before w (omega (arith, at)) ∙ ap idbuf at ∙ z
    zeros w lo hi e rest (no ne) = rest w (omega (arith, lo, ne)) hi

    nothing :
        (k : ℕ)
        → Dec (k ≡ 15 + j)
        → Dec (idbuf j ≡ 0)
        → (entry_gone (j + 1) blocklen k ≡ entry_gone j blocklen k)
          ⊎ (mapped (buffered idbuf fs sv) sv k ≡ 0)
    nothing k (no ne) d = inl ground (arith, ne)
    nothing k (yes at) (yes z) =
        inr (ap (mapped (buffered idbuf fs sv) sv) at ∙ at_entry idbuf fs sv j nz ∙ z)
    nothing k (yes at) (no some_block) = inl ground (arith, n, at, some_block)

-- An entry that is given back.
IsSwept-freed :
    (j blocklen : ℕ) (idbuf idbuf' : ℕ → ℕ) (nonzero dirty nonzero' dirty' : Bool)
    (fs fs₁ fs' : SfsFs) (sv : SfsVnode)
    → ltb blocklen (15 + j) ≡ true
    → IsTrimmed
        (λ k. k == 15 + j)
        (buffered idbuf fs sv)
        sv
        (buffered (set_word j 0 idbuf) fs₁ sv)
        sv
    → ((c w : ℕ) → fs₁.disk c w ≡ fs.disk c w)
    → IsSwept (j + 1) blocklen (set_word j 0 idbuf) nonzero true fs₁ sv idbuf' nonzero' dirty' fs'
    → IsSwept j blocklen idbuf nonzero dirty fs sv idbuf' nonzero' dirty' fs'
IsSwept-freed j blocklen idbuf idbuf' nonzero dirty nonzero' dirty' fs fs₁ fs' sv past t same s =
    record {
      trimmed =
          IsTrimmed-cong (λ k. k == 15 + j || entry_gone (j + 1) blocklen k) (entry_gone j blocklen)
            (buffered idbuf fs sv) (buffered idbuf' fs' sv) sv sv
            (IsTrimmed-trans (λ k. k == 15 + j) (entry_gone (j + 1) blocklen) (buffered idbuf fs sv)
              (buffered (set_word j 0 idbuf) fs₁ sv) (buffered idbuf' fs' sv) sv sv sv refl t
              s.trimmed)
            (λ k l. inl ground (arith, past));
      before = λ w l. earlier w l (s.before w (omega (arith, l)));
      empty = λ z. ((s.empty z).0, λ w lo hi. zeros w lo hi (s.empty z).1 (ℕ_discrete w j));
      clean = λ c. dirtied (s.clean c).0;
      disk = λ c w. s.disk c w ∙ same c w;
    }
  where
    earlier : (w : ℕ) → w < j → idbuf' w ≡ set_word j 0 idbuf w → idbuf' w ≡ idbuf w
    earlier w l e = ground (arith, e, l)

    zeroed : idbuf' j ≡ set_word j 0 idbuf j
    zeroed = s.before j (omega arith)

    zeros :
        (w : ℕ)
        → j ≤ w
        → w < 128
        → ((w : ℕ) → j + 1 ≤ w → w < 128 → idbuf' w ≡ 0)
        → Dec (w ≡ j)
        → idbuf' w ≡ 0
    zeros w lo hi rest (yes at) = ground (arith, ap idbuf' at, zeroed)
    zeros w lo hi rest (no ne) = rest w (omega (arith, lo, ne)) hi

    dirtied : true ≡ false → (dirty ≡ false) × ((w : ℕ) → idbuf' w ≡ idbuf w)
    dirtied e = absurd ground (arith, e)

entry_freed :
    (j : ℕ) (idbuf : ℕ → ℕ) (fs : SfsFs) (sv : SfsVnode)
    → j < 128
    → sv.inode.indirect ≢ 0
    → Valid (buffered idbuf fs sv) sv
    → Works fs
    → idbuf j ≢ 0
    → (fs₁ : SfsFs) × (sfs_bfree (idbuf j) fs ≡ done fs₁)
      × IsTrimmed
          (λ k. k == 15 + j)
          (buffered idbuf fs sv)
          sv
          (buffered (set_word j 0 idbuf) fs₁ sv)
          sv
      × Works fs₁
      × ((c w : ℕ) → fs₁.disk c w ≡ fs.disk c w)
entry_freed j idbuf fs sv low nz v works some_block =
    let here : mapped (buffered idbuf fs sv) sv (15 + j) ≡ idbuf j = at_entry idbuf fs sv j nz in
    let nz' : mapped (buffered idbuf fs sv) sv (15 + j) ≢ 0 = λ z. some_block (sym here ∙ z) in
    let (inside, mark) = v.used (15 + j) (omega (arith, low)) nz' in
    let (fs₁, run, f) =
      sfs_bfree_lem (mapped (buffered idbuf fs sv) sv (15 + j)) fs
        (IsSpace-buffered idbuf fs sv v.space) works (omega (arith, nz')) inside mark in
    (
      fs₁,
      ap (λ b. sfs_bfree b fs) (sym here) ∙ run,
      trim_one (15 + j) (buffered idbuf fs sv) (buffered (set_word j 0 idbuf) fs₁ sv) sv sv v
          (omega (arith, low)) nz' (buffered-IsSpace (set_word j 0 idbuf) fs₁ sv f.space) f.works
          f.same f.left refl (λ k l. written fs₁ k (dec_lt k 15) (ℕ_discrete k (15 + j)))
          (λ c w ne. ground (arith, f.disk c w, ne)),
      f.works,
      f.disk,
    )
  where
    written :
        (fs₁ : SfsFs) (k : ℕ)
        → Dec (k < 15)
        → Dec (k ≡ 15 + j)
        → mapped (buffered (set_word j 0 idbuf) fs₁ sv) sv k
          ≡ (if k == 15 + j then 0 else mapped (buffered idbuf fs sv) sv k)
    written fs₁ k (yes small) d = ground (arith, small)
    written fs₁ k (no big) (yes e) =
        let off : k - 15 ≡ j = omega (arith, e) in ground (arith, big, e, off)
    written fs₁ k (no big) (no ne) =
        let off : k - 15 ≢ j = omega (arith, ne, big) in ground (arith, big, ne, off)

pub free_entries_lem :
    (rounds j blocklen : ℕ) (idbuf : ℕ → ℕ) (nonzero dirty : Bool) (fs : SfsFs) (sv : SfsVnode)
    → j + rounds ≡ 128
    → sv.inode.indirect ≢ 0
    → Valid (buffered idbuf fs sv) sv
    → Works fs
    → (idbuf' : ℕ → ℕ) × (nonzero' : Bool) × (dirty' : Bool) × (fs' : SfsFs) × (free_entries rounds
          j blocklen idbuf nonzero dirty fs
        ≡ done (idbuf', nonzero', dirty', fs'))
      × IsSwept j blocklen idbuf nonzero dirty fs sv idbuf' nonzero' dirty' fs'
unfolding free_entries
free_entries_lem zero j blocklen idbuf nonzero dirty fs sv e nz v works = (
  idbuf,
  nonzero,
  dirty,
  fs,
  refl,
  record {
    trimmed =
        IsTrimmed-cong (λ k. false) (entry_gone j blocklen) (buffered idbuf fs sv)
          (buffered idbuf fs sv) sv sv (IsTrimmed-none (buffered idbuf fs sv) sv v works)
          (λ k l. inl ground (arith, e, l));
    before = λ w l. refl;
    empty = λ n. (n, λ w lo hi. absurd (omega (arith, lo, hi, e)));
    clean = λ c. (c, λ w. refl);
    disk = λ c w. refl;
  },
)
free_entries_lem (suc rounds) j blocklen idbuf nonzero dirty fs sv e nz v works =
    elim (Bool-cases (ltb blocklen (15 + j) && not (idbuf j == 0))) [
      | inr n ↦
          let (idbuf', nonzero', dirty', fs', run, s) =
            free_entries_lem rounds (j + 1) blocklen idbuf (if idbuf j == 0 then nonzero else true)
              dirty fs sv (omega (arith, e)) nz v works in
          (
            idbuf',
            nonzero',
            dirty',
            fs',
            ground (arith, n, run),
            IsSwept-kept j blocklen idbuf idbuf' nonzero dirty nonzero' dirty' fs fs' sv nz n s,
          )
      | inl y ↦
          let past : ltb blocklen (15 + j) ≡ true = ground (arith, y) in
          let some_block : idbuf j ≢ 0 = ground (arith, y) in
          let (fs₁, run, t, works₁, same) =
            entry_freed j idbuf fs sv (omega (arith, e)) nz v works some_block in
          let (idbuf', nonzero', dirty', fs', rest, s) =
            free_entries_lem rounds (j + 1) blocklen (set_word j 0 idbuf) nonzero true fs₁ sv
              (omega (arith, e)) nz t.valid works₁ in
          (
            idbuf',
            nonzero',
            dirty',
            fs',
            ground (arith, y, run, rest),
            IsSwept-freed j blocklen idbuf idbuf' nonzero dirty nonzero' dirty' fs fs₁ fs' sv past t
                same s,
          )
    ]
