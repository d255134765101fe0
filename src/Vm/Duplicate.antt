-- ===== src/Vm/Duplicate.antt =====
-- kern/arch/mips/mips/dumbvm.c: as_copy.
use ece344_operating_systems.Base.{
  ℕ, ◌+◌, ◌-◌, ◌*◌, ◌%◌, ◌^◌, ◌≤◌, ◌<◌, ◌≡◌, ◌⊎◌, refl, ap, ◌∙◌, inl, inr, Bool, true, false, ◌&&◌,
  Bool-cases, none, some, arith, ltb, leb, if◌then◌else◌, done,
}
use ece344_operating_systems.Base.Errno.{enomem}
use ece344_operating_systems.Uio.{memmove}
use ece344_operating_systems.Vm.{
  RamState, Addrspace, as_create, as_prepare_load, move_pages, as_copy, stackpages,
}
use ece344_operating_systems.Vm.Fault.{translate, IsLoaded}
use ece344_operating_systems.Vm.Ram.{IsRam, getppages_lem}

-- The copy, whose pages are the next ones of physical memory.
abbrev pub duplicate : Addrspace → ℕ → Addrspace
duplicate old first = record {
  vbase1 = old.vbase1;
  pbase1 = first;
  npages1 = old.npages1;
  vbase2 = old.vbase2;
  pbase2 = first + old.npages1 * 4096;
  npages2 = old.npages2;
  stackpbase = first + old.npages1 * 4096 + old.npages2 * 4096;
}

abbrev pub end_of : Addrspace → ℕ → ℕ
end_of old first = first + old.npages1 * 4096 + old.npages2 * 4096 + 12 * 4096

-- The same regions with other pages.
abbrev blank : Addrspace → ℕ → ℕ → ℕ → Addrspace
blank old p q s = record {
  vbase1 = old.vbase1;
  pbase1 = p;
  npages1 = old.npages1;
  vbase2 = old.vbase2;
  pbase2 = q;
  npages2 = old.npages2;
  stackpbase = s;
}

prepare_lem :
    (old : Addrspace) (r : RamState)
    → IsRam r
    → IsLoaded old r.firstpaddr
    → ((r.lastpaddr < end_of old r.firstpaddr)
        × ((space : Addrspace) × (r' : RamState) × (as_prepare_load (blank old 0 0 0) r
              ≡ done (enomem, space, r'))
            × IsRam r'
            × (r.firstpaddr ≤ r'.firstpaddr)))
      ⊎ ((end_of old r.firstpaddr ≤ r.lastpaddr)
          × (as_prepare_load (blank old 0 0 0) r
              ≡ done (
                0,
                duplicate old r.firstpaddr,
                record r { firstpaddr = end_of old r.firstpaddr },
              ))
          × IsRam (record r { firstpaddr = end_of old r.firstpaddr }))
unfolding as_prepare_load
prepare_lem old r ok s =
    let few1 : old.npages1 * 4096 < 2 ^ 31 = omega (arith, s.below.0, s.low) in
    let few2 : old.npages2 * 4096 < 2 ^ 31 = omega (arith, s.below.1, s.low) in
    let pos = ok.positive in
    elim (getppages_lem old.npages1 r ok few1) [
      | inl (short, run) ↦
          inl (omega (arith, short), (blank old 0 0 0, r, ground (arith, run), ok, omega arith))
      | inr (room, run, ok₁) ↦
          let r₁ : RamState = record r { firstpaddr = r.firstpaddr + old.npages1 * 4096 } in
          elim (getppages_lem old.npages2 r₁ ok₁ few2) [
            | inl (short, run₁) ↦ inl (
              omega (arith, short),
              (blank old r.firstpaddr 0 0, r₁, ground (arith, run, run₁, pos), ok₁, omega arith),
            )
            | inr (room₁, run₁, ok₂) ↦
                let r₂ : RamState = record r₁ { firstpaddr = r₁.firstpaddr + old.npages2 * 4096 } in
                elim (getppages_lem stackpages r₂ ok₂ (omega arith)) [
                  | inl (short, run₂) ↦ inl (
                    omega (arith, short),
                    (
                      blank old r.firstpaddr r₁.firstpaddr 0,
                      r₂,
                      ground (arith, run, run₁, run₂, pos),
                      ok₂,
                      omega arith,
                    ),
                  )
                  | inr (room₂, run₂, ok₃) ↦
                      inr (omega (arith, room₂), ground (arith, run, run₁, run₂, pos), ok₃)
                ]
          ]
    ]

-- The copy of an address space behind another: every address of the user that the one translates the other
-- does, to a new page with the same byte.
pub record IsCopy (old : Addrspace) (first : ℕ) (bytes : ℕ → ℕ) (new : Addrspace) (bytes' : ℕ → ℕ)
    : Type 0 where
  pub found :
      (va pa : ℕ)
      → translate old va ≡ some pa
      → (pa' : ℕ) × (translate new va ≡ some pa') × (first ≤ pa') × (bytes' pa' ≡ bytes pa)
  pub missing : (va : ℕ) → translate old va ≡ none → translate new va ≡ none
  pub kept : (a : ℕ) → a < first → bytes' a ≡ bytes a

duplicate-IsLoaded :
    (old : Addrspace) (r : RamState)
    → IsRam r
    → IsLoaded old r.firstpaddr
    → end_of old r.firstpaddr ≤ r.lastpaddr
    → IsLoaded (duplicate old r.firstpaddr) (end_of old r.firstpaddr)
duplicate-IsLoaded old r ok s room = record {
  vbase1 = s.vbase1;
  vbase2 = s.vbase2;
  npages1 = s.npages1;
  npages2 = s.npages2;
  pbase1 = (ok.positive, ok.aligned);
  pbase2 = (omega (arith, ok.positive), omega (arith, ok.aligned));
  stackpbase = (omega (arith, ok.positive), omega (arith, ok.aligned));
  below = (omega arith, omega arith, omega arith);
  low = omega (arith, room, ok.low);
}

memmove-in :
    (dst src n k : ℕ) (byte : ℕ → ℕ) → k < n → memmove dst src n byte (k + dst) ≡ byte (k + src)
memmove-in dst src n k byte l =
    let at : src + (k + dst - dst) ≡ k + src = omega arith in
    let inside : (leb dst (k + dst) && ltb (k + dst) (dst + n)) ≡ true = ground (arith, l) in
    ap (λ b. if b then byte (src + (k + dst - dst)) else byte (k + dst)) inside ∙ ap byte at

memmove-out :
    (dst src n a : ℕ) (byte : ℕ → ℕ) → (a < dst) ⊎ (dst + n ≤ a) → memmove dst src n byte a ≡ byte a
memmove-out dst src n a byte (inl l) = ground (arith, l)
memmove-out dst src n a byte (inr l) = ground (arith, l)

-- The pages after the first move, after the second and after the third.
module _ (old : Addrspace) (first : ℕ) (bytes : ℕ → ℕ) (s : IsLoaded old first) where
  abbrev dst2 : ℕ
  dst2 = first + old.npages1 * 4096

  abbrev dst3 : ℕ
  dst3 = first + old.npages1 * 4096 + old.npages2 * 4096

  abbrev once : ℕ → ℕ
  once = memmove first old.pbase1 (old.npages1 * 4096 % 2 ^ 32) bytes

  abbrev twice : ℕ → ℕ
  twice = memmove dst2 old.pbase2 (old.npages2 * 4096 % 2 ^ 32) once

  once-below : (a : ℕ) → a < first → once a ≡ bytes a
  once-below a l = memmove-out first old.pbase1 (old.npages1 * 4096 % 2 ^ 32) a bytes (inl l)

  twice-below : (a : ℕ) → a < first → twice a ≡ bytes a
  twice-below a l =
      memmove-out dst2 old.pbase2 (old.npages2 * 4096 % 2 ^ 32) a once (inl (omega (arith, l)))
      ∙ once-below a l

  moved-below : (a : ℕ) → a < first → move_pages old (duplicate old first) bytes a ≡ bytes a
  moved-below a l =
      memmove-out dst3 old.stackpbase (12 * 4096) a twice (inl (omega (arith, l))) ∙ twice-below a l

  moved1 :
      (k : ℕ)
      → k < old.npages1 * 4096
      → move_pages old (duplicate old first) bytes (k + first) ≡ bytes (k + old.pbase1)
  moved1 k l =
      let n1 : k < old.npages1 * 4096 % 2 ^ 32 = omega (arith, l, s.below.0, s.low) in
      memmove-out dst3 old.stackpbase (12 * 4096) (k + first) twice (inl (omega (arith, l)))
      ∙ memmove-out dst2 old.pbase2 (old.npages2 * 4096 % 2 ^ 32) (k + first) once
          (inl (omega (arith, l)))
      ∙ memmove-in first old.pbase1 (old.npages1 * 4096 % 2 ^ 32) k bytes n1

  moved2 :
      (k : ℕ)
      → k < old.npages2 * 4096
      → move_pages old (duplicate old first) bytes (k + dst2) ≡ bytes (k + old.pbase2)
  moved2 k l =
      let n2 : k < old.npages2 * 4096 % 2 ^ 32 = omega (arith, l, s.below.1, s.low) in
      memmove-out dst3 old.stackpbase (12 * 4096) (k + dst2) twice (inl (omega (arith, l)))
      ∙ memmove-in dst2 old.pbase2 (old.npages2 * 4096 % 2 ^ 32) k once n2
      ∙ once-below (k + old.pbase2) (omega (arith, l, s.below.1))

  moved3 :
      (k : ℕ)
      → k < 12 * 4096
      → move_pages old (duplicate old first) bytes (k + dst3) ≡ bytes (k + old.stackpbase)
  moved3 k l =
      memmove-in dst3 old.stackpbase (12 * 4096) k twice l
      ∙ twice-below (k + old.stackpbase) (omega (arith, l, s.below.2))

duplicate-IsCopy :
    (old : Addrspace) (first : ℕ) (bytes : ℕ → ℕ)
    → IsLoaded old first
    → IsCopy old first bytes (duplicate old first) (move_pages old (duplicate old first) bytes)
duplicate-IsCopy old first bytes s = record {
  found = λ va pa e. found va pa e;
  missing = λ va e.
      missing va e (Bool-cases (leb old.vbase1 va && ltb va (old.vbase1 + old.npages1 * 4096)))
        (Bool-cases (leb old.vbase2 va && ltb va (old.vbase2 + old.npages2 * 4096)))
        (Bool-cases (leb 0x7fff4000 va && ltb va 0x80000000));
  kept = moved-below old first bytes s;
}
  where
    found :
        (va pa : ℕ)
        → translate old va ≡ some pa
        → (pa' : ℕ) × (translate (duplicate old first) va ≡ some pa')
          × (first ≤ pa')
          × (move_pages old (duplicate old first) bytes pa' ≡ bytes pa)
    found va pa e =
        elim (Bool-cases (leb old.vbase1 va && ltb va (old.vbase1 + old.npages1 * 4096))) [
          | inl y ↦
              let same : va - old.vbase1 + old.pbase1 ≡ pa = ground (arith, e, y) in
              let l : va - old.vbase1 < old.npages1 * 4096 = ground (arith, y) in
              (
                va - old.vbase1 + first,
                ground (arith, y),
                omega arith,
                moved1 old first bytes s (va - old.vbase1) l ∙ ap bytes same,
              )
          | inr n ↦
              elim (Bool-cases (leb old.vbase2 va && ltb va (old.vbase2 + old.npages2 * 4096))) [
                | inl y ↦
                    let same : va - old.vbase2 + old.pbase2 ≡ pa = ground (arith, e, n, y) in
                    let l : va - old.vbase2 < old.npages2 * 4096 = ground (arith, y) in
                    (
                      va - old.vbase2 + (first + old.npages1 * 4096),
                      ground (arith, n, y),
                      omega arith,
                      moved2 old first bytes s (va - old.vbase2) l ∙ ap bytes same,
                    )
                | inr n' ↦ elim (Bool-cases (leb 0x7fff4000 va && ltb va 0x80000000)) [
                  | inl y ↦
                      let same : va - 0x7fff4000 + old.stackpbase ≡ pa =
                        ground (arith, e, n, n', y) in
                      let l : va - 0x7fff4000 < 12 * 4096 = ground (arith, y) in
                      (
                        va - 0x7fff4000 + (first + old.npages1 * 4096 + old.npages2 * 4096),
                        ground (arith, n, n', y),
                        omega arith,
                        moved3 old first bytes s (va - 0x7fff4000) l ∙ ap bytes same,
                      )
                  | inr n'' ↦ absurd ground (arith, e, n, n', n'')
                ]
              ]
        ]

    missing :
        (va : ℕ)
        → translate old va ≡ none
        → ((leb old.vbase1 va && ltb va (old.vbase1 + old.npages1 * 4096)) ≡ true)
          ⊎ ((leb old.vbase1 va && ltb va (old.vbase1 + old.npages1 * 4096)) ≡ false)
        → ((leb old.vbase2 va && ltb va (old.vbase2 + old.npages2 * 4096)) ≡ true)
          ⊎ ((leb old.vbase2 va && ltb va (old.vbase2 + old.npages2 * 4096)) ≡ false)
        → ((leb 0x7fff4000 va && ltb va 0x80000000) ≡ true)
          ⊎ ((leb 0x7fff4000 va && ltb va 0x80000000) ≡ false)
        → translate (duplicate old first) va ≡ none
    missing va e (inl y) b c = absurd ground (arith, e, y)
    missing va e (inr n) (inl y) c = absurd ground (arith, e, n, y)
    missing va e (inr n) (inr n') (inl y) = absurd ground (arith, e, n, n', y)
    missing va e (inr n) (inr n') (inr n'') = ground (arith, n, n', n'')

-- With an address space that is set up in front of the memory that is left, as_copy says ENOMEM without memory
-- for the structure or for its pages, writes no byte and keeps the pages in use; else it gives a space
-- that is set up as well, by which every address of the user has the same byte as by the old one, in a
-- page of its own, and writes no byte in front of the new pages.
pub as_copy_lem :
    (mem : Bool) (old : Addrspace) (r : RamState) (bytes : ℕ → ℕ)
    → IsRam r
    → IsLoaded old r.firstpaddr
    → (((mem ≡ false) ⊎ (r.lastpaddr < end_of old r.firstpaddr))
        × ((r' : RamState) × (as_copy mem old r bytes ≡ done (enomem, none, r', bytes))
            × IsRam r'
            × (r.firstpaddr ≤ r'.firstpaddr)))
      ⊎ ((new : Addrspace) × (r' : RamState) × (bytes' : ℕ → ℕ) × (as_copy mem old r bytes
            ≡ done (0, some new, r', bytes'))
          × IsRam r'
          × IsLoaded new r'.firstpaddr
          × IsCopy old r.firstpaddr bytes new bytes')
unfolding as_copy as_create
as_copy_lem false old r bytes ok s = inl (inl refl, (r, refl, ok, omega arith))
as_copy_lem true old r bytes ok s = elim (prepare_lem old r ok s) [
  | inl (short, (space, r', run, ok', more)) ↦ inl (inr short, (r', ground (arith, run), ok', more))
  | inr (room, run, ok') ↦ inr (
    duplicate old r.firstpaddr,
    record r { firstpaddr = end_of old r.firstpaddr },
    move_pages old (duplicate old r.firstpaddr) bytes,
    ground (arith, run, ok.positive),
    ok',
    duplicate-IsLoaded old r ok s room,
    duplicate-IsCopy old r.firstpaddr bytes s,
  )
]
