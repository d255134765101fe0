-- ===== src/Vm/Fault.antt =====
-- kern/arch/mips/mips/dumbvm.c: vm_fault against the map of an address space.
use ece344_operating_systems.Base.{
  ℕ, zero, suc, ◌+◌, ◌-◌, ◌*◌, ◌%◌, ◌^◌, ◌≤◌, ◌<◌, ◌≡◌, ◌⊎◌, refl, ap, sym, ◌∙◌, subst, inl, inr,
  true, false, ◌&&◌, Bool-cases, Option, none, some, arith, ltb, leb, ◌==◌, if◌then◌else◌, Run,
  done, ℕ_discrete,
}
use ece344_operating_systems.Base.Errno.{efault}
use ece344_operating_systems.Vm.{
  Addrspace, TlbEntry, frame, tlb_valid, load_tlb, check_space, fault_in, vm_fault,
}

-- The physical address behind an address of the user: by the first region, the second or the stack.
abbrev pub translate : Addrspace → ℕ → Option ℕ
translate space va =
    if leb space.vbase1 va && ltb va (space.vbase1 + space.npages1 * 4096)
    then some (va - space.vbase1 + space.pbase1)
    else if leb space.vbase2 va && ltb va (space.vbase2 + space.npages2 * 4096)
    then some (va - space.vbase2 + space.pbase2)
    else if leb 0x7fff4000 va && ltb va 0x80000000
    then some (va - 0x7fff4000 + space.stackpbase)
    else none

-- An address space that is set up, with its pages below the physical address `limit`.
pub record IsLoaded (space : Addrspace) (limit : ℕ) : Type 0 where
  pub vbase1 : (0 < space.vbase1) × (space.vbase1 % 4096 ≡ 0)
  pub vbase2 : (0 < space.vbase2) × (space.vbase2 % 4096 ≡ 0)
  pub npages1 : (0 < space.npages1) × (space.vbase1 + space.npages1 * 4096 < 2 ^ 32)
  pub npages2 : (0 < space.npages2) × (space.vbase2 + space.npages2 * 4096 < 2 ^ 32)
  pub pbase1 : (0 < space.pbase1) × (space.pbase1 % 4096 ≡ 0)
  pub pbase2 : (0 < space.pbase2) × (space.pbase2 % 4096 ≡ 0)
  pub stackpbase : (0 < space.stackpbase) × (space.stackpbase % 4096 ≡ 0)
  pub below :
      (space.pbase1 + space.npages1 * 4096 ≤ limit)
      × (space.pbase2 + space.npages2 * 4096 ≤ limit)
      × (space.stackpbase + 12 * 4096 ≤ limit)
  pub low : limit < 2 ^ 31

check_space_lem :
    (space : Addrspace) (limit : ℕ) → IsLoaded space limit → check_space space ≡ done tt
unfolding check_space
check_space_lem space limit s = ground (
  arith, s.vbase1.0, s.vbase1.1, s.vbase2.0, s.vbase2.1, s.npages1.0, s.npages2.0, s.pbase1.0,
  s.pbase1.1, s.pbase2.0, s.pbase2.1, s.stackpbase.0, s.stackpbase.1,
)

-- What the TLB is when the page at `va` is found at `pa`: the first entry that is not valid is written.
abbrev pub Served : ℕ → ℕ → (ℕ → TlbEntry) → Run (ℕ × (ℕ → TlbEntry)) → Type 0
Served va pa tlb run =
    (((i : ℕ) → i < 64 → tlb_valid (tlb i) ≡ true) × (run ≡ done (efault, tlb)))
    ⊎ ((i : ℕ) × (i < 64)
        × (tlb_valid (tlb i) ≡ false)
        × ((j : ℕ) → j < i → tlb_valid (tlb j) ≡ true)
        × (run ≡ done (0, λ j. if j == i then record { ehi = va; elo = pa + 0x600 } else tlb j)))

load_tlb_lem :
    (rounds i va pa : ℕ) (tlb : ℕ → TlbEntry)
    → i + rounds ≡ 64
    → ((j : ℕ) → j < i → tlb_valid (tlb j) ≡ true)
    → Served va pa tlb (load_tlb rounds i va pa tlb)
unfolding load_tlb
load_tlb_lem zero i va pa tlb e before = inl (λ j l. before j (omega (arith, l, e)), refl)
load_tlb_lem (suc rounds) i va pa tlb e before = elim (Bool-cases (tlb_valid (tlb i))) [
  | inl y ↦
      elim (load_tlb_lem rounds (i + 1) va pa tlb (omega (arith, e))
        (λ j l. so_far j l y (ℕ_discrete j i))) [
          | inl (full, run) ↦ inl (full, ground (arith, y, run))
          | inr (k, l, n, b, run) ↦ inr (k, l, n, b, ground (arith, y, run))
        ]
  | inr n ↦ inr (i, omega (arith, e), n, before, ground (arith, n))
]
  where
    so_far : (j : ℕ) → j < i + 1 → tlb_valid (tlb i) ≡ true → Dec (j ≡ i) → tlb_valid (tlb j) ≡ true
    so_far j l y (yes at) = ap (λ x. tlb_valid (tlb x)) at ∙ y
    so_far j l y (no ne) = before j (omega (arith, l, ne))

fault_in_lem :
    (va limit : ℕ) (space : Addrspace) (tlb : ℕ → TlbEntry)
    → IsLoaded space limit
    → va % 4096 ≡ 0
    → ((translate space va ≡ none) × (fault_in va space tlb ≡ done (efault, tlb)))
      ⊎ ((pa : ℕ) × (translate space va ≡ some pa) × Served va pa tlb (fault_in va space tlb))
unfolding fault_in
fault_in_lem va limit space tlb s aligned =
    let top1 : (space.vbase1 + space.npages1 * 4096) % 2 ^ 32
        ≡ space.vbase1 + space.npages1 * 4096 =
      omega (arith, s.npages1.1) in
    let top2 : (space.vbase2 + space.npages2 * 4096) % 2 ^ 32
        ≡ space.vbase2 + space.npages2 * 4096 =
      omega (arith, s.npages2.1) in
    elim (Bool-cases (leb space.vbase1 va && ltb va (space.vbase1 + space.npages1 * 4096))) [
      | inl y ↦ inr (va - space.vbase1 + space.pbase1, ground (arith, y), first top1 y)
      | inr n ↦
          elim (Bool-cases (leb space.vbase2 va && ltb va (space.vbase2 + space.npages2 * 4096))) [
            | inl y ↦
                inr (va - space.vbase2 + space.pbase2, ground (arith, n, y), second top1 top2 n y)
            | inr n' ↦ elim (Bool-cases (leb 0x7fff4000 va && ltb va 0x80000000)) [
              | inl y ↦ inr (
                va - 0x7fff4000 + space.stackpbase,
                ground (arith, n, n', y),
                stack top1 top2 n n' y,
              )
              | inr n'' ↦ inl (ground (arith, n, n', n''), ground (arith, top1, top2, n, n', n''))
            ]
          ]
    ]
  where
    at :
        (pa : ℕ)
        → (fault_in va space tlb ≡ load_tlb 64 0 va pa tlb)
        → Served va pa tlb (fault_in va space tlb)
    at pa e =
        subst (Served va pa tlb) (sym e)
          (load_tlb_lem 64 0 va pa tlb refl (λ j l. absurd (omega (arith, l))))

    first :
        (space.vbase1 + space.npages1 * 4096) % 2 ^ 32 ≡ space.vbase1 + space.npages1 * 4096
        → (leb space.vbase1 va && ltb va (space.vbase1 + space.npages1 * 4096)) ≡ true
        → Served va (va - space.vbase1 + space.pbase1) tlb (fault_in va space tlb)
    first top1 y =
        let lo : space.vbase1 ≤ va = ground (arith, y) in
        let hi : va < space.vbase1 + space.npages1 * 4096 = ground (arith, y) in
        let pa : (va - space.vbase1 + space.pbase1) % 2 ^ 32 ≡ va - space.vbase1 + space.pbase1 =
          omega (arith, lo, hi, s.below.0, s.low) in
        let page : (va - space.vbase1 + space.pbase1) % 4096 ≡ 0 =
          omega (arith, lo, aligned, s.vbase1.1, s.pbase1.1) in
        at (va - space.vbase1 + space.pbase1) ground (arith, top1, y, pa, page)

    second :
        (space.vbase1 + space.npages1 * 4096) % 2 ^ 32 ≡ space.vbase1 + space.npages1 * 4096
        → (space.vbase2 + space.npages2 * 4096) % 2 ^ 32 ≡ space.vbase2 + space.npages2 * 4096
        → (leb space.vbase1 va && ltb va (space.vbase1 + space.npages1 * 4096)) ≡ false
        → (leb space.vbase2 va && ltb va (space.vbase2 + space.npages2 * 4096)) ≡ true
        → Served va (va - space.vbase2 + space.pbase2) tlb (fault_in va space tlb)
    second top1 top2 n y =
        let lo : space.vbase2 ≤ va = ground (arith, y) in
        let hi : va < space.vbase2 + space.npages2 * 4096 = ground (arith, y) in
        let pa : (va - space.vbase2 + space.pbase2) % 2 ^ 32 ≡ va - space.vbase2 + space.pbase2 =
          omega (arith, lo, hi, s.below.1, s.low) in
        let page : (va - space.vbase2 + space.pbase2) % 4096 ≡ 0 =
          omega (arith, lo, aligned, s.vbase2.1, s.pbase2.1) in
        at (va - space.vbase2 + space.pbase2) ground (arith, top1, top2, n, y, pa, page)

    stack :
        (space.vbase1 + space.npages1 * 4096) % 2 ^ 32 ≡ space.vbase1 + space.npages1 * 4096
        → (space.vbase2 + space.npages2 * 4096) % 2 ^ 32 ≡ space.vbase2 + space.npages2 * 4096
        → (leb space.vbase1 va && ltb va (space.vbase1 + space.npages1 * 4096)) ≡ false
        → (leb space.vbase2 va && ltb va (space.vbase2 + space.npages2 * 4096)) ≡ false
        → (leb 0x7fff4000 va && ltb va 0x80000000) ≡ true
        → Served va (va - 0x7fff4000 + space.stackpbase) tlb (fault_in va space tlb)
    stack top1 top2 n n' y =
        let lo : 0x7fff4000 ≤ va = ground (arith, y) in
        let hi : va < 0x80000000 = ground (arith, y) in
        let pa : (va - 0x7fff4000 + space.stackpbase) % 2 ^ 32
            ≡ va - 0x7fff4000 + space.stackpbase =
          omega (arith, lo, hi, s.below.2, s.low) in
        let page : (va - 0x7fff4000 + space.stackpbase) % 4096 ≡ 0 =
          omega (arith, lo, aligned, s.stackpbase.1) in
        at (va - 0x7fff4000 + space.stackpbase) ground (arith, top1, top2, n, n', y, pa, page)

-- A read or write fault of a process whose address space is set up: where the space has a page for the
-- address, vm_fault ends with the code 0 and the page's entry in the first TLB entry that was not valid, and no
-- other entry is changed; it says EFAULT with the TLB as it was when all 64 entries are valid, and where
-- the space has no page.
pub vm_fault_lem :
    (faulttype a limit : ℕ) (space : Addrspace) (tlb : ℕ → TlbEntry)
    → IsLoaded space limit
    → faulttype < 2
    → ((translate space (frame a) ≡ none)
        × (vm_fault faulttype a (some space) tlb ≡ done (efault, tlb)))
      ⊎ ((pa : ℕ) × (translate space (frame a) ≡ some pa)
          × Served (frame a) pa tlb (vm_fault faulttype a (some space) tlb))
unfolding vm_fault
vm_fault_lem faulttype a limit space tlb s rw_fault =
    let aligned : frame a % 4096 ≡ 0 = omega arith in
    let run : vm_fault faulttype a (some space) tlb ≡ fault_in (frame a) space tlb =
      ground (arith, rw_fault, check_space_lem space limit s) in
    elim (fault_in_lem (frame a) limit space tlb s aligned) [
      | inl (outside, e) ↦ inl (outside, run ∙ e)
      | inr (pa, inside, served) ↦
          inr (pa, inside, subst (Served (frame a) pa tlb) (sym run) served)
    ]
