-- ===== src/Vm.antt =====
-- kern/arch/mips/mips/dumbvm.c and ram.c: the address spaces and the faults of the simple VM system. Physical
-- memory is the function from an address to the byte; kernel addresses in kseg0 are the physical ones
-- and MIPS_KSEG0, so that a memmove between them moves physical bytes. `tlb i` is entry `i`, a flag of
-- which is a bit of `elo`. `mem` says whether kmalloc gives a struct addrspace.
pub mod Fault
pub mod Ram
pub mod Duplicate
mod Tests
use ece344_operating_systems.Base.{
  ℕ, zero, suc, ◌+◌, ◌-◌, ◌*◌, ◌/◌, ◌%◌, ◌^◌, Bool, true, false, ◌&&◌, ◌||◌, not, Option, none,
  some, ltb, leb, ◌==◌, if◌then◌else◌, Run, done, panic, spin, ◌>>=◌, ◌>>◌, require,
}
use ece344_operating_systems.Base.Errno.{einval, efault, enomem, eunimp}
use ece344_operating_systems.Uio.{memmove}

abbrev pub kseg0 : ℕ
kseg0 = 0x80000000

abbrev pub stackpages : ℕ
stackpages = 12

abbrev pub userstack : ℕ
userstack = kseg0

abbrev pub num_tlb : ℕ
num_tlb = 64

-- `address & PAGE_FRAME`
abbrev pub frame : ℕ → ℕ
frame a = a - a % 4096

pub record RamState : Type 0 where
  pub firstpaddr : ℕ
  pub lastpaddr : ℕ

pub record Addrspace : Type 0 where
  pub vbase1 : ℕ
  pub pbase1 : ℕ
  pub npages1 : ℕ
  pub vbase2 : ℕ
  pub pbase2 : ℕ
  pub npages2 : ℕ
  pub stackpbase : ℕ

pub record TlbEntry : Type 0 where
  pub ehi : ℕ
  pub elo : ℕ

unfoldable pub ram_stealmem : ℕ → RamState → ℕ × RamState
ram_stealmem npages r =
    let size = npages * 4096 % 2 ^ 32 in
    if ltb r.lastpaddr ((r.firstpaddr + size) % 2 ^ 32)
    then (0, r)
    else (r.firstpaddr, record r { firstpaddr = (r.firstpaddr + size) % 2 ^ 32 })

unfoldable pub getppages : ℕ → RamState → ℕ × RamState
getppages npages r = ram_stealmem npages r

unfoldable pub alloc_kpages : ℕ → RamState → ℕ × RamState
alloc_kpages npages r =
    let (pa, r') = getppages npages r in (if pa == 0 then 0 else (pa + kseg0) % 2 ^ 32, r')

-- TLBLO_VALID
abbrev pub tlb_valid : TlbEntry → Bool
tlb_valid e = e.elo / 0x200 % 2 == 1

-- The loop over the TLB, with `rounds` to go. For an address at which a page begins, `|` adds the flags.
unfoldable pub load_tlb : ℕ → ℕ → ℕ → ℕ → (ℕ → TlbEntry) → Run (ℕ × (ℕ → TlbEntry))
load_tlb zero i faultaddress paddr tlb = done (efault, tlb)
load_tlb (suc rounds) i faultaddress paddr tlb =
    let later = load_tlb rounds (i + 1) faultaddress paddr tlb in
    let entry : TlbEntry = record { ehi = faultaddress; elo = paddr + 0x600 } in
    if tlb_valid (tlb i) then later else done (0, λ j. if j == i then entry else tlb j)

-- `assert((address & PAGE_FRAME) == address)`
abbrev pub require_frame : ℕ → Run (Unit {0})
require_frame a = require (frame a == a)

unfoldable pub check_space : Addrspace → Run (Unit {0})
check_space space = do
  require (not (space.vbase1 == 0))
  require (not (space.pbase1 == 0))
  require (not (space.npages1 == 0))
  require (not (space.vbase2 == 0))
  require (not (space.pbase2 == 0))
  require (not (space.npages2 == 0))
  require (not (space.stackpbase == 0))
  require_frame space.vbase1
  require_frame space.pbase1
  require_frame space.vbase2
  require_frame space.pbase2
  require_frame space.stackpbase

-- From the computation of the bounds on, in a space that has passed the asserts.
unfoldable pub fault_in : ℕ → Addrspace → (ℕ → TlbEntry) → Run (ℕ × (ℕ → TlbEntry))
fault_in faultaddress space tlb =
    let vtop1 = (space.vbase1 + space.npages1 * 4096) % 2 ^ 32 in
    let vtop2 = (space.vbase2 + space.npages2 * 4096) % 2 ^ 32 in
    let stackbase = userstack - stackpages * 4096 in
    let at : ℕ → Run (ℕ × (ℕ → TlbEntry)) =
      λ paddr. do require_frame paddr; load_tlb num_tlb 0 faultaddress paddr tlb
    in if leb space.vbase1 faultaddress && ltb faultaddress vtop1
      then at ((faultaddress - space.vbase1 + space.pbase1) % 2 ^ 32)
      else if leb space.vbase2 faultaddress && ltb faultaddress vtop2
      then at ((faultaddress - space.vbase2 + space.pbase2) % 2 ^ 32)
      else if leb stackbase faultaddress && ltb faultaddress userstack
      then at ((faultaddress - stackbase + space.stackpbase) % 2 ^ 32)
      else done (efault, tlb)

-- `vmspace` is `curthread->t_vmspace`. The fault types are VM_FAULT_READ, _WRITE and _READONLY.
unfoldable pub vm_fault : ℕ → ℕ → Option Addrspace → (ℕ → TlbEntry) → Run (ℕ × (ℕ → TlbEntry))
vm_fault faulttype faultaddress vmspace tlb =
    let served : Run (ℕ × (ℕ → TlbEntry)) = elim vmspace [
      | none ↦ done (efault, tlb)
      | some space ↦ do check_space space; fault_in (frame faultaddress) space tlb
    ] in
    if faulttype == 2 then panic else if ltb faulttype 2 then served else done (einval, tlb)

unfoldable pub as_create : Bool → Option Addrspace
as_create mem =
    if mem
    then some (record {
      vbase1 = 0;
      pbase1 = 0;
      npages1 = 0;
      vbase2 = 0;
      pbase2 = 0;
      npages2 = 0;
      stackpbase = 0;
    })
    else none

-- TLBHI_INVALID and TLBLO_INVALID
unfoldable pub as_activate : (ℕ → TlbEntry) → ℕ → TlbEntry
as_activate tlb i =
    if ltb i num_tlb then record { ehi = (0x80000 + i) * 0x1000; elo = 0 } else tlb i

unfoldable pub as_define_region : ℕ → ℕ → Addrspace → ℕ × Addrspace
as_define_region vaddr sz space =
    let whole = (sz + vaddr % 4096) % 2 ^ 32 in
    let npages = frame ((whole + 4095) % 2 ^ 32) / 4096 in
    if space.vbase1 == 0
    then (0, record space { vbase1 = frame vaddr; npages1 = npages })
    else if space.vbase2 == 0
    then (0, record space { vbase2 = frame vaddr; npages2 = npages })
    else (eunimp, space)

unfoldable pub as_prepare_load : Addrspace → RamState → Run (ℕ × Addrspace × RamState)
as_prepare_load space r =
    let (pbase1, r₁) = getppages space.npages1 r in
    let space₁ : Addrspace = record space { pbase1 = pbase1 } in
    let (pbase2, r₂) = getppages space.npages2 r₁ in
    let space₂ : Addrspace = record space₁ { pbase2 = pbase2 } in
    let (stackpbase, r₃) = getppages stackpages r₂ in
    let space₃ : Addrspace = record space₂ { stackpbase = stackpbase } in
    do
      require (space.pbase1 == 0)
      require (space.pbase2 == 0)
      require (space.stackpbase == 0)
      if pbase1 == 0
          then done (enomem, space₁, r₁)
          else if pbase2 == 0
          then done (enomem, space₂, r₂)
          else if stackpbase == 0
          then done (enomem, space₃, r₃)
          else done (0, space₃, r₃)

unfoldable pub as_define_stack : Addrspace → Run (ℕ × ℕ)
as_define_stack space = do require (not (space.stackpbase == 0)); done (0, userstack)

-- The three calls of memmove.
abbrev pub move_pages : Addrspace → Addrspace → (ℕ → ℕ) → ℕ → ℕ
move_pages old new bytes = memmove new.stackpbase old.stackpbase (stackpages * 4096) (
    memmove new.pbase2 old.pbase2 (old.npages2 * 4096 % 2 ^ 32)
      (memmove new.pbase1 old.pbase1 (old.npages1 * 4096 % 2 ^ 32) bytes))

-- The code, `*ret` where it is written, and the memory.
unfoldable pub as_copy :
    Bool → Addrspace → RamState → (ℕ → ℕ) → Run (ℕ × Option Addrspace × RamState × (ℕ → ℕ))
as_copy mem old r bytes = elim (as_create mem) [
  | none ↦ done (enomem, none, r, bytes)
  | some empty ↦ do
    (result, new, r') ←
        as_prepare_load
          (record empty {
            vbase1 = old.vbase1;
            npages1 = old.npages1;
            vbase2 = old.vbase2;
            npages2 = old.npages2;
          })
          r
    let copied : Run (ℕ × Option Addrspace × RamState × (ℕ → ℕ)) = do
      require (not (new.pbase1 == 0))
      require (not (new.pbase2 == 0))
      require (not (new.stackpbase == 0))
      done (0, some new, r', move_pages old new bytes)
    if result == 0 then copied else done (enomem, none, r', bytes)
]
