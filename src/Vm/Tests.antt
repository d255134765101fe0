-- ===== src/Vm/Tests.antt =====
-- kern/arch/mips/mips/dumbvm.c and ram.c at concrete inputs.
use ece344_operating_systems.Base.{
  ℕ, ◌%◌, ◌≤◌, ◌<◌, ◌≡◌, ◌⊎◌, refl, true, false, none, some, [], arith, ltb, if◌then◌else◌, done,
}
use ece344_operating_systems.Base.Errno.{efault, enomem, eunimp}
use ece344_operating_systems.Kheap.{Heap}
use ece344_operating_systems.Vm.{
  RamState, Addrspace, TlbEntry, frame, vm_fault, as_copy, as_define_region, as_activate,
}
use ece344_operating_systems.Vm.Fault.{translate, IsLoaded, Served, vm_fault_lem}
use ece344_operating_systems.Vm.Ram.{IsRam}
use ece344_operating_systems.Vm.Duplicate.{IsCopy, end_of, as_copy_lem}

-- Two pages of code, one of data and the stack, in front of the memory that is left.
abbrev program : Addrspace
program = record {
  vbase1 = 0x400000;
  pbase1 = 0x10000;
  npages1 = 2;
  vbase2 = 0x10000000;
  pbase2 = 0x12000;
  npages2 = 1;
  stackpbase = 0x13000;
}

abbrev ram : RamState
ram = record { firstpaddr = 0x20000; lastpaddr = 0x80000 }

ram-IsRam : IsRam ram
ram-IsRam = record {
  positive = omega arith;
  aligned = refl;
  ordered = omega arith;
  low = omega arith;
}

program-IsLoaded : IsLoaded program ram.firstpaddr
program-IsLoaded = record {
  vbase1 = (omega arith, refl);
  vbase2 = (omega arith, refl);
  npages1 = (omega arith, omega arith);
  npages2 = (omega arith, omega arith);
  pbase1 = (omega arith, refl);
  pbase2 = (omega arith, refl);
  stackpbase = (omega arith, refl);
  below = (omega arith, omega arith, omega arith);
  low = omega arith;
}

-- The first three entries are in use.
abbrev three_used : ℕ → TlbEntry
three_used i = record { ehi = 0; elo = if ltb i 3 then 0x200 else 0 }

abbrev write_fault : ℕ
write_fault = 1

vm_fault_lem_example :
    ((translate program (frame 0x401234) ≡ none)
      × (vm_fault write_fault 0x401234 (some program) three_used ≡ done (efault, three_used)))
    ⊎ ((pa : ℕ) × (translate program (frame 0x401234) ≡ some pa)
        × Served
            (frame 0x401234)
            pa
            three_used
            (vm_fault write_fault 0x401234 (some program) three_used))
vm_fault_lem_example =
    vm_fault_lem write_fault 0x401234 ram.firstpaddr program three_used program-IsLoaded
      (omega arith)

abbrev pattern_bytes : ℕ → ℕ
pattern_bytes a = a % 256

as_copy_lem_example :
    (((true ≡ false) ⊎ (ram.lastpaddr < end_of program ram.firstpaddr))
      × ((r' : RamState) × (as_copy true program ram pattern_bytes
            ≡ done (enomem, none, r', pattern_bytes))
          × IsRam r'
          × (ram.firstpaddr ≤ r'.firstpaddr)))
    ⊎ ((new : Addrspace) × (r' : RamState) × (bytes' : ℕ → ℕ) × (as_copy true program ram
            pattern_bytes
          ≡ done (0, some new, r', bytes'))
        × IsRam r'
        × IsLoaded new r'.firstpaddr
        × IsCopy program ram.firstpaddr pattern_bytes new bytes')
as_copy_lem_example = as_copy_lem true program ram pattern_bytes ram-IsRam program-IsLoaded

-- A kernel heap without pages.
abbrev no_pages : Heap
no_pages = record {
  pagerefs = λ q. record { pageaddr_and_blocktype = 0; freelist_offset = 0; nfree = 0 };
  inuse = λ i j. false;
  sizebases = λ t. [];
  allbase = [];
  next = λ a. 0;
}

-- The data of a program that is not aligned take up one page more.
unaligned_region :
    as_define_region 0x400ffc 8 (record program { vbase1 = 0 })
    ≡ (0, record program { vbase1 = 0x400000; npages1 = 2 })
unfolding as_define_region
unaligned_region = refl

too_many_regions : as_define_region 0x400000 8 program ≡ (eunimp, program)
unfolding as_define_region
too_many_regions = refl

emptied_entry : as_activate three_used 2 ≡ record { ehi = 0x80002000; elo = 0 }
unfolding as_activate
emptied_entry = refl
