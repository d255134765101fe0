-- ===== src/Vm/Ram.antt =====
-- kern/arch/mips/mips/ram.c: pages of physical memory, which are never given back.
use ece344_operating_systems.Base.{
  ℕ, ◌+◌, ◌*◌, ◌%◌, ◌^◌, ◌≤◌, ◌<◌, ◌≡◌, ◌⊎◌, inl, inr, true, member, arith, dec_lt,
}
use ece344_operating_systems.Kheap.{Heap, page_addr}
use ece344_operating_systems.Kheap.Update.{IsGranted}
use ece344_operating_systems.Vm.{RamState, ram_stealmem, getppages, kseg0}

-- What is left begins at a page and ends in front of 508 megabytes, as ram_bootstrap makes it.
pub record IsRam (r : RamState) : Type 0 where
  pub positive : 0 < r.firstpaddr
  pub aligned : r.firstpaddr % 4096 ≡ 0
  pub ordered : r.firstpaddr ≤ r.lastpaddr
  pub low : r.lastpaddr ≤ 508 * 1024 * 1024

-- The next pages are given, or none when there are too few.
pub getppages_lem :
    (npages : ℕ) (r : RamState)
    → IsRam r
    → npages * 4096 < 2 ^ 31
    → ((r.lastpaddr < r.firstpaddr + npages * 4096) × (getppages npages r ≡ (0, r)))
      ⊎ ((r.firstpaddr + npages * 4096 ≤ r.lastpaddr)
          × (getppages npages r
              ≡ (r.firstpaddr, record r { firstpaddr = r.firstpaddr + npages * 4096 }))
          × IsRam (record r { firstpaddr = r.firstpaddr + npages * 4096 }))
unfolding getppages ram_stealmem
getppages_lem npages r ok fits =
    let size : npages * 4096 % 2 ^ 32 ≡ npages * 4096 = omega (arith, fits) in
    let sum : (r.firstpaddr + npages * 4096 % 2 ^ 32) % 2 ^ 32 ≡ r.firstpaddr + npages * 4096 =
      omega (arith, fits, ok.ordered, ok.low) in
    elim (dec_lt r.lastpaddr (r.firstpaddr + npages * 4096)) [
      | yes lt ↦ inl (lt, ground (arith, sum, lt))
      | no ge ↦ inr (
        omega (arith, ge),
        ground (arith, sum, ge),
        record {
          positive = omega (arith, ok.positive);
          aligned = omega (arith, ok.aligned);
          ordered = omega (arith, ge);
          low = ok.low;
        },
      )
    ]

-- The pages that alloc_kpages gives are the first ones of what was left, and what is left then begins
-- behind them.
pub record IsTaken (npages : ℕ) (r : RamState) (h : Heap) (page : ℕ) (r' : RamState) : Type 0 where
  pub ram : IsRam r'
  pub granted : IsGranted h page
  pub first : page ≡ kseg0 + r.firstpaddr
  pub behind : kseg0 + r'.firstpaddr ≡ page + npages * 4096
  pub limit : r'.lastpaddr ≡ r.lastpaddr
  pub still : (i : ℕ) → member i h.allbase ≡ true → page_addr (h.pagerefs i) < kseg0 + r'.firstpaddr
