-- ===== src/Copy/Check.antt =====
-- kern/lib/copyinout.c: which regions copycheck lets pass.
use ece344_operating_systems.Base.{ℕ, ◌+◌, ◌-◌, ◌≤◌, ◌<◌, ◌^◌, ◌≡◌, ◌⊎◌, arith}
use ece344_operating_systems.Base.Errno.{efault}
use ece344_operating_systems.Copy.{copycheck, usertop}

-- A block that is not empty passes whole exactly if it lies below the end of user space; one that
-- begins there and crosses the end is cut at it, and every other one is EFAULT.
pub copycheck_lem :
    (bot len : ℕ)
    → bot < 2 ^ 32
    → len < 2 ^ 32
    → 0 < len
    → (bot + len ≤ usertop → copycheck bot len ≡ (0, len))
      × (bot < usertop
          → usertop < bot + len
          → bot + len ≤ 2 ^ 32
          → copycheck bot len ≡ (0, usertop - bot))
      × ((usertop ≤ bot) ⊎ (2 ^ 32 < bot + len) → copycheck bot len ≡ (efault, len))
unfolding copycheck
copycheck_lem bot len hb hl pos = (λ h. ground arith, λ h k l. ground arith, λ h. ground arith)

-- The length 0 is refused at every address but 0, where the length to copy is all of user space.
pub copycheck-zero :
    (bot : ℕ)
    → bot < 2 ^ 32
    → (0 < bot → copycheck bot 0 ≡ (efault, 0)) × (bot ≡ 0 → copycheck bot 0 ≡ (0, usertop))
unfolding copycheck
copycheck-zero bot hb = (λ h. ground arith, λ h. ground arith)
