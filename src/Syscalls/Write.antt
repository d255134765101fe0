-- ===== src/Syscalls/Write.antt =====
-- kern/userprog/system_calls_PI.c: sys_write on every branch.
use ece344_operating_systems.Base.{
  ℕ, ◌+◌, ◌<◌, ◌%◌, ◌^◌, ◌≡◌, ◌≢◌, refl, Bool, false, ◌&&◌, ◌||◌, not, ◌++◌, arith, ◌==◌,
  if◌then◌else◌, done,
}
use ece344_operating_systems.Base.Errno.{efault, enospc, ebadf}
use ece344_operating_systems.Copy.{User}
use ece344_operating_systems.Copy.Block.{in_user, all_of, bytes_at, copyin_lem}
use ece344_operating_systems.Syscalls.{Io, minus_one, until_nul, sys_write}

-- The code that sys_write answers, by the first of its tests that fails.
abbrev pub write_error : (ℕ → Bool) → ℕ → ℕ → ℕ → User → ℕ
write_error mem fd buf nbytes u =
    if not (fd == 1 || fd == 2)
    then ebadf
    else if buf == 0
    then efault
    else if not (mem ((nbytes + 1) % 2 ^ 32))
    then enospc
    else if in_user buf nbytes && all_of u.readable buf nbytes
    then 0
    else efault

-- sys_write says EBADF for another file than standard output or standard error, EFAULT for NULL,
-- ENOSPC where kmalloc refuses, and EFAULT for a block that is empty, not the user's or not to be
-- read; it prints nothing then, and a block of kernel memory is lost exactly in the last case.
-- Otherwise it prints the block up to its first NUL, and answers the number of bytes asked for.
pub sys_write_lem :
    (mem : ℕ → Bool) (fd buf nbytes : ℕ) (s : Io)
    → buf < 2 ^ 32
    → nbytes < 2 ^ 32
    → s.user.badfaultfunc ≡ false
    → (write_error mem fd buf nbytes s.user ≡ 0
        → sys_write mem fd buf nbytes s
          ≡ done (
            0,
            nbytes,
            record s { console = s.console ++ until_nul (bytes_at s.user.byte buf nbytes) },
          ))
      × (write_error mem fd buf nbytes s.user ≢ 0
          → (n : ℕ) × (sys_write mem fd buf nbytes s
              ≡ done (write_error mem fd buf nbytes s.user, minus_one, record s { blocks = n }))
            × (n ≡ (
                if (fd == 1 || fd == 2) && (not (buf == 0) && mem ((nbytes + 1) % 2 ^ 32))
                then s.blocks + 1
                else s.blocks)))
unfolding sys_write
sys_write_lem mem fd buf nbytes s hb hn off =
    let copied = copyin_lem s.user buf nbytes hb hn off in
    (λ z. ground (arith, z, copied), λ nz. (_, ground (arith, nz, copied), refl))
