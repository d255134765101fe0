-- ===== src/Syscalls/Read.antt =====
-- kern/userprog/system_calls_PI.c: sys_read on every branch.
use ece344_operating_systems.Base.{
  ℕ, ◌+◌, ◌≤◌, ◌<◌, ◌^◌, ◌≡◌, ◌≢◌, ◌⊎◌, refl, ap, ◌∙◌, inl, inr, false, Bool-cases, dec_lt, ◌&&◌,
  not, [], ◌∷◌, ◌++◌, arith, ◌==◌, if◌then◌else◌, done,
}
use ece344_operating_systems.Base.Errno.{efault, eunimp, ebadf}
use ece344_operating_systems.Copy.{User}
use ece344_operating_systems.Copy.Block.{in_user, all_of, copyout_lem}
use ece344_operating_systems.Syscalls.{Io, minus_one, sys_read}

-- The code that sys_read answers, by the first of its tests that fails.
abbrev pub read_error : ℕ → ℕ → ℕ → User → ℕ
read_error fd buf buflen u =
    if not (fd == 0)
    then ebadf
    else if buf == 0
    then efault
    else if not (buflen == 1)
    then eunimp
    else if in_user buf 1 && all_of u.writable buf 1
    then 0
    else efault

either : (a b : ℕ) → a ≢ b → (a < b) ⊎ (b + 1 ≤ a)
either a b ne = elim (dec_lt a b) [ yes lt ↦ inl lt | no ge ↦ inr (omega (arith, ge, ne)) ]

-- sys_read says EBADF for another file than standard input, EFAULT for NULL, EUNIMP for a length
-- other than 1, and EFAULT for a byte that is not the user's or not to be written; it prints nothing
-- then. Otherwise it puts the key there and prints it. No other byte of user memory changes.
pub sys_read_lem :
    (key fd buf buflen : ℕ) (s : Io)
    → buf < 2 ^ 32
    → s.user.badfaultfunc ≡ false
    → (u' : User) × (sys_read key fd buf buflen s
        ≡ done (
            if read_error fd buf buflen s.user == 0
            then (0, 1, record s { user = u'; console = s.console ++ key ∷ [] })
            else (read_error fd buf buflen s.user, minus_one, record s { user = u' })))
      × ((a : ℕ) → a ≢ buf → u'.byte a ≡ s.user.byte a)
      × (read_error fd buf buflen s.user ≡ 0 → u'.byte buf ≡ key)
unfolding sys_read
sys_read_lem key fd buf buflen s hb off =
    let (u', e, armed, out, block) = copyout_lem s.user (key ∷ []) buf hb (omega arith) off in
    elim (Bool-cases (fd == 0 && (not (buf == 0) && (buflen == 1)))) [
      | inl go ↦ (
        u',
        ground (arith, go, e),
        λ a ne. out a (either a buf ne),
        λ z.
            ap u'.byte {x = buf} {y = buf + 0} (omega arith)
            ∙ block (ground (arith, go, z)) 0 (omega arith),
      )
      | inr no_go ↦ (s.user, ground (arith, no_go), λ a ne. refl, λ z. ground (arith, no_go, z))
    ]
