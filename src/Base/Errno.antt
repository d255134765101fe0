-- ===== src/Base/Errno.antt =====
-- kern/include/kern/errno.h: the error codes that the modelled code returns.
use Prim.Native.Nat.{ℕ}

abbrev pub einval : ℕ
einval = 1

abbrev pub efault : ℕ
efault = 2

abbrev pub enametoolong : ℕ
enametoolong = 3

abbrev pub enomem : ℕ
enomem = 4

abbrev pub eio : ℕ
eio = 5

abbrev pub eunimp : ℕ
eunimp = 13

abbrev pub enospc : ℕ
enospc = 20

abbrev pub ebadf : ℕ
ebadf = 26

abbrev pub e2big : ℕ
e2big = 25
