-- ===== src/Copy.antt =====
-- kern/lib/copyinout.c: copying between user and kernel memory. An address is a 32-bit number. A
-- fault is taken by pcb_badfaultfunc if that is set, and is fatal (`panic`) if not. memcpy is read
-- as a loop over bytes; what it leaves in the target of a copyin that fails is not modelled.
pub mod Check
pub mod Block
pub mod Strings
mod Tests
use ece344_operating_systems.Base.{
  ℕ, zero, suc, ◌+◌, ◌-◌, ◌%◌, ◌^◌, Bool, true, false, ◌&&◌, Option, none, some, List, [], ◌∷◌, ltb,
  leb, ◌==◌, if◌then◌else◌, Run, done, panic, ◌>>=◌,
}
use ece344_operating_systems.Base.Errno.{efault, enametoolong}

-- Where user space ends (kern/arch/mips/include/vm.h).
abbrev pub usertop : ℕ
usertop = 0x8000_0000

-- The user's memory as the kernel sees it, and whether pcb_badfaultfunc is set.
pub record User : Type 0 where
  pub readable : ℕ → Bool
  pub writable : ℕ → Bool
  pub byte : ℕ → ℕ
  pub badfaultfunc : Bool

-- The error code, and the length that may be copied.
unfoldable pub copycheck : ℕ → ℕ → ℕ × ℕ
copycheck userptr len =
    let bot = userptr in
    let top = (bot + len + 2 ^ 32 - 1) % 2 ^ 32 in
    if ltb top bot
    then (efault, len)
    else if leb usertop bot
    then (efault, len)
    else if leb usertop top
    then (0, usertop - bot)
    else (0, len)

-- What an access that runs under setjmp comes to: its value, or a jump back to the setjmp.
pub data Jump {ℓ} (A : Type ℓ) : Type ℓ where
  returned : A → Jump A
  jumped : Jump A

-- A fault with the handler set goes to copyfail, which jumps; with none it is fatal.
unfoldable pub fault {ℓ} : {A : Type ℓ} → User → Run (Jump A)
fault u = if u.badfaultfunc then done jumped else panic

-- memcpy from user memory
unfoldable pub fetch : User → ℕ → ℕ → Run (Jump (List ℕ))
fetch u addr zero = done (returned [])
fetch u addr (suc n) =
    let stop : Run (Jump (List ℕ)) = fault u in
    let more : Run (Jump (List ℕ)) = do
      rest ← fetch u (addr + 1) n
      done (elim rest [ returned bs ↦ returned (u.byte addr ∷ bs) | jumped ↦ jumped ])
    in if u.readable addr then more else stop

abbrev pub poke : User → ℕ → ℕ → User
poke u addr b = record u { byte = λ a. if a == addr then b else u.byte a }

-- memcpy to user memory; the bytes before a fault are written
unfoldable pub spill : User → ℕ → List ℕ → Run (Jump (Unit {0}) × User)
spill u addr [] = done (returned tt, u)
spill u addr (b ∷ bs) =
    let stop : Run (Jump (Unit {0}) × User) = do j ← fault u; done (j, u)
    in let more : Run (Jump (Unit {0}) × User) = spill (poke u addr b) (addr + 1) bs in
      if u.writable addr then more else stop

unfoldable pub set_handler : User → Bool → User
set_handler u on = record u { badfaultfunc = on }

-- The code, the bytes at `dest` after a success, and the state.
unfoldable pub copyin : User → ℕ → ℕ → Run (ℕ × Option (List ℕ) × User)
copyin u usersrc len =
    let (result, stoplen) = copycheck usersrc len in
    let armed = set_handler u true in
    let copied : Run (ℕ × Option (List ℕ) × User) = do
      j ← fetch armed usersrc len
      done (elim j [
        | returned bs ↦ (0, some bs, set_handler armed false)
        | jumped ↦ (efault, none, set_handler armed false)
      ])
    in if result == 0
      then (if stoplen == len then copied else done (efault, none, u))
      else done (result, none, u)

unfoldable pub copyout : User → List ℕ → ℕ → ℕ → Run (ℕ × User)
copyout u src userdest len =
    let (result, stoplen) = copycheck userdest len in
    let armed = set_handler u true in
    let copied : Run (ℕ × User) = do
      (j, u') ← spill armed userdest src
      done (elim j [
        | returned _ ↦ (0, set_handler u' false)
        | jumped ↦ (efault, set_handler u' false)
      ])
    in if result == 0
      then (if stoplen == len then copied else done (efault, u))
      else done (result, u)
