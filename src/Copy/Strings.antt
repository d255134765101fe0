-- ===== src/Copy/Strings.antt =====
-- kern/lib/copyinout.c: copystr, and copyinstr and copyoutstr over it.
use mathlib.Core.List.{append-nil, append_assoc}
use native.Mathlib.Nat.{add-zero, zero-add}
use ece344_operating_systems.Base.{
  ℕ, zero, suc, ◌+◌, ◌-◌, ◌≤◌, ◌<◌, ◌^◌, ◌≡◌, ◌≢◌, ◌⊎◌, ◌∙◌, inl, inr, refl, Bool, true, false,
  Option, none, some, List, [], ◌∷◌, ◌++◌, arith, ltb, ◌==◌, if◌then◌else◌, dec_lt, min, Run, done,
  ◌>>=◌,
}
use ece344_operating_systems.Base.Errno.{efault, enametoolong}
use ece344_operating_systems.Copy.{
  User, copycheck, usertop, Jump, returned, jumped, fault, poke, set_handler,
}
use ece344_operating_systems.Copy.Check.{copycheck_lem}
use ece344_operating_systems.Copy.Block.{bytes_at}

-- The loop with `rounds` up to `maxlen` to go; `move i` does `dest[i] = src[i]` and gives the byte.
-- The result is the code with the length found, or a jump, and the state.
unfoldable pub copystr :
    {S : Type 0} → (ℕ → S → Run (Jump ℕ × S)) → ℕ → ℕ → ℕ → ℕ → S → Run (Jump (ℕ × Option ℕ) × S)
copystr move zero i maxlen stoplen s =
    done (returned (if ltb stoplen maxlen then efault else enametoolong, none), s)
copystr move (suc rounds) i maxlen stoplen s = elim (ltb i stoplen) [
  | false ↦ done (returned (if ltb stoplen maxlen then efault else enametoolong, none), s)
  | true ↦ do
    (j, s') ← move i s
    elim j [
      | jumped ↦ done (jumped, s')
      | returned b ↦ elim (b == 0) [
        | true ↦ done (returned (0, some (i + 1)), s')
        | false ↦ copystr move rounds (i + 1) maxlen stoplen s'
      ]
    ]
]

-- From user memory at `usersrc` to the bytes at `dest`.
unfoldable pub move_in : User → ℕ → ℕ → List ℕ → Run (Jump ℕ × List ℕ)
move_in u usersrc i dest =
    let stop : Run (Jump ℕ × List ℕ) = do j ← fault {A = ℕ} u; done (j, dest)
    in if u.readable (usersrc + i)
      then done (returned (u.byte (usersrc + i)), dest ++ u.byte (usersrc + i) ∷ [])
      else stop

-- From the kernel's string `src` to user memory at `userdest`.
unfoldable pub move_out : (ℕ → ℕ) → ℕ → ℕ → User → Run (Jump ℕ × User)
move_out src userdest i u =
    let stop : Run (Jump ℕ × User) = do j ← fault {A = ℕ} u; done (j, u)
    in if u.writable (userdest + i)
      then done (returned (src i), poke u (userdest + i) (src i))
      else stop

abbrev pub outcome : Jump (ℕ × Option ℕ) → ℕ × Option ℕ
outcome (returned r) = r
outcome jumped = (efault, none)

-- The code, `*actual` where it is written, the bytes at `dest`, and the state.
unfoldable pub copyinstr : User → ℕ → ℕ → Run (ℕ × Option ℕ × List ℕ × User)
copyinstr u usersrc len =
    let (result, stoplen) = copycheck usersrc len in
    let armed = set_handler u true in
    let copied : Run (ℕ × Option ℕ × List ℕ × User) = do
      (j, dest) ← copystr (move_in armed usersrc) len 0 len stoplen []
      done ((outcome j).0, (outcome j).1, dest, set_handler armed false)
    in if result == 0 then copied else done (result, none, [], u)

unfoldable pub copyoutstr : User → (ℕ → ℕ) → ℕ → ℕ → Run (ℕ × Option ℕ × User)
copyoutstr u src userdest len =
    let (result, stoplen) = copycheck userdest len in
    let armed = set_handler u true in
    let copied : Run (ℕ × Option ℕ × User) = do
      (j, u') ← copystr (move_out src userdest) len 0 len stoplen armed
      done ((outcome j).0, (outcome j).1, set_handler u' false)
    in if result == 0 then copied else done (result, none, u)

-- The `k` bytes from `addr` on can be read, and none is the terminator.
abbrev pub NoNul : (ℕ → Bool) → (ℕ → ℕ) → ℕ → ℕ → Type 0
NoNul readable byte addr zero = Unit
NoNul readable byte addr (suc k) =
    (readable addr ≡ true) × (byte addr ≢ 0) × NoNul readable byte (addr + 1) k

NoNul-at :
    (u : User) (a b k : ℕ) → a ≡ b → NoNul u.readable u.byte a k → NoNul u.readable u.byte b k
NoNul-at u a b k e h = rw e at h

-- The loop runs through bytes that are no terminator.
copystr-NoNul :
    (u : User) (addr maxlen stoplen k r rounds i : ℕ) (dest : List ℕ)
    → NoNul u.readable u.byte (addr + i) k
    → i + k ≤ stoplen
    → rounds ≡ k + r
    → copystr (move_in u addr) rounds i maxlen stoplen dest
      ≡ copystr (move_in u addr) r (i + k) maxlen stoplen (dest ++ bytes_at u.byte (addr + i) k)
unfolding copystr move_in
copystr-NoNul u addr maxlen stoplen zero r rounds i dest h le e =
    let same : rounds ≡ r = omega arith in rw (same, add-zero, append-nil) refl
copystr-NoNul u addr maxlen stoplen (suc k) r zero i dest h le e = absurd (omega arith)
copystr-NoNul u addr maxlen stoplen (suc k) r (suc rounds) i dest h le e =
    round
    ∙ copystr-NoNul u addr maxlen stoplen k r rounds (i + 1) (dest ++ u.byte (addr + i) ∷ [])
        (NoNul-at u (addr + i + 1) (addr + (i + 1)) k (omega arith) h.2) (omega arith) (omega arith)
    ∙ shift
  where
    round :
        copystr (move_in u addr) (suc rounds) i maxlen stoplen dest
        ≡ copystr (move_in u addr) rounds (i + 1) maxlen stoplen (dest ++ u.byte (addr + i) ∷ [])
    round = ground (arith, h.0, h.1)

    shift :
        copystr
          (move_in u addr)
          r
          (i + 1 + k)
          maxlen
          stoplen
          ((dest ++ u.byte (addr + i) ∷ []) ++ bytes_at u.byte (addr + (i + 1)) k)
        ≡ copystr
            (move_in u addr)
            r
            (i + suc k)
            maxlen
            stoplen
            (dest ++ bytes_at u.byte (addr + i) (suc k))
    shift =
        let ends : i + 1 + k ≡ i + suc k = omega arith in
        let starts : addr + (i + 1) ≡ addr + i + 1 = omega arith in
        rw (ends, starts, append_assoc dest) refl

-- At the terminator the loop ends with the length, terminator included.
copystr-nul :
    (u : User) (addr maxlen stoplen r i : ℕ) (dest : List ℕ)
    → u.readable (addr + i) ≡ true
    → u.byte (addr + i) ≡ 0
    → i < stoplen
    → copystr (move_in u addr) (suc r) i maxlen stoplen dest
      ≡ done (returned (0, some (i + 1)), dest ++ 0 ∷ [])
unfolding copystr move_in
copystr-nul u addr maxlen stoplen r i dest may z lt = ground (arith, may, z)

copystr-end :
    (u : User) (addr maxlen stoplen r i : ℕ) (dest : List ℕ)
    → (r ≡ 0) ⊎ (stoplen ≤ i)
    → copystr (move_in u addr) r i maxlen stoplen dest
      ≡ done (returned (if ltb stoplen maxlen then efault else enametoolong, none), dest)
unfolding copystr
copystr-end u addr maxlen stoplen zero i dest h = refl
copystr-end u addr maxlen stoplen (suc r) i dest h = ground (arith, h)

copystr-start :
    (u : User) (addr maxlen stoplen k r rounds : ℕ)
    → NoNul u.readable u.byte addr k
    → k ≤ stoplen
    → rounds ≡ k + r
    → copystr (move_in u addr) rounds 0 maxlen stoplen []
      ≡ copystr (move_in u addr) r k maxlen stoplen (bytes_at u.byte addr k)
copystr-start u addr maxlen stoplen k r rounds h le e =
    copystr-NoNul u addr maxlen stoplen k r rounds 0 []
      (NoNul-at u addr (addr + 0) k (omega arith) h) (omega arith) e
    ∙ rw (add-zero, zero-add) refl

check_stop :
    (addr len : ℕ)
    → addr < usertop
    → 0 < len
    → addr + len ≤ 2 ^ 32
    → len < 2 ^ 32
    → copycheck addr len ≡ (0, min len (usertop - addr))
check_stop addr len ha pos fits word = elim (dec_lt usertop (addr + len)) [
  | yes crosses ↦
      ground (arith, (copycheck_lem addr len (omega arith) (omega arith) pos).1 ha crosses fits)
  | no inside ↦
      ground (arith, (copycheck_lem addr len (omega arith) (omega arith) pos).0 (omega arith))
]

-- copyinstr over a buffer of `len` bytes: a string that ends within them and in user space is copied whole, with
-- its terminator, which the length counts; one that does not end within them is ENAMETOOLONG; and
-- one that runs into the end of user space before the end of the buffer is EFAULT.
pub copyinstr_lem :
    (u : User) (addr len : ℕ)
    → addr < usertop
    → 0 < len
    → addr + len ≤ 2 ^ 32
    → len < 2 ^ 32
    → u.badfaultfunc ≡ false
    → ((k : ℕ)
        → k < len
        → addr + k < usertop
        → NoNul u.readable u.byte addr k
        → u.readable (addr + k) ≡ true
        → u.byte (addr + k) ≡ 0
        → copyinstr u addr len ≡ done (0, some (k + 1), bytes_at u.byte addr k ++ 0 ∷ [], u))
      × (addr + len ≤ usertop
          → NoNul u.readable u.byte addr len
          → copyinstr u addr len ≡ done (enametoolong, none, bytes_at u.byte addr len, u))
      × (usertop < addr + len
          → NoNul u.readable u.byte addr (usertop - addr)
          → copyinstr u addr len ≡ done (efault, none, bytes_at u.byte addr (usertop - addr), u))
unfolding copyinstr set_handler
copyinstr_lem u addr len ha pos fits word off = (
  λ k lt inside text may z. ground (
    arith,
    check_stop addr len ha pos fits word,
    copystr-start armed addr len stop k (suc (len - k - 1)) len text (omega arith) (omega arith),
    copystr-nul armed addr len stop (len - k - 1) k (bytes_at u.byte addr k) may z (omega arith),
  ),
  λ inside text. ground (
    arith,
    check_stop addr len ha pos fits word,
    copystr-start armed addr len stop len 0 len text (omega arith) (omega arith),
    copystr-end armed addr len stop 0 len (bytes_at u.byte addr len) (inl refl),
  ),
  λ crosses text. ground (
    arith,
    check_stop addr len ha pos fits word,
    copystr-start armed addr len stop (usertop - addr) (len - (usertop - addr)) len text
        (omega arith) (omega arith),
    copystr-end armed addr len stop (len - (usertop - addr)) (usertop - addr)
        (bytes_at u.byte addr (usertop - addr)) (inr (omega arith)),
  ),
)
  where
    armed : User
    armed = set_handler u true

    stop : ℕ
    stop = min len (usertop - addr)
