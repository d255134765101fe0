-- ===== src/Libc.antt =====
-- lib/libc/strchr.c, atoi.c and the numbers of __printf.c, which the kernel shares;
-- strtok_r.c, and the menu of kern/main/menu.c that calls it. A C string is the
-- list of its bytes in front of the NUL.
mod Digits
mod Padding
mod Roundtrip
mod Words
mod Tests
use ece344_operating_systems.Base.Errno.{e2big}
use ece344_operating_systems.Base.{
  ◌⊎◌, inl, inr, ℕ, zero, suc, ◌+◌, ◌-◌, ◌*◌, ◌/◌, ◌%◌, ◌^◌, Bool, true, false, not, ◌&&◌, ◌||◌,
  Option, none, some, List, [], ◌∷◌, ◌++◌, length, ltb, ◌==◌, if◌then◌else◌, Run, done, undef,
  defined, load, ◌>>=◌, ◌>>◌,
}

-- The pointer that strchr returns, as its distance from `s`.
unfoldable pub strchr : List ℕ → ℕ → Option ℕ
strchr [] ch = if ch == 0 then some 0 else none
strchr (c ∷ s) ch =
    if c == ch then some 0 else elim (strchr s ch) [ none ↦ none | some i ↦ some (suc i) ]

-- "0123456789"
abbrev pub decimal_digits : List ℕ
decimal_digits = 48 ∷ 49 ∷ 50 ∷ 51 ∷ 52 ∷ 53 ∷ 54 ∷ 55 ∷ 56 ∷ 57 ∷ []

-- The loop of atoi over the digits, with the number so far.
unfoldable pub atoi_digits : ℕ → List ℕ → ℕ
atoi_digits val [] = val
atoi_digits val (c ∷ s) = elim (strchr decimal_digits c) [
  | none ↦ val
  | some digit ↦ atoi_digits ((val * 10 + digit) % 2 ^ 32) s
]

unfoldable pub skip_whitespace : List ℕ → List ℕ
skip_whitespace [] = []
skip_whitespace (c ∷ s) = if c == 32 || c == 9 then skip_whitespace s else c ∷ s

-- What atoi does with the text behind the white space; the int it returns is a word of 32 bits.
unfoldable pub atoi_signed : List ℕ → ℕ
atoi_signed [] = 0
atoi_signed (c ∷ s) =
    if c == 45
    then (2 ^ 32 - atoi_digits 0 s) % 2 ^ 32
    else if c == 43
    then atoi_digits 0 s
    else atoi_digits 0 (c ∷ s)

unfoldable pub atoi : List ℕ → ℕ
atoi s = atoi_signed (skip_whitespace s)

-- struct PF, without the arguments and the flags that only the reading of the format uses. `sent` is
-- what the callback has got.
pub record Pf : Type 0 where
  pub sent : List ℕ
  pub charcount : ℕ
  pub num : ℕ
  pub sign : Bool
  pub spacing : ℕ
  pub rightspc : Bool
  pub fillchar : ℕ
  pub base : ℕ
  pub baseprefix : Bool

unfoldable pub pf_print : Pf → List ℕ → Pf
pf_print pf txt = record pf {
  sent = pf.sent ++ txt;
  charcount = (pf.charcount + length txt) % 2 ^ 32;
}

unfoldable pub pf_fill : Pf → ℕ → Pf
pf_fill pf zero = pf
pf_fill pf (suc spc) = pf_fill (pf_print pf (pf.fillchar ∷ [])) spc

-- What __pf_printstuff sends once `spc` is known.
unfoldable pub pf_printpadded : Pf → ℕ → List ℕ → List ℕ → List ℕ → Pf
pf_printpadded pf spc prefix prefix2 stuff =
    let pf₁ =
      if ltb 0 spc && (not pf.rightspc && not (pf.fillchar == 48)) then pf_fill pf spc else pf in
    let pf₂ = pf_print (pf_print pf₁ prefix) prefix2 in
    let pf₃ =
      if ltb 0 spc && (not pf₂.rightspc && pf₂.fillchar == 48) then pf_fill pf₂ spc else pf₂ in
    let pf₄ = pf_print pf₃ stuff in if ltb 0 spc && pf₄.rightspc then pf_fill pf₄ spc else pf₄

unfoldable pub pf_printstuff : Pf → List ℕ → List ℕ → List ℕ → Pf
pf_printstuff pf prefix prefix2 stuff =
    let len = length prefix + length prefix2 + length stuff in
    let spc = if ltb len pf.spacing then pf.spacing - len else 0 in
    pf_printpadded pf spc prefix prefix2 stuff

-- "0123456789abcdef"
abbrev pub digits : List ℕ
digits = decimal_digits ++ 97 ∷ 98 ∷ 99 ∷ 100 ∷ 101 ∷ 102 ∷ []

-- NUMBER_BUF_SIZE, with a long of 4 bytes.
abbrev pub number_buf_size : ℕ
number_buf_size = 12

-- The loop of __pf_printnum, with `room` bytes of the buffer in front of the text so far.
unfoldable pub number_text : ℕ → ℕ → ℕ → List ℕ → Run (List ℕ)
number_text zero base xnum x = undef
number_text (suc room) base xnum x =
    defined (not (base == 0))
    >> (load digits (xnum % base) >>= λ digit.
        let rest = number_text room base (xnum / base) (digit ∷ x) in
        if ltb 0 (xnum / base) then rest else done (digit ∷ x))

unfoldable pub pf_printnum : Pf → Run Pf
pf_printnum pf = number_text (number_buf_size - 1) pf.base pf.num [] >>= λ x.
    let bprefix =
      if pf.baseprefix && pf.base == 16
      then 48 ∷ 120 ∷ []
      else if pf.baseprefix && pf.base == 8
      then 48 ∷ []
      else [] in
    let sprefix = if pf.sign then 45 ∷ [] else [] in done (pf_printstuff pf sprefix bprefix x)

-- The loop of strtok_r over the separators in front of a word.
unfoldable pub skip_seps : List ℕ → List ℕ → List ℕ
skip_seps seps [] = []
skip_seps seps (c ∷ s) = elim (strchr seps c) [ none ↦ c ∷ s | some where_ ↦ skip_seps seps s ]

-- The loop over a word, with the NUL written behind it: the word, and the new context.
unfoldable pub cut_word : List ℕ → List ℕ → List ℕ × Option (List ℕ)
cut_word seps [] = ([], none)
cut_word seps (c ∷ s) = elim (strchr seps c) [
  | none ↦ let (word, context) = cut_word seps s in (c ∷ word, context)
  | some where_ ↦ ([], some s)
]

-- What strtok_r does from the first byte of a word on: at the end there is none.
unfoldable pub word_at : List ℕ → List ℕ → Option (List ℕ) × Option (List ℕ)
word_at seps [] = (none, none)
word_at seps (c ∷ s) = let (word, context) = cut_word seps (c ∷ s) in (some word, context)

-- The string, if there is one, and the context, each as the text at the pointer; the answer is the
-- word and the new context.
unfoldable pub strtok_r :
    Option (List ℕ) → List ℕ → Option (List ℕ) → Option (List ℕ) × Option (List ℕ)
strtok_r (some string) seps context = word_at seps (skip_seps seps string)
strtok_r none seps none = (none, none)
strtok_r none seps (some head) = word_at seps (skip_seps seps head)

-- " \t"
abbrev pub menu_seps : List ℕ
menu_seps = 32 ∷ 9 ∷ []

-- The loop of cmd_dispatch with room for so many more words, at the answer of strtok_r.
unfoldable pub args_from : ℕ → Option (List ℕ) × Option (List ℕ) → List (List ℕ) → List (List ℕ) ⊎ ℕ
args_from room (none, context) args = inl args
args_from zero (some word, context) args = inr e2big
args_from (suc room) (some word, context) args =
    args_from room (strtok_r none menu_seps context) (args ++ word ∷ [])

-- The arguments that cmd_dispatch cuts the command into, or its error.
unfoldable pub dispatch_args : List ℕ → List (List ℕ) ⊎ ℕ
dispatch_args cmd = args_from 16 (strtok_r (some cmd) menu_seps none) []
