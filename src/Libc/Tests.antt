-- ===== src/Libc/Tests.antt =====
-- The parts of lib/libc at concrete inputs.
use ece344_operating_systems.Base.{
  ℕ, ◌-◌, ◌^◌, ◌≤◌, ◌≡◌, inl, inr, refl, true, false, List, [], ◌∷◌, length, arith, done, load,
}
use ece344_operating_systems.Libc.{
  Pf, pf_print, pf_fill, pf_printpadded, pf_printstuff, pf_printnum, number_text, strchr,
  atoi_digits, atoi_signed, skip_whitespace, atoi, skip_seps, cut_word, word_at, strtok_r,
  menu_seps, args_from, dispatch_args,
}
use ece344_operating_systems.Libc.Words.{words, dispatch_args_lem}
use ece344_operating_systems.Libc.Roundtrip.{atoi-pf_printnum}

-- "%06d" of -42
abbrev minus_42 : Pf
minus_42 = record {
  sent = [];
  charcount = 0;
  num = 42;
  sign = true;
  spacing = 6;
  rightspc = false;
  fillchar = 48;
  base = 10;
  baseprefix = false;
}

-- "-00042"
zeros_left : pf_printnum minus_42 ≡ done (pf_print minus_42 (45 ∷ 48 ∷ 48 ∷ 48 ∷ 52 ∷ 50 ∷ []))
unfolding pf_printnum number_text pf_printstuff pf_printpadded pf_fill pf_print load
zeros_left = refl

-- The zeros of "%-06d" stand behind the number, which makes it another one.
abbrev zeros_right : Pf
zeros_right = record minus_42 { rightspc = true }

zeros_right_text :
    pf_printnum zeros_right ≡ done (pf_print zeros_right (45 ∷ 52 ∷ 50 ∷ 48 ∷ 48 ∷ 48 ∷ []))
unfolding pf_printnum number_text pf_printstuff pf_printpadded pf_fill pf_print load
zeros_right_text = refl

-- " -7x"
atoi_trailing : atoi (32 ∷ 45 ∷ 55 ∷ 120 ∷ []) ≡ 2 ^ 32 - 7
unfolding atoi skip_whitespace atoi_signed atoi_digits strchr
atoi_trailing = refl

atoi-pf_printnum_example :
    (text : List ℕ) × (pf_printnum minus_42 ≡ done (pf_print minus_42 text))
    × (6 ≤ length text)
    × (atoi text ≡ 2 ^ 32 - 42)
atoi-pf_printnum_example = atoi-pf_printnum minus_42 refl (omega arith) (inr (refl, refl))

-- " p  sh "
abbrev command : List ℕ
command = 32 ∷ 112 ∷ 32 ∷ 9 ∷ 115 ∷ 104 ∷ 32 ∷ []

command_args : dispatch_args command ≡ inl ((112 ∷ []) ∷ (115 ∷ 104 ∷ []) ∷ [])
unfolding dispatch_args args_from strtok_r word_at cut_word skip_seps strchr
command_args = refl

dispatch_args_lem_example : dispatch_args command ≡ inl (words menu_seps command)
unfolding strchr
dispatch_args_lem_example = dispatch_args_lem command
