-- ===== src/Libc/Roundtrip.antt =====
-- atoi of lib/libc/atoi.c on what __pf_printnum of lib/libc/__printf.c sends.
use mathlib.Core.List.{append_assoc, append-nil}
use ece344_operating_systems.Base.{
  ℕ, zero, suc, ◌+◌, ◌-◌, ◌%◌, ◌^◌, ◌≤◌, ◌<◌, ◌≡◌, ◌⊎◌, inl, inr, refl, ap, ap₂, sym, ◌∙◌, Bool,
  true, false, List, [], ◌∷◌, ◌++◌, length, replicate, arith, done,
}
use ece344_operating_systems.Libc.{
  Pf, pf_print, pf_printstuff, pf_printnum, number_text, strchr, atoi_digits, atoi_signed, atoi,
  skip_whitespace,
}
use ece344_operating_systems.Libc.Digits.{IsNumeral, atoi_digits-digit, number_text_lem}
use ece344_operating_systems.Libc.Padding.{padded, pf_printstuff_lem, length-padded}

skip_blanks : (k : ℕ) (s : List ℕ) → skip_whitespace (replicate k 32 ++ s) ≡ skip_whitespace s
unfolding skip_whitespace
skip_blanks zero s = refl
skip_blanks (suc k) s = skip_blanks k s

skip_zeros : (k : ℕ) (s : List ℕ) → atoi_digits 0 (replicate k 48 ++ s) ≡ atoi_digits 0 s
skip_zeros zero s = refl
skip_zeros (suc k) s = atoi_digits-digit 0 0 (replicate k 48 ++ s) (omega arith) ∙ skip_zeros k s

-- A blank ends the number.
stops : (n k : ℕ) → atoi_digits n (replicate k 32) ≡ n
unfolding atoi_digits strchr
stops n zero = refl
stops n (suc k) = refl

abbrev sign_text : Bool → List ℕ
sign_text true = 45 ∷ []
sign_text false = []

-- The int of the magnitude `n` with or without a sign, as a word of 32 bits.
abbrev pub int_of : Bool → ℕ → ℕ
int_of true n = (2 ^ 32 - n) % 2 ^ 32
int_of false n = n

atoi_body :
    (sign : Bool) (d : ℕ) (s : List ℕ)
    → d < 10
    → atoi (sign_text sign ++ (48 + d) ∷ s) ≡ int_of sign (atoi_digits 0 ((48 + d) ∷ s))
unfolding atoi skip_whitespace atoi_signed
atoi_body true d s l = ground (arith, l)
atoi_body false d s l = ground (arith, l)

skip_sign :
    (sign : Bool) (k d : ℕ) (s : List ℕ)
    → atoi (replicate k 32 ++ (sign_text sign ++ (48 + d) ∷ s))
      ≡ atoi (sign_text sign ++ (48 + d) ∷ s)
unfolding atoi
skip_sign sign k d s = ap atoi_signed (skip_blanks k (sign_text sign ++ (48 + d) ∷ s))

reads_alone : (n : ℕ) (x : List ℕ) → IsNumeral n x → atoi_digits 0 x ≡ n
unfolding atoi_digits
reads_alone n x i = ap (λ t. atoi_digits 0 t) (sym (append-nil x)) ∙ i.reads []

atoi_text :
    (sign : Bool) (n : ℕ) (x y : List ℕ)
    → IsNumeral n x
    → atoi (sign_text sign ++ (x ++ y)) ≡ int_of sign (atoi_digits n y)
atoi_text sign n x y i =
    ap (λ t. atoi (sign_text sign ++ (t ++ y))) i.text
    ∙ atoi_body sign i.d (i.others ++ y) i.digit
    ∙ ap (λ t. int_of sign (atoi_digits 0 (t ++ y))) (sym i.text)
    ∙ ap (int_of sign) (i.reads y)

atoi_plain :
    (sign : Bool) (n : ℕ) (x : List ℕ) → IsNumeral n x → atoi (sign_text sign ++ x) ≡ int_of sign n
unfolding atoi_digits
atoi_plain sign n x i =
    ap (λ t. atoi (sign_text sign ++ t)) (sym (append-nil x)) ∙ atoi_text sign n x [] i

atoi_right :
    (k : ℕ) (sign : Bool) (n : ℕ) (x : List ℕ)
    → IsNumeral n x
    → atoi (sign_text sign ++ x ++ replicate k 32) ≡ int_of sign n
atoi_right k sign n x i =
    ap atoi (append_assoc (sign_text sign) x (replicate k 32))
    ∙ atoi_text sign n x (replicate k 32) i
    ∙ ap (int_of sign) (stops n k)

atoi_left :
    (k : ℕ) (sign : Bool) (n : ℕ) (x : List ℕ)
    → IsNumeral n x
    → atoi (replicate k 32 ++ sign_text sign ++ x) ≡ int_of sign n
unfolding atoi
atoi_left k sign n x i =
    ap atoi (append_assoc (replicate k 32) (sign_text sign) x)
    ∙ ap atoi_signed (skip_blanks k (sign_text sign ++ x))
    ∙ atoi_plain sign n x i

atoi_zeros :
    (k : ℕ) (sign : Bool) (n : ℕ) (x : List ℕ)
    → IsNumeral n x
    → atoi (sign_text sign ++ replicate k 48 ++ x) ≡ int_of sign n
atoi_zeros zero sign n x i =
    ap (λ t. atoi (t ++ x)) (append-nil (sign_text sign)) ∙ atoi_plain sign n x i
atoi_zeros (suc k) sign n x i =
    ap atoi (append_assoc (sign_text sign) (replicate (suc k) 48) x)
    ∙ atoi_body sign 0 (replicate k 48 ++ x) (omega arith)
    ∙ ap (int_of sign) (skip_zeros (suc k) x ∙ reads_alone n x i)

-- A field that is padded with blanks, or on the left with zeros.
atoi-padded :
    (k : ℕ) (r : Bool) (f : ℕ) (sign : Bool) (n : ℕ) (x : List ℕ)
    → f ≡ 32 ⊎ (f ≡ 48) × (r ≡ false)
    → IsNumeral n x
    → atoi (padded k r f (sign_text sign) x) ≡ int_of sign n
atoi-padded k true f sign n x (inl e) i =
    ap (λ c. atoi (sign_text sign ++ x ++ replicate k c)) e ∙ atoi_right k sign n x i
atoi-padded k true f sign n x (inr (e, r)) i = cc
atoi-padded k false f sign n x (inl e) i =
    ap (λ c. atoi (padded k false c (sign_text sign) x)) e ∙ atoi_left k sign n x i
atoi-padded k false f sign n x (inr (e, r)) i =
    ap (λ c. atoi (padded k false c (sign_text sign) x)) e ∙ atoi_zeros k sign n x i

sent_number :
    (pf : Pf) (x : List ℕ)
    → pf.base ≡ 10
    → number_text 11 10 pf.num [] ≡ done x
    → pf_printnum pf ≡ done (pf_printstuff pf (sign_text pf.sign) [] x)
unfolding pf_printnum
sent_number pf x b e = ground (arith, b, e)

-- __pf_printnum of a decimal number below 2^32 always ends inside its buffer and sends one text,
-- which is as wide as the field at least, and of which atoi reads the number with its sign back;
-- the padding is of blanks, or of zeros on the left.
pub atoi-pf_printnum :
    (pf : Pf)
    → pf.base ≡ 10
    → pf.num < 2 ^ 32
    → pf.fillchar ≡ 32 ⊎ (pf.fillchar ≡ 48) × (pf.rightspc ≡ false)
    → (text : List ℕ) × (pf_printnum pf ≡ done (pf_print pf text))
      × (pf.spacing ≤ length text)
      × (atoi text ≡ int_of pf.sign pf.num)
atoi-pf_printnum pf b small fill =
    let (x, e, i) = number_text_lem 10 pf.num [] small (omega (arith, small)) in
    let p = sign_text pf.sign in
    let e' : number_text 11 10 pf.num [] ≡ done x = e ∙ ap done (append-nil x) in
    let k = pf.spacing - (length p + length x) in
    let none : p ++ [] ≡ p = append-nil p in
    let w : pf.spacing - (length p + 0 + length x) ≡ k = omega arith in
    let same : padded (pf.spacing - (length p + 0 + length x)) pf.rightspc pf.fillchar (p ++ []) x
        ≡ padded k pf.rightspc pf.fillchar p x =
      ap₂ (λ j q. padded j pf.rightspc pf.fillchar q x) w none in
    (
      padded k pf.rightspc pf.fillchar p x,
      sent_number pf x b e' ∙ ap done (pf_printstuff_lem pf p [] x ∙ ap (λ t. pf_print pf t) same),
      length-padded pf.spacing pf.rightspc pf.fillchar p x,
      atoi-padded k pf.rightspc pf.fillchar pf.sign pf.num x fill i,
    )
