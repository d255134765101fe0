-- ===== src/Libc/Digits.antt =====
-- The digits of a number: the loop of __pf_printnum, and the loop of atoi over them.
use mathlib.Core.List.{append_assoc}
use ece344_operating_systems.Base.{
  ℕ, zero, suc, ◌+◌, ◌*◌, ◌/◌, ◌%◌, ◌^◌, ◌≤◌, ◌<◌, ◌≡◌, refl, ap, subst, sym, ◌∙◌, true, some, List,
  [], ◌∷◌, ◌++◌, ltb, dec_lt, done, arith, load,
}
use ece344_operating_systems.Libc.{strchr, decimal_digits, atoi_digits, digits, number_text}

digit_of :
    (d : ℕ) → d < 10 → (load digits d ≡ done (48 + d)) × (strchr decimal_digits (48 + d) ≡ some d)
unfolding load strchr
digit_of zero l = (refl, refl)
digit_of (suc zero) l = (refl, refl)
digit_of (suc (suc zero)) l = (refl, refl)
digit_of (suc (suc (suc zero))) l = (refl, refl)
digit_of (suc (suc (suc (suc zero)))) l = (refl, refl)
digit_of (suc (suc (suc (suc (suc zero))))) l = (refl, refl)
digit_of (suc (suc (suc (suc (suc (suc zero)))))) l = (refl, refl)
digit_of (suc (suc (suc (suc (suc (suc (suc zero))))))) l = (refl, refl)
digit_of (suc (suc (suc (suc (suc (suc (suc (suc zero)))))))) l = (refl, refl)
digit_of (suc (suc (suc (suc (suc (suc (suc (suc (suc zero))))))))) l = (refl, refl)
digit_of (suc (suc (suc (suc (suc (suc (suc (suc (suc (suc d)))))))))) l = absurd (omega (arith, l))

load_digit : (d : ℕ) → d < 10 → load digits d ≡ done (48 + d)
load_digit d l = (digit_of d l).0

strchr_digit : (d : ℕ) → d < 10 → strchr decimal_digits (48 + d) ≡ some d
strchr_digit d l = (digit_of d l).1

pub atoi_digits-digit :
    (v d : ℕ) (s : List ℕ)
    → d < 10
    → atoi_digits v ((48 + d) ∷ s) ≡ atoi_digits ((v * 10 + d) % 2 ^ 32) s
unfolding atoi_digits
atoi_digits-digit v d s l = ground (arith, strchr_digit d l)

-- The text `x` is the decimal numeral of `n`: its first byte is the digit `d`, and atoi reads it so
-- with any text behind.
pub record IsNumeral (n : ℕ) (x : List ℕ) : Type 0 where
  pub d : ℕ
  pub others : List ℕ
  pub text : x ≡ (48 + d) ∷ others
  pub digit : d < 10
  pub reads : (s : List ℕ) → atoi_digits 0 (x ++ s) ≡ atoi_digits n s

digit-IsNumeral : (n : ℕ) → n < 10 → IsNumeral n ((48 + n) ∷ [])
digit-IsNumeral n l = record {
  d = n;
  others = [];
  text = refl;
  digit = l;
  reads = λ s. atoi_digits-digit 0 n s l ∙ ap (λ v. atoi_digits v s) (omega (arith, l));
}

snoc-IsNumeral :
    (n : ℕ) (x : List ℕ) → n < 2 ^ 32 → IsNumeral (n / 10) x → IsNumeral n (x ++ (48 + n % 10) ∷ [])
snoc-IsNumeral n x small i = record {
  d = i.d;
  others = i.others ++ (48 + n % 10) ∷ [];
  text = ap (λ t. t ++ (48 + n % 10) ∷ []) i.text;
  digit = i.digit;
  reads = λ s.
      ap (λ t. atoi_digits 0 t) (append_assoc x ((48 + n % 10) ∷ []) s)
      ∙ i.reads ((48 + n % 10) ∷ s)
      ∙ atoi_digits-digit (n / 10) (n % 10) s (omega arith)
      ∙ ap (λ v. atoi_digits v s) (omega (arith, small));
}

number_step :
    (room n : ℕ) (x : List ℕ)
    → 10 ≤ n
    → number_text (suc room) 10 n x ≡ number_text room 10 (n / 10) ((48 + n % 10) ∷ x)
unfolding number_text
number_step room n x le =
    let d : load digits (n % 10) ≡ done (48 + n % 10) = load_digit (n % 10) (omega arith) in
    let pos : 0 < n / 10 = omega (arith, le) in
    let more : ltb 0 (n / 10) ≡ true = ground (arith, pos) in ground (arith, d, more)

number_last :
    (room n : ℕ) (x : List ℕ) → n < 10 → number_text (suc room) 10 n x ≡ done ((48 + n) ∷ x)
unfolding number_text
number_last room n x l =
    let small : n % 10 ≡ n = omega (arith, l) in
    let gone : n / 10 ≡ 0 = omega (arith, l) in
    let d : load digits n ≡ done (48 + n) = load_digit n l in ground (arith, small, gone, d)

tenth : (k n : ℕ) → n < 10 ^ suc k → n / 10 < 10 ^ k
tenth k n l =
    let e : 10 ^ suc k ≡ 10 ^ k * 10 = ground arith in
    let m : n < 10 ^ k * 10 = subst (λ p. n < p) e l in omega (arith, m)

number_more :
    (room n : ℕ) (x : List ℕ)
    → n < 2 ^ 32
    → 10 ≤ n
    → (ds : List ℕ) × (number_text (suc room) 10 (n / 10) ((48 + n % 10) ∷ x)
        ≡ done (ds ++ (48 + n % 10) ∷ x))
      × IsNumeral (n / 10) ds
    → (ds : List ℕ) × (number_text (suc (suc room)) 10 n x ≡ done (ds ++ x)) × IsNumeral n ds
number_more room n x small le (ds, e, i) = (
  ds ++ (48 + n % 10) ∷ [],
  number_step (suc room) n x le ∙ e ∙ ap done (sym (append_assoc ds ((48 + n % 10) ∷ []) x)),
  snoc-IsNumeral n ds small i,
)

-- With a byte of room for each digit, the loop puts the numeral in front of the text.
pub number_text_lem :
    (room n : ℕ) (x : List ℕ)
    → n < 2 ^ 32
    → n < 10 ^ suc room
    → (ds : List ℕ) × (number_text (suc room) 10 n x ≡ done (ds ++ x)) × IsNumeral n ds
number_text_lem zero n x small fits =
    let l : n < 10 = omega (arith, fits) in
    ((48 + n) ∷ [], number_last 0 n x l, digit-IsNumeral n l)
number_text_lem (suc room) n x small fits = elim (dec_lt n 10) [
  | yes l ↦ ((48 + n) ∷ [], number_last (suc room) n x l, digit-IsNumeral n l)
  | no g ↦ number_more room n x small (omega (arith, g)) (
      number_text_lem room (n / 10) ((48 + n % 10) ∷ x) (omega (arith, small))
        (tenth (suc room) n fits))
]
