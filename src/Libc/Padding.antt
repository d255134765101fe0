-- ===== src/Libc/Padding.antt =====
-- The padding of a field: __pf_fill and __pf_printstuff of lib/libc/__printf.c.
use mathlib.Core.List.{append_assoc, append-nil}
use ece344_operating_systems.Base.{
  ℕ, zero, suc, ◌+◌, ◌-◌, ◌%◌, ◌^◌, ◌≤◌, ◌≡◌, ◌≢◌, refl, ap, ◌∙◌, Bool, true, false, List, [], ◌∷◌,
  ◌++◌, length, replicate, length-append, length-replicate, ltb, ◌==◌, if◌then◌else◌, ℕ_discrete,
  arith,
}
use ece344_operating_systems.Libc.{Pf, pf_print, pf_fill, pf_printpadded, pf_printstuff}

-- A field: blanks go in front of the sign and the prefix, zeros behind them.
abbrev pub padded : ℕ → Bool → ℕ → List ℕ → List ℕ → List ℕ
padded spc rightspc fillchar prefix stuff =
    if rightspc
    then prefix ++ stuff ++ replicate spc fillchar
    else if fillchar == 48
    then prefix ++ replicate spc 48 ++ stuff
    else replicate spc fillchar ++ prefix ++ stuff

pf_print-pf_print : (pf : Pf) (a b : List ℕ) → pf_print (pf_print pf a) b ≡ pf_print pf (a ++ b)
unfolding pf_print
pf_print-pf_print pf a b =
    let t : pf.sent ++ a ++ b ≡ pf.sent ++ (a ++ b) = append_assoc pf.sent a b in
    let n : ((pf.charcount + length a) % 2 ^ 32 + length b) % 2 ^ 32
        ≡ (pf.charcount + length (a ++ b)) % 2 ^ 32 =
      omega (arith, length-append a b) in
    ground (arith, t, n)

same_rightspc : (pf : Pf) (a : List ℕ) → (pf_print pf a).rightspc ≡ pf.rightspc
unfolding pf_print
same_rightspc pf a = refl

same_fillchar : (pf : Pf) (a : List ℕ) → (pf_print pf a).fillchar ≡ pf.fillchar
unfolding pf_print
same_fillchar pf a = refl

pf_fill_lem : (pf : Pf) (n : ℕ) → pf_fill pf (suc n) ≡ pf_print pf (replicate (suc n) pf.fillchar)
unfolding pf_fill pf_print
pf_fill_lem pf zero = refl
pf_fill_lem pf (suc n) =
    pf_fill_lem (pf_print pf (pf.fillchar ∷ [])) n
    ∙ pf_print-pf_print pf (pf.fillchar ∷ []) (replicate (suc n) pf.fillchar)

print_three :
    (pf : Pf) (a b c : List ℕ) → pf_print (pf_print (pf_print pf a) b) c ≡ pf_print pf (a ++ b ++ c)
print_three pf a b c =
    ap (λ q. pf_print q c) (pf_print-pf_print pf a b) ∙ pf_print-pf_print pf (a ++ b) c

printpadded_none :
    (pf : Pf) (p q x : List ℕ) → pf_printpadded pf 0 p q x ≡ pf_print pf (p ++ q ++ x)
unfolding pf_printpadded
printpadded_none pf p q x = print_three pf p q x

printpadded_right :
    (pf : Pf) (n : ℕ) (p q x : List ℕ)
    → pf.rightspc ≡ true
    → pf_printpadded pf (suc n) p q x ≡ pf_print pf (p ++ q ++ x ++ replicate (suc n) pf.fillchar)
unfolding pf_printpadded
printpadded_right pf n p q x r =
    grind (arith, pf_fill_lem, pf_print-pf_print, same_rightspc, same_fillchar)

printpadded_zeros :
    (pf : Pf) (n : ℕ) (p q x : List ℕ)
    → pf.rightspc ≡ false
    → pf.fillchar ≡ 48
    → pf_printpadded pf (suc n) p q x ≡ pf_print pf (p ++ q ++ replicate (suc n) 48 ++ x)
unfolding pf_printpadded
printpadded_zeros pf n p q x r z =
    grind (arith, pf_fill_lem, pf_print-pf_print, same_rightspc, same_fillchar)

printpadded_left :
    (pf : Pf) (n : ℕ) (p q x : List ℕ)
    → pf.rightspc ≡ false
    → pf.fillchar ≢ 48
    → pf_printpadded pf (suc n) p q x ≡ pf_print pf (replicate (suc n) pf.fillchar ++ p ++ q ++ x)
unfolding pf_printpadded
printpadded_left pf n p q x r z =
    grind (arith, pf_fill_lem, pf_print-pf_print, same_rightspc, same_fillchar)

printpadded_lem :
    (pf : Pf) (spc : ℕ) (p q x : List ℕ) (r : Bool)
    → pf.rightspc ≡ r
    → pf_printpadded pf spc p q x ≡ pf_print pf (padded spc pf.rightspc pf.fillchar (p ++ q) x)
printpadded_lem pf zero p q x r e =
    let b : p ++ q ++ x ++ [] ≡ p ++ q ++ x = append-nil (p ++ q ++ x) in
    let c : p ++ q ++ [] ≡ p ++ q = append-nil (p ++ q) in
    printpadded_none pf p q x ∙ ground (arith, b, c)
printpadded_lem pf (suc n) p q x true e = printpadded_right pf n p q x e ∙ ground (arith, e)
printpadded_lem pf (suc n) p q x false e = elim (ℕ_discrete pf.fillchar 48) [
  | yes z ↦ printpadded_zeros pf n p q x e z ∙ ground (arith, e, z)
  | no ne ↦
      let a : replicate (suc n) pf.fillchar ++ p ++ q ≡ replicate (suc n) pf.fillchar ++ (p ++ q) =
        append_assoc (replicate (suc n) pf.fillchar) p q in
      printpadded_left pf n p q x e ne ∙ ground (arith, e, ne, a)
]

-- __pf_printstuff sends the field, padded to its width.
pub pf_printstuff_lem :
    (pf : Pf) (p q x : List ℕ)
    → pf_printstuff pf p q x
      ≡ pf_print pf (
          padded (pf.spacing - (length p + length q + length x)) pf.rightspc pf.fillchar (p ++ q) x)
unfolding pf_printstuff
pf_printstuff_lem pf p q x =
    let len = length p + length q + length x in
    let s : (if ltb len pf.spacing then pf.spacing - len else 0) ≡ pf.spacing - len =
      ground arith in
    ap (λ spc. pf_printpadded pf spc p q x) s
    ∙ printpadded_lem pf (pf.spacing - len) p q x pf.rightspc refl

pub length-padded :
    (w : ℕ) (r : Bool) (f : ℕ) (p x : List ℕ)
    → w ≤ length (padded (w - (length p + length x)) r f p x)
length-padded w true f p x =
    let k = w - (length p + length x) in
    omega (arith, length-append (p ++ x) (replicate k f), length-append p x, length-replicate k f)
length-padded w false f p x = elim (ℕ_discrete f 48) [
  | yes z ↦
      let k = w - (length p + length x) in
      let e : padded k false f p x ≡ p ++ replicate k 48 ++ x = ground (arith, z) in
      omega (
        arith,
        ap length e,
        length-append (p ++ replicate k 48) x,
        length-append p (replicate k 48),
        length-replicate {A = ℕ} k 48,
      )
  | no ne ↦
      let k = w - (length p + length x) in
      let e : padded k false f p x ≡ replicate k f ++ p ++ x = ground (arith, ne) in
      omega (
        arith,
        ap length e,
        length-append (replicate k f ++ p) x,
        length-append (replicate k f) p,
        length-replicate k f,
      )
]
