-- ===== src/Libc/Words.antt =====
-- The words of a string: strtok_r of lib/libc/strtok_r.c, called until it says NULL, as cmd_dispatch of
-- kern/main/menu.c does.
use mathlib.Core.List.{append_assoc, append-nil}
use ece344_operating_systems.Base.{
  ℕ, zero, suc, ◌≡◌, ◌⊎◌, inl, inr, refl, ap, sym, ◌∙◌, Bool, true, false, Option, none, some, List,
  [], ◌∷◌, ◌++◌, length, leb, if◌then◌else◌, arith,
}
use ece344_operating_systems.Base.Errno.{e2big}
use ece344_operating_systems.Libc.{
  strchr, skip_seps, cut_word, word_at, strtok_r, menu_seps, args_from, dispatch_args,
}

-- A byte that goes in front of a text goes in front of its first word when the text begins with one,
-- and else is a word.
abbrev joined : Bool → ℕ → List (List ℕ) → List (List ℕ)
joined true c (w ∷ ws) = (c ∷ w) ∷ ws
joined true c [] = (c ∷ []) ∷ []
joined false c ws = (c ∷ []) ∷ ws

-- Whether the text begins with a word.
abbrev in_word : List ℕ → List ℕ → Bool
in_word seps [] = false
in_word seps (c ∷ s) = elim (strchr seps c) [ none ↦ true | some i ↦ false ]

-- The longest pieces without separators, in their order.
abbrev pub words : List ℕ → List ℕ → List (List ℕ)
words seps [] = []
words seps (c ∷ s) =
    let rest = words seps s in
    elim (strchr seps c) [ none ↦ joined (in_word seps s) c rest | some i ↦ rest ]

-- The words behind a context.
abbrev words_behind : List ℕ → Option (List ℕ) → List (List ℕ)
words_behind seps none = []
words_behind seps (some s) = words seps s

-- An answer of strtok_r gives the words of a text: the first of them, and those behind the context.
abbrev Gives : List ℕ → List (List ℕ) → Option (List ℕ) × Option (List ℕ) → Type 0
Gives seps ws (none, context) = ws ≡ []
Gives seps ws (some w, context) = ws ≡ w ∷ words_behind seps context

-- What cut_word does, at the start of a word and elsewhere.
abbrev Cuts : List ℕ → List ℕ → Bool → Type 0
Cuts seps s true = words seps s ≡ (cut_word seps s).0 ∷ words_behind seps (cut_word seps s).1
Cuts seps s false =
    ((cut_word seps s).0 ≡ []) × (words_behind seps (cut_word seps s).1 ≡ words seps s)

cut_first :
    (seps s : List ℕ) (c : ℕ) (b : Bool)
    → strchr seps c ≡ none
    → in_word seps s ≡ b
    → Cuts seps s b
    → Cuts seps (c ∷ s) true
unfolding cut_word
cut_first seps s c true n e h = ground (arith, n, e, h)
cut_first seps s c false n e (h, k) = ground (arith, n, e, h, k)

cut_word_lem : (seps s : List ℕ) (b : Bool) → in_word seps s ≡ b → Cuts seps s b
unfolding cut_word
cut_word_lem seps [] true e = cc
cut_word_lem seps [] false e = (refl, refl)
cut_word_lem seps (c ∷ s) b e =
    cut_at seps s c b (strchr seps c) refl e (cut_word_lem seps s (in_word seps s) refl)
  where
    cut_at :
        (seps s : List ℕ) (c : ℕ) (b : Bool) (o : Option ℕ)
        → strchr seps c ≡ o
        → in_word seps (c ∷ s) ≡ b
        → Cuts seps s (in_word seps s)
        → Cuts seps (c ∷ s) b
    cut_at seps s c true none n e h = cut_first seps s c (in_word seps s) n refl h
    cut_at seps s c false none n e h = ground (arith, n, e)
    cut_at seps s c true (some i) n e h = ground (arith, n, e)
    cut_at seps s c false (some i) n e h = (ground (arith, n), ground (arith, n))

word_at_lem : (seps s : List ℕ) → Gives seps (words seps s) (word_at seps (skip_seps seps s))
unfolding skip_seps word_at
word_at_lem seps [] = refl
word_at_lem seps (c ∷ s) = first seps s c (strchr seps c) refl (word_at_lem seps s)
  where
    first :
        (seps s : List ℕ) (c : ℕ) (o : Option ℕ)
        → strchr seps c ≡ o
        → Gives seps (words seps s) (word_at seps (skip_seps seps s))
        → Gives seps (words seps (c ∷ s)) (word_at seps (skip_seps seps (c ∷ s)))
    first seps s c none n h =
        let w : in_word seps (c ∷ s) ≡ true = ground (arith, n) in
        let k : Cuts seps (c ∷ s) true = cut_word_lem seps (c ∷ s) true w in ground (arith, n, k)
    first seps s c (some i) n h = ground (arith, n, h)

strtok_r_lem :
    (seps : List ℕ) (context : Option (List ℕ))
    → Gives seps (words_behind seps context) (strtok_r none seps context)
unfolding strtok_r
strtok_r_lem seps none = refl
strtok_r_lem seps (some s) = word_at_lem seps s

-- The words `ws` behind the arguments, if there is room for them.
abbrev limited : ℕ → List (List ℕ) → List (List ℕ) → List (List ℕ) ⊎ ℕ
limited room args ws = if leb (length ws) room then inl (args ++ ws) else inr e2big

limited-suc :
    (room : ℕ) (args : List (List ℕ)) (w : List ℕ) (ws : List (List ℕ))
    → limited room (args ++ w ∷ []) ws ≡ limited (suc room) args (w ∷ ws)
limited-suc room args w ws =
    let e : args ++ w ∷ [] ++ ws ≡ args ++ w ∷ ws = append_assoc args (w ∷ []) ws in
    ground (arith, e)

args_from_lem :
    (room : ℕ) (ws : List (List ℕ)) (r : Option (List ℕ) × Option (List ℕ)) (args : List (List ℕ))
    → Gives menu_seps ws r
    → args_from room r args ≡ limited room args ws
unfolding args_from
args_from_lem room ws (none, k) args g =
    let n : args ++ [] ≡ args = append-nil args in
    let e : inl args ≡ limited room args [] = ground (arith, n) in
    e ∙ ap (λ l. limited room args l) (sym g)
args_from_lem zero ws (some w, k) args g =
    let e : inr e2big ≡ limited 0 args (w ∷ words_behind menu_seps k) = ground arith in
    e ∙ ap (λ l. limited 0 args l) (sym g)
args_from_lem (suc room) ws (some w, k) args g =
    let rest = words_behind menu_seps k in
    args_from_lem room rest (strtok_r none menu_seps k) (args ++ w ∷ []) (strtok_r_lem menu_seps k)
    ∙ limited-suc room args w rest
    ∙ ap (λ l. limited (suc room) args l) (sym g)

-- cmd_dispatch cuts a command into its words, the longest pieces without blanks and tabs in their
-- order, if they are 16 at most, and else says E2BIG.
pub dispatch_args_lem :
    (cmd : List ℕ)
    → dispatch_args cmd
      ≡ (if leb (length (words menu_seps cmd)) 16 then inl (words menu_seps cmd) else inr e2big)
unfolding dispatch_args strtok_r
dispatch_args_lem cmd =
    args_from_lem 16 (words menu_seps cmd) (strtok_r (some cmd) menu_seps none) []
      (word_at_lem menu_seps cmd)
