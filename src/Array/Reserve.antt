-- ===== src/Array/Reserve.antt =====
-- kern/lib/array.c: array_add after array_preallocate, as kern/thread/thread.c uses them.
use mathlib.Core.List.{append-nil, append_assoc}
use ece344_operating_systems.Base.{
  ℕ, ◌+◌, ◌≤◌, ◌<◌, ◌^◌, ◌≡◌, refl, ap, sym, ◌∙◌, Bool, false, Bool-cases, none, some, List, [],
  ◌∷◌, ◌++◌, map, inl, inr, replicate, ◌-◌, ◌*◌, arith, ◌==◌, if◌then◌else◌, Run, done, ◌>>=◌,
  length, take-append, store_lem,
}
use ece344_operating_systems.Base.Errno.{enomem}
use ece344_operating_systems.Array.{Array, preallocate, setsize, add}
use ece344_operating_systems.Array.Inv.{block, IsValid, elems, length-elems, preallocate_lem}
use ece344_operating_systems.Array.Ops.{
  put, put-IsValid, not_null_some, grown-Resized, extended, cut-Resized,
}

module _ {A : Type 0} where
  -- A client that adds pointers until one is refused.
  unfoldable pub add_all : (ℕ → Bool) → Array A → List A → Run (ℕ × Array A)
  add_all mem a [] = done (0, a)
  add_all mem a (x ∷ xs) = do
    (result, a') ← add mem a x
    if result == 0 then add_all mem a' xs else done (result, a')

  pub add_fits :
      (mem : ℕ → Bool) (a : Array A) (x : A)
      → IsValid a
      → a.num < a.max
      → add mem a x ≡ done (0, put (record a { num = a.num + 1 }) a.num x)
  unfolding add setsize put
  add_fits mem a x h lt = ground (arith, not_null_some a.v, store_lem (block a.v) a.num (some x))

  add_all_fits :
      (mem : ℕ → Bool) (a : Array A) (xs : List A)
      → IsValid a
      → a.num + length xs ≤ a.max
      → (a' : Array A) × (add_all mem a xs ≡ done (0, a'))
        × IsValid a'
        × (elems a' ≡ elems a ++ map some xs)
  unfolding add_all put
  add_all_fits mem a [] h le = (a, refl, h, sym (append-nil (elems a)))
  add_all_fits mem a (x ∷ xs) h le =
      let next : Array A = put (record a { num = a.num + 1 }) a.num x in
      let resized = cut-Resized a (a.num + 1) h (omega arith) in
      let valid : IsValid next = put-IsValid (record a { num = a.num + 1 }) a.num x resized.valid in
      let (a', e, v, l) = add_all_fits mem next xs valid (omega arith) in
      (
        a',
        rw (add_fits mem a x h (omega arith)) e,
        v,
        l
            ∙ ap (λ t. t ++ map some xs) (extended a (record a { num = a.num + 1 }) x h resized)
            ∙ append_assoc (elems a) (some x ∷ []) (map some xs),
      )

  -- Once array_preallocate has granted room for `n`, pointers up to that number are added in order
  -- though every call of kmalloc fails.
  pub add_all-preallocate :
      (mem : ℕ → Bool) (a : Array A) (n : ℕ) (xs : List A) {a' : Array A}
      → IsValid a
      → n < 2 ^ 29
      → preallocate mem a n ≡ done (0, a')
      → a.num + length xs ≤ n
      → (a'' : Array A) × (add_all (λ _. false) a' xs ≡ done (0, a''))
        × IsValid a''
        × (elems a'' ≡ elems a ++ map some xs)
  add_all-preallocate mem a n xs {a'} h small e le =
      let (m, lo, room, hi, p) = preallocate_lem mem a n h small in
      elim (Bool-cases (mem (m * 4))) [
        | inl granted ↦
            let a₁ : Array A = record {
              num = a.num;
              max = m;
              v = some (elems a ++ replicate (m - a.num) none);
            } in
            let same : a' ≡ a₁ = ground (arith, p) in
            let r = grown-Resized a m a.num h (omega arith) (omega arith) hi (omega arith) in
            let (a'', q, v, l) = add_all_fits (λ _. false) a₁ xs r.valid (omega arith) in
            (
              a'',
              rw same q,
              v,
              l
                  ∙ ap (λ t. t ++ map some xs)
                      (take-append (elems a) _ a.num (sym (length-elems a h))),
            )
        | inr refused ↦ absurd (ground (arith, p))
      ]

  -- A full array has to grow, and says ENOMEM where kmalloc gives nothing.
  pub add-refused :
      (mem : ℕ → Bool) (a : Array A) (x : A)
      → IsValid a
      → a.num ≡ a.max
      → a.num + 1 < 2 ^ 29
      → ((n : ℕ) → mem n ≡ false)
      → add mem a x ≡ done (enomem, a)
  unfolding add setsize
  add-refused mem a x h full small refused =
      let (n, lo, room, hi, e) = preallocate_lem mem a (a.num + 1) h small in
      ground (arith, e, refused (n * 4))
