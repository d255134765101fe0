-- ===== src/Array/Ops.antt =====
-- kern/lib/array.c: what each operation does to the list of pointers in use.
use native.Mathlib.Numerals.{add-one}
use ece344_operating_systems.Base.{
  ℕ, ◌+◌, ◌-◌, ◌*◌, ◌≤◌, ◌<◌, ◌^◌, min, ◌≡◌, refl, ap, sym, ◌∙◌, ◌⊎◌, inl, inr, Bool, false, Option,
  none, some, List, [], ◌∷◌, ◌++◌, arith, ltb, ◌==◌, if◌then◌else◌, Bool-cases, dec_lt, ◌&&◌, done,
  panic, load, length, take, set, replicate, length-set, length-replicate, length-append, store_lem,
  take-set-suc, take-append_of_le, take-set_of_lt, take-take, get_elem?-take,
}
use ece344_operating_systems.Base.Errno.{enomem}
use ece344_operating_systems.Array.{Array, setsize, add, setguy, getguy, is_null}
use ece344_operating_systems.Array.Inv.{block, IsValid, elems, length-elems, preallocate_lem}

module _ {A : Type 0} where
  -- An array of `nguys` pointers that begins with the old ones.
  pub record Resized (a : Array A) (nguys : ℕ) (a' : Array A) : Type 0 where
    pub valid : IsValid a'
    pub num_set : a'.num ≡ nguys
    pub kept : take (min a.num nguys) (elems a') ≡ take (min a.num nguys) (elems a)

  -- The array that preallocation leaves when kmalloc grants the block, cut to `nguys`.
  abbrev pub grown : Array A → ℕ → ℕ → Array A
  grown a n nguys = record {
    num = nguys;
    max = n;
    v = some (elems a ++ replicate (n - a.num) none);
  }

  pub grown-Resized :
      (a : Array A) (n nguys : ℕ)
      → IsValid a
      → a.num ≤ n
      → nguys ≤ n
      → n < 2 ^ 30
      → a.num ≤ nguys
      → Resized a nguys (grown a n nguys)
  grown-Resized a n nguys h le room small up = record {
    valid = record {
      within = room;
      stored =
          length-append (elems a) _
          ∙ omega (arith, length-elems a h, length-replicate {A = Option A} (n - a.num) none);
      small = small;
    };
    num_set = refl;
    kept =
        take-take (min a.num nguys) nguys _ (omega arith)
        ∙ take-append_of_le (elems a) _ (min a.num nguys) (omega (arith, length-elems a h));
  }

  pub cut-Resized :
      (a : Array A) (nguys : ℕ)
      → IsValid a
      → nguys ≤ a.max
      → Resized a nguys (record a { num = nguys })
  cut-Resized a nguys h le = record {
    valid = record { within = le; stored = h.stored; small = h.small };
    num_set = refl;
    kept =
        take-take (min a.num nguys) nguys (block a.v) (omega arith)
        ∙ sym (take-take (min a.num nguys) a.num (block a.v) (omega arith));
  }

  emptied-Resized : (a : Array A) → Resized a 0 (record { num = 0; max = 0; v = none })
  emptied-Resized a = record {
    valid = record { within = omega arith; stored = refl; small = omega arith };
    num_set = refl;
    kept = let e : min a.num 0 ≡ 0 = omega arith in rw e refl;
  }

  pub not_null : (v : Option (List (Option A))) → 0 < length (block v) → is_null v ≡ false
  not_null none h = absurd (omega arith)
  not_null (some cells) h = refl

  -- array_setsize either says ENOMEM, only where the array has to grow, and changes nothing, or
  -- leaves `nguys` pointers, the old ones first.
  pub setsize_lem :
      (mem : ℕ → Bool) (a : Array A) (nguys : ℕ)
      → IsValid a
      → nguys < 2 ^ 29
      → ((setsize mem a nguys ≡ done (enomem, a)) × (a.max < nguys))
        ⊎ ((a' : Array A) × (setsize mem a nguys ≡ done (0, a')) × Resized a nguys a')
  unfolding setsize
  setsize_lem mem a nguys h small = elim (dec_lt a.max nguys) [
    | yes grow ↦
        let (n, lo, room, hi, e) = preallocate_lem mem a nguys h small in
        elim (Bool-cases (mem (n * 4))) [
          | inl granted ↦ inr (
            grown a n nguys,
            ground (arith, e),
            grown-Resized a n nguys h (omega arith) room hi (omega arith),
          )
          | inr refused ↦ inl (ground (arith, e), grow)
        ]
    | no fits ↦ elim (Bool-cases (nguys == 0 && ltb 16 a.max)) [
      | inl empty ↦ inr (
        record { num = 0; max = 0; v = none },
        ground (arith, not_null a.v),
        ground (arith, emptied-Resized a),
      )
      | inr keep ↦ inr (record a { num = nguys }, ground arith, cut-Resized a nguys h (omega arith))
    ]
  ]

  pub not_null_some : (v : Option (List (Option A))) → 0 < length (block v) → v ≡ some (block v)
  not_null_some none h = absurd (omega arith)
  not_null_some (some cells) h = refl

  -- `a->v[i] = x`, for an index in use
  unfoldable pub put : Array A → ℕ → A → Array A
  put a i x = record a { v = some (set (block a.v) i (some x)) }

  pub put-IsValid : (a : Array A) (i : ℕ) (x : A) → IsValid a → IsValid (put a i x)
  unfolding put
  put-IsValid a i x h = record {
    within = h.within;
    stored = length-set (block a.v) i (some x) ∙ h.stored;
    small = h.small;
  }

  elems-put :
      (a : Array A) (i : ℕ) (x : A) → i < a.num → elems (put a i x) ≡ set (elems a) i (some x)
  unfolding put
  elems-put a i x lt = take-set_of_lt a.num i (block a.v) (some x) lt

  pub extended :
      (a a' : Array A) (x : A)
      → IsValid a
      → Resized a (a.num + 1) a'
      → elems (put a' a.num x) ≡ elems a ++ some x ∷ []
  unfolding put
  extended a a' x h r =
      rw (r.num_set, add-one, take-set-suc a.num (block a'.v) (some x) (omega arith))
        (ap (λ t. t ++ some x ∷ []) old)
    where
      least : min a.num (a.num + 1) ≡ a.num
      least = omega arith

      old : take a.num (block a'.v) ≡ elems a
      old =
          sym (take-take a.num a'.num (block a'.v) (omega arith))
          ∙ (rw least at r.kept)
          ∙ take-take a.num a.num (block a.v) (omega arith)

  -- array_add either says ENOMEM, only with the block full, and changes nothing, or puts the
  -- pointer behind the others.
  pub add_lem :
      (mem : ℕ → Bool) (a : Array A) (x : A)
      → IsValid a
      → a.num + 1 < 2 ^ 29
      → ((add mem a x ≡ done (enomem, a)) × (a.num ≡ a.max))
        ⊎ ((a' : Array A) × (add mem a x ≡ done (0, a'))
            × IsValid a'
            × (elems a' ≡ elems a ++ some x ∷ []))
  unfolding add put
  add_lem mem a x h small = elim (setsize_lem mem a (a.num + 1) h small) [
    | inl (e, full) ↦ inl (ground (arith, e), omega arith)
    | inr (a', e, r) ↦ inr (
      put a' a.num x,
      ground (arith, e, not_null_some a'.v, store_lem (block a'.v) a.num (some x)),
      put-IsValid a' a.num x r.valid,
      extended a a' x h r,
    )
  ]

  pub setguy_lem :
      (a : Array A) (i : ℕ) (x : A)
      → IsValid a
      → (i < a.num
          → (a' : Array A) × (setguy a i x ≡ done a')
            × IsValid a'
            × (elems a' ≡ set (elems a) i (some x)))
        × (a.num ≤ i → setguy a i x ≡ panic)
  unfolding setguy put
  setguy_lem a i x h = (
    λ lt. (
      put a i x,
      ground (arith, not_null_some a.v, store_lem (block a.v) i (some x)),
      put-IsValid a i x h,
      elems-put a i x lt,
    ),
    λ ge. ground arith,
  )

  pub getguy_lem :
      (a : Array A) (i : ℕ)
      → IsValid a
      → (getguy a i ≡ (if ltb i a.num then load (elems a) i else panic))
  unfolding getguy load
  getguy_lem a i h = elim (dec_lt i a.num) [
    | yes lt ↦ ground (arith, not_null_some a.v, get_elem?-take a.num i (block a.v))
    | no ge ↦ ground arith
  ]
