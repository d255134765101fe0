-- ===== src/Malloc/Free.antt =====
-- lib/libc/malloc.c: free.
use ece344_operating_systems.Base.{
  ℕ, zero, suc, ◌+◌, ◌-◌, ◌*◌, ◌^◌, ◌≤◌, ◌<◌, ◌≡◌, ◌≢◌, refl, ap, sym, ◌∙◌, subst, inl, inr, false,
  Bool-cases, Option, none, some, List, [], ◌∷◌, arith, ◌==◌, if◌then◌else◌, Run, done,
}
use ece344_operating_systems.Malloc.{
  UserHeap, m_size, m_nextoff, set_header, malloc_deadbeef, malloc_trymerge, release,
}
use ece344_operating_systems.Malloc.Blocks.{Block, header_of, Chain, Chain-le, Chain-cong}
use ece344_operating_systems.Malloc.Merge.{joined, IsLeft, merge_lem}

-- A block of `n` units that is freed, with the blocks behind it.
unfoldable pub free_next : ℕ → List Block → List Block
free_next n [] = record { units = n; used = false } ∷ []
free_next n (c ∷ cs) = joined (record { units = n; used = false }) c cs

-- The blocks when the one at place `k` is freed.
unfoldable pub freed : ℕ → List Block → List Block
freed k [] = []
freed zero (b ∷ bs) = free_next b.units bs
freed (suc zero) (p ∷ []) = p ∷ []
freed (suc zero) (p ∷ b ∷ bs) = elim (free_next b.units bs) [ [] ↦ p ∷ [] | c ∷ cs ↦ joined p c cs ]
freed (suc (suc k)) (p ∷ bs) = p ∷ freed (suc k) bs

-- The block at place `k`, and the address of its header.
abbrev pub place : ℕ → List Block → Option Block
place k [] = none
place zero (b ∷ bs) = some b
place (suc k) (b ∷ bs) = place k bs

abbrev pub address : ℕ → List Block → ℕ → ℕ
address i [] k = i
address i (b ∷ bs) zero = i
address i (b ∷ bs) (suc k) = address (i + b.units * 8) bs k

-- From `mh->mh_inuse = 0` to the merge with the block above.
abbrev upward : ℕ → UserHeap → Run UserHeap
upward mh h =
    let m = h.header mh in
    let h₁ = set_header mh (record m { inuse = false }) h in
    let h₂ = malloc_deadbeef (mh + 8) (m_size m) h₁ in
    if mh + m_nextoff m == h.heaptop then done h₂ else malloc_trymerge mh (mh + m_nextoff m) h₂

upward_lem :
    (prev i : ℕ) (b : Block) (bs : List Block) (h : UserHeap)
    → Chain h.header h.heaptop prev i (b ∷ bs)
    → h.heaptop < 2 ^ 32
    → (h' : UserHeap) × (upward i h ≡ done h') × IsLeft prev i (free_next b.units bs) h h'
unfolding free_next
upward_lem prev i b bs h (at, pos, c) small =
    let next = i + b.units * 8 in
    let room : next ≤ h.heaptop = omega (arith, Chain-le h.header h.heaptop b.units next bs c) in
    let units : (h.header i).nextblock ≡ b.units = ap (λ m. m.nextblock) at in
    let size_of : m_size (h.header i) ≡ b.units * 8 - 8 = omega (arith, units, room, small, pos) in
    let next_of : i + (h.header i).nextblock * 8 ≡ next = ap (λ u. i + u * 8) units in
    let wiped : (a : ℕ) → next ≤ a → h₂.header a ≡ h.header a =
      λ a lo. ground (arith, lo, size_of, pos) in
    let here : h₂.header i ≡ header_of prev (record { units = b.units; used = false }) =
      ground (arith, at, pos) in
    let chain : Chain h₂.header h.heaptop prev i (record { units = b.units; used = false } ∷ bs) = (
      here,
      pos,
      Chain-cong h.header h₂.header h.heaptop b.units next bs (λ a lo hi. wiped a lo) c,
    ) in
    cases bs c chain room next_of
  where
    h₂ : UserHeap
    h₂ =
        malloc_deadbeef (i + 8) (m_size (h.header i))
          (set_header i (record (h.header i) { inuse = false }) h)

    below : (a : ℕ) → a < i → h₂.header a ≡ h.header a
    below a l = ground (arith, l)

    cases :
        (bs : List Block)
        → Chain h.header h.heaptop b.units (i + b.units * 8) bs
        → Chain h₂.header h.heaptop prev i (record { units = b.units; used = false } ∷ bs)
        → i + b.units * 8 ≤ h.heaptop
        → i + (h.header i).nextblock * 8 ≡ i + b.units * 8
        → (h' : UserHeap) × (upward i h ≡ done h') × IsLeft prev i (free_next b.units bs) h h'
    cases [] c chain room next_of = (
      h₂,
      ground (arith, next_of, c),
      record { chain = chain; same_base = refl; same_top = refl; below = below },
    )
    cases (d ∷ ds) (at', pos', c) chain room next_of =
        let end = Chain-le h.header h.heaptop d.units (i + b.units * 8 + d.units * 8) ds c in
        let not_top : i + b.units * 8 ≢ h.heaptop = omega (arith, end, pos') in
        let (h', run, is) =
          merge_lem prev i (record { units = b.units; used = false }) d ds h₂ chain small in
        (
          h',
          ground (arith, next_of, not_top, run),
          record {
            chain = is.chain;
            same_base = is.same_base;
            same_top = is.same_top;
            below = λ a l. is.below a l ∙ below a l;
          },
        )

pub free_next-cons :
    (n : ℕ) (bs : List Block) → (c : Block) × (cs : List Block) × (free_next n bs ≡ c ∷ cs)
unfolding free_next joined
free_next-cons n [] = (record { units = n; used = false }, [], refl)
free_next-cons n (c ∷ cs) = elim (Bool-cases c.used) [
  | inl y ↦ (record { units = n; used = false }, c ∷ cs, ground (arith, y))
  | inr x ↦ (record { units = n + c.units; used = false }, cs, ground (arith, x))
]

pub release_lem :
    (k prev i : ℕ) (bs : List Block) (b : Block) (h : UserHeap)
    → Chain h.header h.heaptop prev i bs
    → h.heaptop < 2 ^ 32
    → h.heapbase ≤ i
    → (k ≡ 0 → i ≡ h.heapbase)
    → place k bs ≡ some b
    → (h' : UserHeap) × (release (address i bs k) h ≡ done h') × IsLeft prev i (freed k bs) h h'
unfolding release freed
release_lem k prev i [] b h c small low base at = absurd ground (arith, at)
release_lem zero prev i (d ∷ ds) b h c small low base at =
    let (h', run, is) = upward_lem prev i d ds h c small in
    let bottom : i ≡ h.heapbase = base refl in
    let bottom' : i ≡ h'.heapbase = bottom ∙ sym is.same_base in
    (h', ground (arith, run, bottom, bottom'), is)
release_lem (suc zero) prev i (p ∷ []) b h c small low base at = absurd ground (arith, at)
release_lem (suc zero) prev i (p ∷ d ∷ ds) b h (at_p, pos, c) small low base at =
    let mh = i + p.units * 8 in
    let (h₃, run, is) = upward_lem p.units mh d ds h c small in
    let (e, es, shape) = free_next-cons d.units ds in downward h₃ run is e es shape
  where
    downward :
        (h₃ : UserHeap)
        → upward (i + p.units * 8) h ≡ done h₃
        → IsLeft p.units (i + p.units * 8) (free_next d.units ds) h h₃
        → (e : Block) (es : List Block) → free_next d.units ds ≡ e ∷ es
        → (h' : UserHeap) × (release (i + p.units * 8) h ≡ done h')
          × IsLeft prev i (freed 1 (p ∷ d ∷ ds)) h h'
    downward h₃ run is e es shape =
        let mh = i + p.units * 8 in
        let behind : Chain h₃.header h.heaptop p.units mh (e ∷ es) =
          subst (λ l. Chain h₃.header h.heaptop p.units mh l) shape is.chain in
        let chain : Chain h₃.header h.heaptop prev i (p ∷ e ∷ es) =
          (is.below i (omega (arith, pos)) ∙ at_p, pos, behind) in
        let chain' : Chain h₃.header h₃.heaptop prev i (p ∷ e ∷ es) =
          subst (λ t. Chain h₃.header t prev i (p ∷ e ∷ es)) (sym is.same_top) chain in
        let (h', run', is') =
          merge_lem prev i p e es h₃ chain' (omega (arith, small, is.same_top)) in
        let back : mh - (h₃.header mh).prevblock * 8 ≡ i =
          ap (λ m. mh - m.prevblock * 8) behind.0 ∙ omega arith in
        let not_base : mh ≢ h₃.heapbase = omega (arith, low, pos, is.same_base) in
        let run'' : malloc_trymerge (mh - (h₃.header mh).prevblock * 8) mh h₃ ≡ done h' =
          ap (λ a. malloc_trymerge a mh h₃) back ∙ run' in
        let list : freed 1 (p ∷ d ∷ ds) ≡ joined p e es =
          ap (λ l. elim l as (λ x. List Block) [ [] ↦ p ∷ [] | c ∷ cs ↦ joined p c cs ]) shape in
        (
          h',
          ground (arith, run, not_base, run''),
          record {
            chain =
                subst (λ l. Chain h'.header h.heaptop prev i l) (sym list)
                  (subst (λ t. Chain h'.header t prev i (joined p e es)) is.same_top is'.chain);
            same_base = is'.same_base ∙ is.same_base;
            same_top = is'.same_top ∙ is.same_top;
            below = λ a l. is'.below a l ∙ is.below a (omega (arith, l));
          },
        )
release_lem (suc (suc k)) prev i (p ∷ bs) b h (at_p, pos, c) small low base at =
    let (h', run, is) =
      release_lem (suc k) p.units (i + p.units * 8) bs b h c small (omega (arith, low))
        (λ z. absurd (omega (arith, z))) at in
    (
      h',
      run,
      record {
        chain = (is.below i (omega (arith, pos)) ∙ at_p, pos, is.chain);
        same_base = is.same_base;
        same_top = is.same_top;
        below = λ a l. is.below a (omega (arith, l));
      },
    )
