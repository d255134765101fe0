-- ===== src/Malloc/Alloc.antt =====
-- lib/libc/malloc.c: malloc on a heap that is set up.
use ece344_operating_systems.Base.{
  ℕ, ◌+◌, ◌-◌, ◌*◌, ◌/◌, ◌%◌, ◌^◌, ◌≤◌, ◌<◌, ◌≡◌, ◌⊎◌, refl, ap, sym, ◌∙◌, subst, inl, inr, true,
  false, ◌||◌, Bool-cases, Option, none, some, List, [], ◌∷◌, ◌++◌, length, arith, ltb, ◌==◌, done,
  dec_lt,
}
use ece344_operating_systems.Malloc.{Mheader, UserHeap, set_header, round_up, expand, malloc}
use ece344_operating_systems.Malloc.Blocks.{
  Block, header_of, Chain, Chain-le, last_units, Stands, Coalesced, Coalesced-tail, Coalesced-used,
  IsHeap, fit_here, first_fit,
}
use ece344_operating_systems.Malloc.Fit.{IsServed, search_lem}

fit_here-Coalesced :
    (n : ℕ) (b c : Block) (cs : List Block)
    → Coalesced (b ∷ c ∷ cs)
    → c.used ≡ false
    → Coalesced (b ∷ fit_here n c cs)
unfolding fit_here
fit_here-Coalesced n b c cs (either, rest) unused = by_room (dec_lt (c.units - n) 2)
  where
    front : b.used ≡ true
    front = elim either [ inl y ↦ y | inr y ↦ ground (arith, y, unused) ]

    behind :
        (d : Block) (cs : List Block)
        → (d.used ≡ true) ⊎ (d.used ≡ c.used)
        → Coalesced (c ∷ cs)
        → Coalesced (d ∷ cs)
    behind d [] same co = tt
    behind d (e ∷ es) (inl used) (either, co) = (inl used, co)
    behind d (e ∷ es) (inr same) (inl y, co) = (inl (same ∙ y), co)
    behind d (e ∷ es) (inr same) (inr y, co) = (inr y, co)

    by_room : Dec (c.units - n < 2) → Coalesced (b ∷ fit_here n c cs)
    by_room (yes tight) =
        let e : record { units = c.units; used = true } ∷ cs ≡ fit_here n c cs =
          ground (arith, tight) in
        let d : Block = record { units = c.units; used = true } in
        subst (λ l. Coalesced (b ∷ l)) e (inl front, behind d cs (inl refl) rest)
    by_room (no room) =
        let e : record { units = n; used = true }
              ∷ record { units = c.units - n; used = false }
              ∷ cs
            ≡ fit_here n c cs =
          ground (arith, room) in
        let d : Block = record { units = c.units - n; used = false } in
        subst (λ l. Coalesced (b ∷ l)) e
          (inl front, (inl refl, behind d cs (inr (sym unused)) rest))

first_fit-Coalesced :
    (n : ℕ) (b : Block) (bs bs' : List Block)
    → Coalesced (b ∷ bs)
    → first_fit n bs ≡ some bs'
    → Coalesced (b ∷ bs')
unfolding first_fit
first_fit-Coalesced n b [] bs' co e = absurd ground (arith, e)
first_fit-Coalesced n b (c ∷ cs) bs' (either, co) e = elim (Bool-cases (c.used || ltb c.units n)) [
  | inr fits ↦
      let unused : c.used ≡ false = ground (arith, fits) in
      let same : fit_here n c cs ≡ bs' = ground (arith, e, fits) in
      subst (λ l. Coalesced (b ∷ l)) same (fit_here-Coalesced n b c cs (either, co) unused)
  | inl skip ↦
      later (first_fit n cs) refl skip (λ cs' found. first_fit-Coalesced n c cs cs' co found)
]
  where
    later :
        (r : Option (List Block))
        → first_fit n cs ≡ r
        → (c.used || ltb c.units n) ≡ true
        → ((cs' : List Block) → first_fit n cs ≡ some cs' → Coalesced (c ∷ cs'))
        → Coalesced (b ∷ bs')
    later none none_fits skip keeps = absurd ground (arith, e, none_fits, skip)
    later (some cs') found skip keeps =
        let same : c ∷ cs' ≡ bs' = ground (arith, e, found, skip) in
        subst (λ l. Coalesced (b ∷ l)) same (either, keeps cs' found)

-- A block on top of the heap.
Chain-append :
    (header header' : ℕ → Mheader) (top prev i : ℕ) (bs : List Block) (b : Block)
    → Chain header top prev i bs
    → 0 < b.units
    → ((a : ℕ) → a < top → header' a ≡ header a)
    → header' top ≡ header_of (last_units prev bs) b
    → Chain header' (top + b.units * 8) prev i (bs ++ b ∷ [])
Chain-append header header' top prev i [] b c pos same at =
    (ap header' c ∙ at, pos, ap (λ x. x + b.units * 8) c)
Chain-append header header' top prev i (d ∷ ds) b (here, pos', c) pos same at =
    let room : i + d.units * 8 ≤ top =
      omega (arith, Chain-le header top d.units (i + d.units * 8) ds c) in
    (
      same i (omega (arith, room, pos')) ∙ here,
      pos',
      Chain-append header header' top d.units (i + d.units * 8) ds b c pos same at,
    )

Coalesced-append :
    (bs : List Block) (b : Block) → Coalesced bs → b.used ≡ true → Coalesced (bs ++ b ∷ [])
Coalesced-append [] b co u = tt
Coalesced-append (c ∷ []) b co u = (inr u, tt)
Coalesced-append (c ∷ d ∷ ds) b (either, co) u = (either, Coalesced-append (d ∷ ds) b co u)

-- Where the block on top stands, and the others.
Stands-append :
    (header : ℕ → Mheader) (top prev i : ℕ) (bs : List Block) (b : Block)
    → Chain header top prev i bs
    → Stands i (bs ++ b ∷ []) top b
Stands-append header top prev i [] b c = inl (sym c, refl)
Stands-append header top prev i (d ∷ ds) b (at, pos, c) =
    inr (Stands-append header top d.units (i + d.units * 8) ds b c)

Stands-front :
    (i : ℕ) (bs cs : List Block) (a : ℕ) (d : Block) → Stands i bs a d → Stands i (bs ++ cs) a d
Stands-front i [] cs a d s = absurd s
Stands-front i (b ∷ bs) cs a d (inl here) = inl here
Stands-front i (b ∷ bs) cs a d (inr there) = inr (Stands-front (i + b.units * 8) bs cs a d there)

-- The block for `size` bytes has this many units, its header among them.
abbrev pub units_for : ℕ → ℕ
units_for size = (size + 7) / 8 + 1

-- What malloc answers, and what the blocks are then.
abbrev pub Answers : Option ℕ → ℕ → ℕ → List Block → List Block → Option ℕ → ℕ → ℕ → Type 0
Answers gave n base bs bs' result top top' =
    ((a : ℕ) × (result ≡ some (a + 8)) × (first_fit n bs ≡ some bs') × IsServed n base bs bs' a)
    ⊎ (((first_fit n bs ≡ none) × (gave ≡ none) × (result ≡ none) × (bs' ≡ bs))
        ⊎ ((first_fit n bs ≡ none)
            × (result ≡ some (top + 8))
            × (bs' ≡ bs ++ record { units = n; used = true } ∷ [])
            × (top' ≡ top + n * 8)
            × Stands base bs' top (record { units = n; used = true })
            × ((c : ℕ) (d : Block) → Stands base bs c d → Stands base bs' c d)))

expand_lem :
    (sbrk : ℕ → Option ℕ) (n size : ℕ) (h : UserHeap) (bs : List Block)
    → IsHeap h bs
    → size + 8 ≡ n * 8
    → h.heaptop + n * 8 < 2 ^ 32
    → (sbrk (n * 8) ≡ none) ⊎ (sbrk (n * 8) ≡ some h.heaptop)
    → first_fit n bs ≡ none
    → (result : Option ℕ) × (h' : UserHeap) × (bs' : List Block) × (expand sbrk
          (last_units 0 bs)
          size
          h
        ≡ done (result, h'))
      × IsHeap h' bs'
      × Answers (sbrk (n * 8)) n h.heapbase bs bs' result h.heaptop h'.heaptop
unfolding expand
expand_lem sbrk n size h bs heap e small (inl no_memory) none_fits =
    let more : (size + 8) % 2 ^ 32 ≡ n * 8 = omega (arith, e, small) in
    let refused : sbrk ((size + 8) % 2 ^ 32) ≡ none = ap sbrk more ∙ no_memory in
    (none, h, bs, ground (arith, refused), heap, inr (inl (none_fits, no_memory, refl, refl)))
expand_lem sbrk n size h bs heap e small (inr given) none_fits =
    let more : (size + 8) % 2 ^ 32 ≡ n * 8 = omega (arith, e, small) in
    let gave : sbrk ((size + 8) % 2 ^ 32) ≡ some h.heaptop = ap sbrk more ∙ given in
    let b : Block = record { units = n; used = true } in
    let field : (size + 8) % 2 ^ 32 / 8 ≡ n = omega (arith, e, small) in
    let top : (h.heaptop + (size + 8) % 2 ^ 32) % 2 ^ 32 ≡ h.heaptop + n * 8 =
      omega (arith, more, small) in
    let added : Mheader = record {
      prevblock = last_units 0 bs;
      magic1 = 2;
      nextblock = (size + 8) % 2 ^ 32 / 8;
      inuse = true;
      magic2 = 2;
    } in
    let h' =
      set_header h.heaptop added
        (record h { heaptop = (h.heaptop + (size + 8) % 2 ^ 32) % 2 ^ 32 }) in
    let at : h'.header h.heaptop ≡ header_of (last_units 0 bs) b = ground (arith, field) in
    let chain =
      Chain-append h.header h'.header h.heaptop 0 h.heapbase bs b heap.chain (omega (arith, e))
        (λ a l. ground (arith, l)) at in
    (
      some (h.heaptop + 8),
      h',
      bs ++ b ∷ [],
      ground (arith, gave),
      record {
        based = heap.based;
        small = omega (arith, top, small);
        chain = subst (λ t. Chain h'.header t 0 h.heapbase (bs ++ b ∷ [])) (sym top) chain;
        coalesced = Coalesced-append bs b heap.coalesced refl;
      },
      inr (
          inr (
            none_fits,
            refl,
            refl,
            top,
            Stands-append h.header h.heaptop 0 h.heapbase bs b heap.chain,
            λ c d s. Stands-front h.heapbase bs (b ∷ []) c d s,
          )),
    )

-- On a heap that is set up, with no two free blocks side by side, for a size that can be rounded up below the
-- end of memory and with sbrk giving none or the top of the heap, malloc ends, and the heap is well formed
-- afterwards, again with no two free blocks side by side. It is first fit: the first free block that
-- is large enough is cut or taken whole; when there is none, a block is added on top, or malloc answers
-- NULL for want of memory with the blocks as they were. Blocks in use stay where they are.
pub malloc_lem :
    (sbrk : ℕ → Option ℕ) (size : ℕ) (h : UserHeap) (bs : List Block)
    → IsHeap h bs
    → h.heaptop + units_for size * 8 < 2 ^ 32
    → (sbrk (units_for size * 8) ≡ none) ⊎ (sbrk (units_for size * 8) ≡ some h.heaptop)
    → (result : Option ℕ) × (h' : UserHeap) × (bs' : List Block) × (malloc sbrk size h
        ≡ done (result, h'))
      × IsHeap h' bs'
      × Answers
          (sbrk (units_for size * 8))
          (units_for size)
          h.heapbase
          bs
          bs'
          result
          h.heaptop
          h'.heaptop
unfolding malloc
malloc_lem sbrk size h bs heap small given =
    let n = units_for size in
    let in_front : Block = record { units = 1; used = true } in
    let room = Chain-le h.header h.heaptop 0 h.heapbase bs heap.chain in
    let e : round_up size + 8 ≡ n * 8 = omega (arith, small) in
    let not_base : (h.heapbase == 0) ≡ false = ground (arith, heap.based) in
    let ordered : h.heapbase ≤ h.heaptop = omega (arith, room) in
    let fuel : length bs < h.heaptop - h.heapbase + 1 = omega (arith, room) in
    elim (search_lem bs (h.heaptop - h.heapbase + 1) n (round_up size) 0 h.heapbase h heap.chain
      heap.small e fuel) [
        | inr (bs', a, u, h', run, f) ↦ (
          some (a + 8),
          h',
          bs',
          ground (arith, not_base, heap.based, ordered, run),
          record {
            based = omega (arith, heap.based, f.same_base);
            small = omega (arith, heap.small, f.same_top);
            chain =
                subst (λ b. Chain h'.header h'.heaptop 0 b bs') (sym f.same_base)
                  (subst (λ t. Chain h'.header t 0 h.heapbase bs') (sym f.same_top) f.chain);
            coalesced = Coalesced-tail in_front bs' (
                first_fit-Coalesced n in_front bs bs'
                  (Coalesced-used in_front bs refl heap.coalesced) f.fit);
          },
          inl (a, refl, f.fit, f.served),
        )
        | inl (none_fits, run) ↦
            let (result, h', bs', run', heap', answers) =
              expand_lem sbrk n (round_up size) h bs heap e small given none_fits in
            (
              result,
              h',
              bs',
              ground (arith, not_base, heap.based, ordered, run, run'),
              heap',
              answers,
            )
      ]
