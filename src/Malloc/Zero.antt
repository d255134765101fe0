-- ===== src/Malloc/Zero.antt =====
-- lib/libc/malloc.c: a block without data on top of the heap.
use ece344_operating_systems.Base.{
  ℕ, ◌+◌, ◌^◌, ◌<◌, ◌≡◌, ap, sym, ◌∙◌, inl, inr, Option, none, some, List, arith, done, panic,
}
use ece344_operating_systems.Malloc.{UserHeap, malloc, free}
use ece344_operating_systems.Malloc.Blocks.{Block, IsHeap, Chain-le, first_fit}
use ece344_operating_systems.Malloc.Alloc.{Answers, malloc_lem}
use ece344_operating_systems.Malloc.Freed.{free-top}

-- When no block is free and sbrk gives the top of the heap, on a heap that is set up and not at the end of memory,
-- malloc of 0 bytes answers an address, and free of that address ends the program with a message.
pub free-malloc_zero :
    (sbrk : ℕ → Option ℕ) (h : UserHeap) (bs : List Block)
    → IsHeap h bs
    → first_fit 1 bs ≡ none
    → h.heaptop + 8 < 2 ^ 32
    → sbrk 8 ≡ some h.heaptop
    → (h' : UserHeap) × (malloc sbrk 0 h ≡ done (some (h.heaptop + 8), h'))
      × (free (h.heaptop + 8) h' ≡ panic)
free-malloc_zero sbrk h bs heap full small given =
    let (result, h', bs', run, heap', answers) = malloc_lem sbrk 0 h bs heap small (inr given) in
    (h', read result h' bs' run answers, dies result h' bs' heap' answers)
  where
    read :
        (result : Option ℕ) (h' : UserHeap) (bs' : List Block)
        → malloc sbrk 0 h ≡ done (result, h')
        → Answers (sbrk 8) 1 h.heapbase bs bs' result h.heaptop h'.heaptop
        → malloc sbrk 0 h ≡ done (some (h.heaptop + 8), h')
    read result h' bs' run (inl (a, at, fit, served)) = absurd ground (arith, full, fit)
    read result h' bs' run (inr (inl (none_fits, refused, none_given, same))) =
        ground (arith, given, refused)
    read result h' bs' run (inr (inr (none_fits, at, same, top, stands, kept))) =
        run ∙ ap (λ r. done (r, h')) at

    dies :
        (result : Option ℕ) (h' : UserHeap) (bs' : List Block)
        → IsHeap h' bs'
        → Answers (sbrk 8) 1 h.heapbase bs bs' result h.heaptop h'.heaptop
        → free (h.heaptop + 8) h' ≡ panic
    dies result h' bs' heap' (inl (a, at, fit, served)) = absurd ground (arith, full, fit)
    dies result h' bs' heap' (inr (inl (none_fits, refused, none_given, same))) =
        ground (arith, given, refused)
    dies result h' bs' heap' (inr (inr (none_fits, at, same, top, stands, kept))) =
        ap (λ a. free a h') (sym top)
        ∙ free-top h' heap'.based
            (omega (arith, Chain-le h'.header h'.heaptop 0 h'.heapbase bs' heap'.chain))
