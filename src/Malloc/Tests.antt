-- ===== src/Malloc/Tests.antt =====
-- lib/libc/malloc.c at concrete inputs.
use ece344_operating_systems.Base.{
  ℕ, ◌+◌, ◌*◌, ◌≡◌, ◌≢◌, refl, inl, inr, true, false, Option, none, some, List, [], ◌∷◌, arith,
  ◌==◌, if◌then◌else◌, done, panic,
}
use ece344_operating_systems.Malloc.{UserHeap, dead_header, malloc, search, expand, free}
use ece344_operating_systems.Malloc.Blocks.{Block, header_of, IsHeap, first_fit, Stands}
use ece344_operating_systems.Malloc.Alloc.{Answers, units_for, malloc_lem}
use ece344_operating_systems.Malloc.Free.{freed, address}
use ece344_operating_systems.Malloc.Freed.{free_lem}
use ece344_operating_systems.Malloc.Zero.{free-malloc_zero}

-- A heap from 0x1000 on: 2 units in use, 10 units free, and 3 units in use.
abbrev front : Block
front = record { units = 2; used = true }

abbrev middle : Block
middle = record { units = 10; used = false }

abbrev back : Block
back = record { units = 3; used = true }

abbrev sample : UserHeap
sample = record {
  header = λ a.
      if a == 0x1000
      then header_of 0 front
      else if a == 0x1010
      then header_of 2 middle
      else if a == 0x1060
      then header_of 10 back
      else dead_header;
  heapbase = 0x1000;
  heaptop = 0x1078;
}

abbrev blocks : List Block
blocks = front ∷ middle ∷ back ∷ []

sample-IsHeap : IsHeap sample blocks
sample-IsHeap = record {
  based = omega arith;
  small = omega arith;
  chain = (refl, omega arith, (refl, omega arith, (refl, omega arith, refl)));
  coalesced = (inl refl, (inr refl, tt));
}

abbrev grows : ℕ → Option ℕ
grows n = some 0x1078

-- 20 bytes are taken from the free block.
malloc_lem_example :
    (result : Option ℕ) × (h' : UserHeap) × (bs' : List Block) × (malloc grows 20 sample
      ≡ done (result, h'))
    × IsHeap h' bs'
    × Answers
        (grows (units_for 20 * 8))
        (units_for 20)
        sample.heapbase
        blocks
        bs'
        result
        sample.heaptop
        h'.heaptop
malloc_lem_example = malloc_lem grows 20 sample blocks sample-IsHeap (omega arith) (inr refl)

-- The last block is freed, and is one with the free block in front of it.
free_lem_example :
    (h' : UserHeap) × (free (address sample.heapbase blocks 2 + 8) sample ≡ done h')
    × IsHeap h' (freed 2 blocks)
    × ((a : ℕ) (d : Block)
        → d.used ≡ true
        → a ≢ address sample.heapbase blocks 2
        → Stands sample.heapbase blocks a d
        → Stands h'.heapbase (freed 2 blocks) a d)
free_lem_example = free_lem 2 blocks back sample sample-IsHeap refl refl (omega arith)

-- A heap that is all in use.
abbrev full_heap : UserHeap
full_heap = record {
  header = λ a. if a == 0x1000 then header_of 0 front else dead_header;
  heapbase = 0x1000;
  heaptop = 0x1010;
}

full_heap-IsHeap : IsHeap full_heap (front ∷ [])
full_heap-IsHeap = record {
  based = omega arith;
  small = omega arith;
  chain = (refl, omega arith, refl);
  coalesced = tt;
}

abbrev grows_full : ℕ → Option ℕ
grows_full n = some 0x1010

full_heap-full : first_fit 1 (front ∷ []) ≡ none
unfolding first_fit
full_heap-full = refl

free-malloc_zero_example :
    (h' : UserHeap) × (malloc grows_full 0 full_heap ≡ done (some (full_heap.heaptop + 8), h'))
    × (free (full_heap.heaptop + 8) h' ≡ panic)
free-malloc_zero_example =
    free-malloc_zero grows_full full_heap (front ∷ []) full_heap-IsHeap full_heap-full (omega arith)
      refl

-- A size that wraps around is taken for 0 bytes.
wraps : (h' : UserHeap) × (malloc grows_full 0xfffffffc full_heap ≡ done (some 0x1018, h'))
unfolding malloc search expand
wraps = (_, refl)
