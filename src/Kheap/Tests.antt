-- ===== src/Kheap/Tests.antt =====
-- kern/lib/kheap.c at concrete inputs.
use ece344_operating_systems.Base.{
  ℕ, ◌/◌, ◌%◌, ◌<◌, ◌≡◌, ◌⊎◌, refl, ap, sym, ◌∙◌, inr, true, false, ◌&&◌, Option, none, some, List,
  [], ◌∷◌, member, arith, ◌==◌, if◌then◌else◌, done,
}
use ece344_operating_systems.Kheap.{
  size, Heap, set_inuse, allocpageref, find_free, doalloc, new_page, blocktype, subpage_kmalloc,
  subpage_kfree, kmalloc, blocktype_from, scan_words, scan_bits, all_inuse, link_blocks,
}
use ece344_operating_systems.Kheap.Page.{IsPage}
use ece344_operating_systems.Kheap.Table.{allocpageref_lem}
use ece344_operating_systems.Kheap.Invariant.{of_type, Valid, IsUsed, block_at}
use ece344_operating_systems.Kheap.Update.{IsGranted}
use ece344_operating_systems.Kheap.Alloc.{IsAllocation}
use ece344_operating_systems.Kheap.Kmalloc.{subpage_kmalloc_lem}
use ece344_operating_systems.Kheap.Kfree.{IsFreeing, subpage_kfree_lem}
use ece344_operating_systems.Kheap.Roundtrip.{IsReturned, kfree-kmalloc}

-- One page of two blocks of 2048 bytes, of which the first is in use.
abbrev half_used : Heap
half_used = record {
  pagerefs = λ q. record { pageaddr_and_blocktype = 0x80001007; freelist_offset = 2048; nfree = 1 };
  inuse = λ i j. i == 0 && j == 0;
  sizebases = λ t. if t == 7 then 0 ∷ [] else [];
  allbase = 0 ∷ [];
  next = λ a. 0;
}

abbrev one_free : ℕ → List ℕ
one_free i = 1 ∷ []

abbrev granted : ℕ → ℕ
granted npages = 0x80002000

only_page : (i : ℕ) → member i (0 ∷ []) ≡ true → i ≡ 0
only_page i m = ground (arith, m)

half_used-IsPage :
    IsPage
      (λ a. 0)
      (record { pageaddr_and_blocktype = 0x80001007; freelist_offset = 2048; nfree = 1 })
      (1 ∷ [])
unfolding size
half_used-IsPage = record {
  typed = omega arith;
  placed = omega arith;
  inside = omega arith;
  linked = (refl, omega arith, refl);
  counted = refl;
  few = omega arith;
  distinct = (refl, tt);
}

half_used-Valid : Valid half_used one_free
half_used-Valid = record {
  pages = λ i m. half_used-IsPage;
  apart = λ i j m m' ne. absurd (ne (only_page i m ∙ sym (only_page j m')));
  sized = λ t. sized t;
  known = λ i m.
      (omega (arith, only_page i m), ap (λ x. (x / 32 == 0) && (x % 32 == 0)) (only_page i m));
  once = (refl, tt);
}
  where
    sized : (t : ℕ) → half_used.sizebases t ≡ of_type half_used.pagerefs t (0 ∷ [])
    sized t = ground arith

granted-IsGranted : IsGranted half_used (granted 1)
granted-IsGranted = record {
  aligned = refl;
  positive = omega arith;
  inside = omega arith;
  new = λ i m e. omega (arith, e);
}

first-IsUsed : IsUsed half_used one_free 0 0
unfolding size
first-IsUsed = record { listed = refl; below = omega arith; taken = refl }

subpage_kmalloc_lem_example :
    (h' : Heap) × (free' : ℕ → List ℕ) × (result : Option ℕ) × (subpage_kmalloc
        (granted 1)
        20
        half_used
      ≡ done (result, h'))
    × IsAllocation (granted 1) 20 half_used one_free h' free' result
subpage_kmalloc_lem_example =
    subpage_kmalloc_lem (granted 1) 20 half_used one_free half_used-Valid (omega arith)
      (inr granted-IsGranted)

subpage_kfree_lem_example :
    (h' : Heap) × (free' : ℕ → List ℕ) × (result : Option ℕ) × (subpage_kfree
        (block_at half_used 0 0)
        half_used
      ≡ done (true, result, h'))
    × IsFreeing 0 0 half_used one_free h' free' result
subpage_kfree_lem_example = subpage_kfree_lem 0 0 half_used one_free half_used-Valid first-IsUsed

allocpageref_lem_example :
    ((allocpageref half_used ≡ done (none, half_used))
      × ((p : ℕ) → p < 256 → half_used.inuse (p / 32) (p % 32) ≡ true))
    ⊎ ((p : ℕ) × (p < 256)
        × (half_used.inuse (p / 32) (p % 32) ≡ false)
        × (allocpageref half_used ≡ done (some p, set_inuse (p / 32) (p % 32) true half_used)))
allocpageref_lem_example = allocpageref_lem half_used

-- The second block is handed out for 2000 bytes.
second_given : (h' : Heap) × (kmalloc granted 2000 half_used ≡ done (some 0x80001800, h'))
unfolding kmalloc subpage_kmalloc blocktype blocktype_from size find_free doalloc
second_given = (_, refl)

kfree-kmalloc_example : IsReturned 0x80001800 half_used one_free second_given.0
kfree-kmalloc_example =
    kfree-kmalloc granted 2000 0x80001800 half_used second_given.0 one_free half_used-Valid
      (omega arith) (inr granted-IsGranted) second_given.1

-- 20 bytes take the last block of the fresh page, of which there are 128.
fresh_given : (h' : Heap) × (kmalloc granted 20 half_used ≡ done (some 0x80002fe0, h'))
unfolding kmalloc subpage_kmalloc blocktype blocktype_from size find_free doalloc allocpageref
    scan_words all_inuse scan_bits new_page link_blocks
fresh_given = (_, refl)
