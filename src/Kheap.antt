-- ===== src/Kheap.antt =====
-- kern/lib/kheap.c: the kernel heap. A `struct pageref` is its index in the table, so that the two
-- lists of pagerefs, which are reached from their bases alone, are lists of indices. `next` is the
-- word that stands at an address, where a free block keeps the pointer to the next one; 0 is NULL.
-- What alloc_kpages gives is an argument, 0 for no memory, and the pages that go to free_kpages are
-- a result. The interrupts are off throughout, and the checks under SLOW are not compiled.
pub mod Page
pub mod Push
pub mod Fresh
pub mod Table
pub mod Invariant
pub mod Update
pub mod Alloc
pub mod Kmalloc
pub mod Free
pub mod Count
pub mod Kfree
pub mod Roundtrip
mod Tests
use ece344_operating_systems.Base.{
  ℕ, zero, suc, ◌+◌, ◌-◌, ◌*◌, ◌/◌, ◌%◌, ◌^◌, Bool, true, false, ◌&&◌, not, Option, none, some,
  List, [], ◌∷◌, get_or, ltb, leb, ◌==◌, if◌then◌else◌, Run, done, panic, ◌>>=◌, ◌>>◌, require,
}

abbrev pub page_size : ℕ
page_size = 4096

abbrev pub npagerefs : ℕ
npagerefs = 256

abbrev pub invalid_offset : ℕ
invalid_offset = 0xffff

-- `sizes[blktype]`
unfoldable pub size : ℕ → ℕ
size blktype = get_or (16 ∷ 32 ∷ 64 ∷ 128 ∷ 256 ∷ 512 ∷ 1024 ∷ 2048 ∷ []) blktype 0

pub record Pageref : Type 0 where
  pub pageaddr_and_blocktype : ℕ
  pub freelist_offset : ℕ
  pub nfree : ℕ

-- PR_PAGEADDR, PR_BLOCKTYPE and MKPAB: PAGE_FRAME is the mask of all bits but the lowest twelve.
abbrev pub page_addr : Pageref → ℕ
page_addr pr = pr.pageaddr_and_blocktype - pr.pageaddr_and_blocktype % page_size

abbrev pub block_type : Pageref → ℕ
block_type pr = pr.pageaddr_and_blocktype % page_size

abbrev pub mkpab : ℕ → ℕ → ℕ
mkpab pa blk = (pa - pa % page_size) + blk % page_size

-- `inuse i j` is bit `j` of pagerefs_inuse[i].
pub record Heap : Type 0 where
  pub pagerefs : ℕ → Pageref
  pub inuse : ℕ → ℕ → Bool
  pub sizebases : ℕ → List ℕ
  pub allbase : List ℕ
  pub next : ℕ → ℕ

abbrev pub set_pageref : ℕ → Pageref → Heap → Heap
set_pageref p pr h = record h { pagerefs = λ q. if q == p then pr else h.pagerefs q }

abbrev pub set_inuse : ℕ → ℕ → Bool → Heap → Heap
set_inuse i j b h = record h { inuse = λ a c. if a == i && c == j then b else h.inuse a c }

-- `*(void **)addr = value`
abbrev pub set_next : (ℕ → ℕ) → ℕ → ℕ → ℕ → ℕ
set_next next addr value a = if a == addr then value else next a

-- The inner loop of allocpageref, and assert(0) behind it.
unfoldable pub scan_bits : ℕ → ℕ → ℕ → Heap → Run (Option ℕ × Heap)
scan_bits zero j i h = panic
scan_bits (suc rounds) j i h =
    let later = scan_bits rounds (j + 1) i h in
    if h.inuse i j then later else done (some (i * 32 + j), set_inuse i j true h)

-- `pagerefs_inuse[i] == 0xffffffff`, by the lowest `n` bits.
unfoldable pub all_inuse : ℕ → ℕ → Heap → Bool
all_inuse zero i h = true
all_inuse (suc n) i h = h.inuse i n && all_inuse n i h

unfoldable pub scan_words : ℕ → ℕ → Heap → Run (Option ℕ × Heap)
scan_words zero i h = done (none, h)
scan_words (suc rounds) i h =
    let later = scan_words rounds (i + 1) h in
    if all_inuse 32 i h then later else scan_bits 32 0 i h

unfoldable pub allocpageref : Heap → Run (Option ℕ × Heap)
allocpageref h = scan_words (npagerefs / 32) 0 h

unfoldable pub freepageref : ℕ → Heap → Run Heap
freepageref p h = do
  require (ltb p npagerefs)
  require (h.inuse (p / 32) (p % 32))
  done (set_inuse (p / 32) (p % 32) false h)

-- The loop of remove_lists over one list.
unfoldable pub unlink : ℕ → List ℕ → List ℕ
unlink p [] = []
unlink p (q ∷ rest) = if q == p then rest else q ∷ unlink p rest

unfoldable pub remove_lists : ℕ → ℕ → Heap → Run Heap
remove_lists p blktype h = do
  require (ltb blktype 8)
  done (record h {
    sizebases = λ t. if t == blktype then unlink p (h.sizebases t) else h.sizebases t;
    allbase = unlink p h.allbase;
  })

-- The loop of blocktype over what is left of `sizes`.
unfoldable pub blocktype_from : ℕ → ℕ → ℕ → Run ℕ
blocktype_from zero i sz = panic
blocktype_from (suc rounds) i sz =
    if leb sz (size i) then done i else blocktype_from rounds (i + 1) sz

unfoldable pub blocktype : ℕ → Run ℕ
blocktype sz = blocktype_from 8 0 sz

-- From the label doalloc on: the first free block of page `p`.
unfoldable pub doalloc : ℕ → Heap → Run (Option ℕ × Heap)
doalloc p h =
    let pr = h.pagerefs p in
    let prpage = page_addr pr in
    let fla = prpage + pr.freelist_offset in
    let fl = h.next fla in
    let nfree = (pr.nfree + 65535) % 65536 in
    let more : Run (Option ℕ × Heap) = do
      require (ltb 0 nfree)
      require (ltb ((fl + 2 ^ 32 - prpage) % 2 ^ 32) page_size)
      done (
        some fla,
        set_pageref p
            (record pr { freelist_offset = (fl + 2 ^ 32 - prpage) % 2 ^ 32; nfree = nfree }) h,
      )
    in let last : Run (Option ℕ × Heap) = do
      require (nfree == 0)
      done (
        some fla,
        set_pageref p (record pr { freelist_offset = invalid_offset; nfree = nfree }) h,
      )
      in do require (ltb pr.freelist_offset page_size); if fl == 0 then last else more

-- The loop over the pages of the size: the first that has a free block.
unfoldable pub find_free : ℕ → List ℕ → Heap → Run (Option ℕ)
find_free blktype [] h = done none
find_free blktype (p ∷ rest) h = do
  require (block_type (h.pagerefs p) == blktype)
  if ltb 0 (h.pagerefs p).nfree then done (some p) else find_free blktype rest h

-- `for (i=1; i<pr->nfree; i++)` with `rounds` to go
unfoldable pub link_blocks : ℕ → ℕ → ℕ → ℕ → (ℕ → ℕ) → Run (ℕ → ℕ)
link_blocks zero i s page next = done next
link_blocks (suc rounds) i s page next = do
  require (not (page + i * s == page + (i - 1) * s))
  link_blocks rounds (i + 1) s page (set_next next (page + i * s) (page + (i - 1) * s))

-- A page whose blocks are all free, in front of both lists.
unfoldable pub new_page : ℕ → ℕ → ℕ → Heap → Run Heap
new_page p prpage blktype h = do
  let s = size blktype
  let n = page_size / s
  next ← link_blocks (n - 1) 1 s prpage (set_next h.next prpage 0)
  let pr : Pageref = record {
    pageaddr_and_blocktype = mkpab prpage blktype;
    freelist_offset = (n - 1) * s;
    nfree = n;
  }
  let placed : Heap = set_pageref p pr h
  done (record placed {
    next = next;
    sizebases = λ t. if t == blktype then p ∷ h.sizebases t else h.sizebases t;
    allbase = p ∷ h.allbase;
  })

-- `prpage` is what alloc_kpages(1) gives.
unfoldable pub subpage_kmalloc : ℕ → ℕ → Heap → Run (Option ℕ × Heap)
subpage_kmalloc prpage sz h = do
  blktype ← blocktype sz
  found ← find_free blktype (h.sizebases blktype) h
  let made : Run (Option ℕ × Heap) = do
    (fresh, h₁) ← allocpageref h
    elim fresh [
      | none ↦ done (none, h₁)
      | some p ↦
          if prpage == 0
          then (do h₂ ← freepageref p h₁; done (none, h₂))
          else (do h₂ ← new_page p prpage blktype h₁; doalloc p h₂)
    ]
  elim found [ none ↦ made | some p ↦ doalloc p h ]

-- The loop over all pages: the one that the address lies in.
unfoldable pub find_page : ℕ → List ℕ → Heap → Run (Option ℕ)
find_page ptr [] h = done none
find_page ptr (p ∷ rest) h = do
  let pr = h.pagerefs p
  require (ltb (block_type pr) 8)
  if leb (page_addr pr) ptr && ltb ptr ((page_addr pr + page_size) % 2 ^ 32)
      then done (some p)
      else find_page ptr rest h

-- fill_deadbeef over the words of a block of `len` bytes.
abbrev pub fill_deadbeef : ℕ → ℕ → (ℕ → ℕ) → ℕ → ℕ
fill_deadbeef ptr len next a =
    if (leb ptr a && ltb a (ptr + len)) && ((a - ptr) % 4 == 0) then 0xdeadbeef else next a

-- What is done in the page `p`: the page that goes to free_kpages, and the heap.
unfoldable pub free_in : ℕ → ℕ → Heap → Run (Option ℕ × Heap)
free_in ptr p h = do
  let pr = h.pagerefs p
  let prpage = page_addr pr
  let s = size (block_type pr)
  let offset = ptr - prpage
  require (ltb offset page_size && (offset % s == 0))
  let head = if pr.freelist_offset == invalid_offset then 0 else prpage + pr.freelist_offset
  let pr' : Pageref = record pr { freelist_offset = offset; nfree = (pr.nfree + 1) % 65536 }
  let pushed : Heap = set_pageref p pr' h
  let h₁ : Heap = record pushed { next = set_next (fill_deadbeef ptr s h.next) ptr head }
  require (leb pr'.nfree (page_size / s))
  let whole : Run (Option ℕ × Heap) = do
    h₂ ← remove_lists p (block_type pr) h₁
    h₃ ← freepageref p h₂
    done (some prpage, h₃)
  if pr'.nfree == page_size / s then whole else done (none, h₁)

-- Whether the address was one of ours (the code 0, and -1 if not), and the rest as above.
unfoldable pub subpage_kfree : ℕ → Heap → Run (Bool × Option ℕ × Heap)
subpage_kfree ptr h = do
  found ← find_page ptr h.allbase h
  elim found [
    | none ↦ done (false, none, h)
    | some p ↦ do (freed, h') ← free_in ptr p h; done (true, freed, h')
  ]

-- `grant` says what alloc_kpages gives for a number of pages.
unfoldable pub kmalloc : (ℕ → ℕ) → ℕ → Heap → Run (Option ℕ × Heap)
kmalloc grant sz h =
    let address = grant ((sz + page_size - 1) % 2 ^ 32 / page_size) in
    if leb 2048 sz
    then done (if address == 0 then none else some address, h)
    else subpage_kmalloc (grant 1) sz h

-- The pages that go to free_kpages.
unfoldable pub kfree : ℕ → Heap → Run (Option ℕ × Heap)
kfree ptr h =
    let freed : Run (Option ℕ × Heap) = do
      (ours, page, h') ← subpage_kfree ptr h
      let big : Run (Option ℕ × Heap) = do require (ptr % page_size == 0); done (some ptr, h')
      if ours then done (page, h') else big
    in if ptr == 0 then done (none, h) else freed
