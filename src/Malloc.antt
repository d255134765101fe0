-- ===== src/Malloc.antt =====
-- lib/libc/malloc.c on a 32-bit platform: the heap of a user program. `header a` is what the eight bytes
-- from the address `a` say when they are read as a struct mheader; mh_pad, which is never read, is left
-- out. A call of errx ends the program and is the outcome panic. `sbrk` says what sbrk returns for
-- an increment during a call, none for -1. The dumps under MALLOCDEBUG are not compiled.
pub mod Blocks
pub mod Search
pub mod Fit
pub mod Alloc
pub mod Merge
pub mod Free
pub mod Freed
pub mod Zero
mod Tests
use ece344_operating_systems.Base.{
  ℕ, zero, suc, ◌+◌, ◌-◌, ◌*◌, ◌/◌, ◌%◌, ◌^◌, Bool, true, false, ◌&&◌, ◌||◌, not, Option, none,
  some, ltb, leb, ◌==◌, if◌then◌else◌, Run, done, panic, spin, ◌>>=◌, ◌>>◌, require,
}

abbrev pub mblocksize : ℕ
mblocksize = 8

abbrev pub mmagic : ℕ
mmagic = 2

pub record Mheader : Type 0 where
  pub prevblock : ℕ
  pub magic1 : ℕ
  pub nextblock : ℕ
  pub inuse : Bool
  pub magic2 : ℕ

pub record UserHeap : Type 0 where
  pub header : ℕ → Mheader
  pub heapbase : ℕ
  pub heaptop : ℕ

abbrev pub set_header : ℕ → Mheader → UserHeap → UserHeap
set_header a mh h = record h { header = λ b. if b == a then mh else h.header b }

-- M_NEXTOFF, M_SIZE, M_OK and M_MKFIELD
abbrev pub m_nextoff : Mheader → ℕ
m_nextoff mh = mh.nextblock * 8

abbrev pub m_size : Mheader → ℕ
m_size mh = (mh.nextblock * 8 + 2 ^ 32 - mblocksize) % 2 ^ 32

abbrev pub m_ok : Mheader → Bool
m_ok mh = mh.magic1 == mmagic && mh.magic2 == mmagic

abbrev pub m_mkfield : ℕ → ℕ
m_mkfield off = off / 8

unfoldable pub malloc_init : (ℕ → Option ℕ) → UserHeap → Run UserHeap
malloc_init sbrk h =
    let started : ℕ → Run UserHeap = λ x.
      let adjust = mblocksize - x % mblocksize in
      let aligned : Run UserHeap = elim (sbrk adjust) [
        | none ↦ panic
        | some y ↦ do
          require (y == x)
          done (record h { heapbase = x + adjust; heaptop = x + adjust })
      ] in
      do
        require (not (x == 0))
        if x % mblocksize == 0 then done (record h { heapbase = x; heaptop = x }) else aligned
    in do
      require (h.heapbase == 0 && h.heaptop == 0)
      elim (sbrk 0) [ none ↦ panic | some x ↦ started x ]

unfoldable pub malloc_split : ℕ → ℕ → UserHeap → Run UserHeap
malloc_split mh size h =
    let m = h.header mh in
    let oldsize = m_size m in
    let mhnext = mh + m_nextoff m in
    let mhnew = mh + m_mkfield (size + mblocksize) * 8 in
    let h₁ = set_header mh (record m { nextblock = m_mkfield (size + mblocksize) }) h in
    let rest : Mheader = record {
      prevblock = m_mkfield (size + mblocksize);
      magic1 = mmagic;
      nextblock = m_mkfield (oldsize - size);
      inuse = false;
      magic2 = mmagic;
    } in
    let h₂ = set_header mhnew rest h₁ in
    let cut : Run UserHeap = do
      require (not (mhnew == mhnext))
      if mhnext == h.heaptop
          then done h₂
          else done (
              set_header mhnext
                (record (h₂.header mhnext) { prevblock = m_mkfield (oldsize - size) }) h₂)
    in do
      require (size % mblocksize == 0)
      if ltb ((oldsize + 2 ^ 32 - size) % 2 ^ 32) (2 * mblocksize) then done h else cut

-- The first-fit loop from the header at `i`: the header that was taken, and rightprevblock.
unfoldable pub search : ℕ → ℕ → ℕ → ℕ → UserHeap → Run (Option ℕ × ℕ × UserHeap)
search zero i rightprevblock size h = spin
search (suc fuel) i rightprevblock size h =
    let m = h.header i in
    let next = search fuel (i + m_nextoff m) m.nextblock size h in
    let taken : Run (Option ℕ × ℕ × UserHeap) = do
      h₁ ← malloc_split i size h
      done (some i, m.nextblock, set_header i (record (h₁.header i) { inuse = true }) h₁)
    in let visit : Run (Option ℕ × ℕ × UserHeap) = do
      require (m_ok m)
      require (m.prevblock == rightprevblock)
      if m.inuse then next else if ltb (m_size m) size then next else taken
      in let ended : Run (Option ℕ × ℕ × UserHeap) = do
        require (i == h.heaptop)
        done (none, rightprevblock, h)
        in if ltb i h.heaptop then visit else ended

-- `(size + MBLOCKSIZE - 1) & ~(size_t)(MBLOCKSIZE-1)`
abbrev pub round_up : ℕ → ℕ
round_up size = (size + 7) % 2 ^ 32 - (size + 7) % 2 ^ 32 % 8

-- From __malloc_sbrk on.
unfoldable pub expand : (ℕ → Option ℕ) → ℕ → ℕ → UserHeap → Run (Option ℕ × UserHeap)
expand sbrk rightprevblock size h =
    let more = (size + mblocksize) % 2 ^ 32 in
    let added : Mheader = record {
      prevblock = rightprevblock;
      magic1 = mmagic;
      nextblock = m_mkfield more;
      inuse = true;
      magic2 = mmagic;
    } in
    elim (sbrk more) [
      | none ↦ done (none, h)
      | some x ↦ do
        require (x == h.heaptop)
        done (
          some (x + mblocksize),
          set_header x added (record h { heaptop = (h.heaptop + more) % 2 ^ 32 }),
        )
    ]

unfoldable pub malloc : (ℕ → Option ℕ) → ℕ → UserHeap → Run (Option ℕ × UserHeap)
malloc sbrk size h = do
  h₀ ← if h.heapbase == 0 then malloc_init sbrk h else done h
  require (not (h₀.heapbase == 0) && (not (h₀.heaptop == 0) && leb h₀.heapbase h₀.heaptop))
  (found, rightprevblock, h₁) ←
      search (h₀.heaptop - h₀.heapbase + 1) h₀.heapbase 0 (round_up size) h₀
  elim found [
    | none ↦ expand sbrk rightprevblock (round_up size) h₁
    | some mh ↦ done (some (mh + mblocksize), h₁)
  ]

-- Two words of 0xdeadbeef, read as a header.
abbrev pub dead_header : Mheader
dead_header = record {
  prevblock = 0xdeadbeef / 8;
  magic1 = 3;
  nextblock = 0xdeadbeef / 8;
  inuse = true;
  magic2 = 3;
}

abbrev pub malloc_deadbeef : ℕ → ℕ → UserHeap → UserHeap
malloc_deadbeef ptr size h = record h {
  header = λ a. if leb ptr a && ltb a (ptr + size) then dead_header else h.header a;
}

unfoldable pub malloc_trymerge : ℕ → ℕ → UserHeap → Run UserHeap
malloc_trymerge mh mhnext h =
    let m = h.header mh in
    let mn = h.header mhnext in
    let mhnextnext = mhnext + m_nextoff mn in
    let both = m_mkfield ((mblocksize + m_size m + mblocksize + m_size mn) % 2 ^ 32) in
    let h₁ = set_header mh (record m { nextblock = both }) h in
    let h₂ =
      if mhnextnext == h.heaptop
      then h₁
      else set_header mhnextnext (record (h₁.header mhnextnext) { prevblock = both }) h₁ in
    do
      require (m.nextblock == mn.prevblock)
      if m.inuse || mn.inuse then done h else done (malloc_deadbeef mhnext mblocksize h₂)

-- From `mh->mh_inuse = 0` on.
unfoldable pub release : ℕ → UserHeap → Run UserHeap
release mh h = do
  let m = h.header mh
  let h₁ = set_header mh (record m { inuse = false }) h
  let h₂ = malloc_deadbeef (mh + mblocksize) (m_size m) h₁
  let mhnext = mh + m_nextoff m
  h₃ ← if mhnext == h.heaptop then done h₂ else malloc_trymerge mh mhnext h₂
  let mhprev = mh - (h₃.header mh).prevblock * 8
  if mh == h.heapbase then done h₃ else malloc_trymerge mhprev mh h₃

unfoldable pub free : ℕ → UserHeap → Run UserHeap
free x h =
    let mh = x - mblocksize in
    let work : Run UserHeap = do
      require (not (h.heapbase == 0) && (not (h.heaptop == 0) && leb h.heapbase h.heaptop))
      require (leb h.heapbase x && ltb x h.heaptop)
      require (m_ok (h.header mh))
      require (h.header mh).inuse
      release mh h
    in if x == 0 then done h else work
