-- ===== src/Kheap/Fresh.antt =====
-- kern/lib/kheap.c: a fresh page, all of whose blocks are put on its free list.
use ece344_operating_systems.Base.{
  ℕ, zero, suc, ◌+◌, ◌-◌, ◌*◌, ◌%◌, ◌^◌, ◌≤◌, ◌<◌, ◌≡◌, ◌⊎◌, refl, ap, sym, ◌∙◌, inl, inr, true,
  List, [], ◌∷◌, length, member, Distinct, arith, ltb, ltb→lt, ◌==◌, if◌then◌else◌, done, subst,
  ◌>>=◌,
}
use ece344_operating_systems.Kheap.{
  size, Pageref, page_addr, block_type, mkpab, Heap, set_next, link_blocks, new_page,
}
use ece344_operating_systems.Kheap.Page.{
  blocks, size-Cut, block-le, block-apart, Linked, head, IsPage,
}
use ece344_operating_systems.Kheap.Push.{Linked-cong}

-- The numbers below `n`, the greatest first.
abbrev pub down : ℕ → List ℕ
down zero = []
down (suc n) = n ∷ down n

length-down : (n : ℕ) → length (down n) ≡ n
length-down zero = refl
length-down (suc n) = ap suc (length-down n)

member-down : (k n : ℕ) → member k (down n) ≡ ltb k n
member-down k zero = ground arith
member-down k (suc n) = ground (arith, member-down k n)

Distinct-down : (n : ℕ) → Distinct (down n)
Distinct-down zero = tt
Distinct-down (suc n) = (ground (arith, member-down n n), Distinct-down n)

-- The block `suc m` is written: those below it keep their pointers, and so does what is not a block.
set_next-below :
    (next : ℕ → ℕ) (page s m l v : ℕ)
    → member l (down (suc m)) ≡ true
    → 0 < s
    → set_next next (page + suc m * s) v (page + l * s) ≡ next (page + l * s)
set_next-below next page s m l v mem pos =
    let below : l < suc m = ltb→lt l (suc m) (sym (member-down l (suc m)) ∙ mem) in
    let apart : l * s + s ≤ suc m * s = block-apart s l (suc m) below in ground (arith, apart, pos)

set_next-outside :
    (next : ℕ → ℕ) (page s n k v a : ℕ)
    → k < n
    → 0 < s
    → (a < page) ⊎ (page + n * s ≤ a)
    → set_next next (page + k * s) v a ≡ next a
set_next-outside next page s n k v a l pos (inl h) = ground arith
set_next-outside next page s n k v a l pos (inr h) =
    let apart : k * s + s ≤ n * s = block-apart s k n l in ground (arith, apart, pos, h)

link_blocks_lem :
    (rounds m s n page : ℕ) (next : ℕ → ℕ)
    → 0 < s
    → suc m + rounds ≤ n
    → Linked next page s n (page + m * s) (down (suc m))
    → (next' : ℕ → ℕ) × (link_blocks rounds (suc m) s page next ≡ done next')
      × Linked next' page s n (page + (m + rounds) * s) (down (suc (m + rounds)))
      × ((a : ℕ) → (a < page) ⊎ (page + n * s ≤ a) → next' a ≡ next a)
unfolding link_blocks
link_blocks_lem zero m s n page next pos fit h =
    let e : m ≡ m + 0 = omega arith in
    (next, refl, subst (λ j. Linked next page s n (page + j * s) (down (suc j))) e h, λ a out. refl)
link_blocks_lem (suc rounds) m s n page next pos fit h =
    let v = page + m * s in
    let at = page + suc m * s in
    let back : (suc m - 1) * s ≡ m * s = ap (λ j. j * s) (omega arith) in
    let apart : m * s + s ≤ suc m * s = block-apart s m (suc m) (omega arith) in
    let next₁ = set_next next at v in
    let kept : Linked next₁ page s n v (down (suc m)) =
      Linked-cong next next₁ page s n v (down (suc m))
        (λ l mem. set_next-below next page s m l v mem pos) h in
    let here : next₁ at ≡ v = ground arith in
    let h₁ : Linked next₁ page s n at (down (suc (suc m))) = (
      refl,
      omega (arith, fit),
      subst (λ q. Linked next₁ page s n q (down (suc m))) (sym here) kept,
    ) in
    let (next', run, h', out) =
      link_blocks_lem rounds (suc m) s n page next₁ pos (omega (arith, fit)) h₁ in
    let e : suc m + rounds ≡ m + suc rounds = omega arith in
    (
      next',
      ground (arith, back, apart, pos, run),
      subst (λ j. Linked next' page s n (page + j * s) (down (suc j))) e h',
      λ a o. out a o ∙ set_next-outside next page s n (suc m) v a (omega (arith, fit)) pos o,
    )

abbrev pub fresh_page : ℕ → ℕ → Pageref
fresh_page prpage t = record {
  pageaddr_and_blocktype = mkpab prpage t;
  freelist_offset = (blocks t - 1) * size t;
  nfree = blocks t;
}

abbrev pub added : ℕ → ℕ → ℕ → (ℕ → ℕ) → Heap → Heap
added p prpage t next h = record h {
  pagerefs = λ q. if q == p then fresh_page prpage t else h.pagerefs q;
  next = next;
  sizebases = λ u. if u == t then p ∷ h.sizebases u else h.sizebases u;
  allbase = p ∷ h.allbase;
}

pub fresh_page-addr :
    (prpage t : ℕ) → t < 8 → prpage % 4096 ≡ 0 → page_addr (fresh_page prpage t) ≡ prpage
fresh_page-addr prpage t l aligned = omega (arith, l, aligned)

pub fresh_page-type :
    (prpage t : ℕ) → t < 8 → prpage % 4096 ≡ 0 → block_type (fresh_page prpage t) ≡ t
fresh_page-type prpage t l aligned = omega (arith, l, aligned)

IsPage-fresh :
    (prpage t : ℕ) (next : ℕ → ℕ)
    → t < 8
    → prpage % 4096 ≡ 0
    → 0 < prpage
    → prpage + 4096 < 2 ^ 32
    → Linked next prpage (size t) (blocks t) (prpage + (blocks t - 1) * size t) (down (blocks t))
    → IsPage next (fresh_page prpage t) (down (blocks t))
IsPage-fresh prpage t next l aligned pos inside h =
    let pr = fresh_page prpage t in
    let ea : page_addr pr ≡ prpage = fresh_page-addr prpage t l aligned in
    let et : block_type pr ≡ t = fresh_page-type prpage t l aligned in
    let c = size-Cut t l in
    let few : blocks t - 1 < blocks t = omega (arith, c.some_blocks) in
    let fit : (blocks t - 1) * size t + size t ≤ 4096 = block-le c (blocks t - 1) few in
    let at : head pr ≡ prpage + (blocks t - 1) * size t = ground (arith, ea, fit) in
    record {
      typed = omega (arith, et, l);
      placed = omega (arith, ea, pos);
      inside = omega (arith, ea, inside);
      linked =
          subst
            (λ q.
              Linked next (page_addr pr) (size (block_type pr)) (blocks (block_type pr)) q
                (down (blocks t)))
            (sym at)
            (subst
              (λ u.
                Linked next (page_addr pr) (size u) (blocks u) (prpage + (blocks t - 1) * size t)
                  (down (blocks t)))
              (sym et)
              (subst
                (λ a.
                  Linked next a (size t) (blocks t) (prpage + (blocks t - 1) * size t)
                    (down (blocks t)))
                (sym ea) h));
      counted = sym (length-down (blocks t));
      few =
          subst (λ u. length (down (blocks t)) ≤ blocks u) (sym et)
            (omega (arith, length-down (blocks t)));
      distinct = Distinct-down (blocks t);
    }

pub new_page_lem :
    (p prpage t : ℕ) (h : Heap)
    → t < 8
    → prpage % 4096 ≡ 0
    → 0 < prpage
    → prpage + 4096 < 2 ^ 32
    → (next' : ℕ → ℕ) × (new_page p prpage t h ≡ done (added p prpage t next' h))
      × IsPage next' (fresh_page prpage t) (down (blocks t))
      × ((a : ℕ) → (a < prpage) ⊎ (prpage + 4096 ≤ a) → next' a ≡ h.next a)
unfolding new_page
new_page_lem p prpage t h l aligned pos inside =
    let c = size-Cut t l in
    let s = size t in
    let n = blocks t in
    let next₀ = set_next h.next prpage 0 in
    let start : Linked next₀ prpage s n (prpage + 0 * s) (down 1) =
      (refl, c.some_blocks, ground arith) in
    let (next', run, linked, out) =
      link_blocks_lem (n - 1) 0 s n prpage next₀ (omega (arith, c.least))
        (omega (arith, c.some_blocks)) start in
    let e : suc (0 + (n - 1)) ≡ n = omega (arith, c.some_blocks) in
    let e' : 0 + (n - 1) ≡ n - 1 = omega arith in
    let linked' : Linked next' prpage s n (prpage + (n - 1) * s) (down n) =
      subst (λ ks. Linked next' prpage s n (prpage + (n - 1) * s) ks) (ap down e)
        (subst (λ j. Linked next' prpage s n (prpage + j * s) (down (suc (0 + (n - 1))))) e'
          linked) in
    let whole : n * s ≡ 4096 = grind (arith, c.whole) in
    (
      next',
      ap (λ r. r >>= λ next. done (added p prpage t next h)) run,
      IsPage-fresh prpage t next' l aligned pos inside linked',
      λ a o. out a (side a o whole) ∙ start-outside a o,
    )
  where
    side :
        (a : ℕ)
        → (a < prpage) ⊎ (prpage + 4096 ≤ a)
        → blocks t * size t ≡ 4096
        → (a < prpage) ⊎ (prpage + blocks t * size t ≤ a)
    side a (inl o) whole = inl o
    side a (inr o) whole = inr (omega (arith, o, whole))

    start-outside :
        (a : ℕ) → (a < prpage) ⊎ (prpage + 4096 ≤ a) → set_next h.next prpage 0 a ≡ h.next a
    start-outside a (inl o) = ground (arith, o)
    start-outside a (inr o) = ground (arith, o)
