-- ===== src/Uio/Move.antt =====
-- kern/userprog/uio.c: uiomove on every branch.
use ece344_operating_systems.Base.{
  ℕ, zero, suc, ◌+◌, ◌-◌, ◌%◌, ◌^◌, ◌≤◌, ◌<◌, ◌≡◌, ◌≢◌, ◌⊎◌, refl, ap, ◌∙◌, inl, inr, true, false,
  ◌&&◌, Bool-cases, ltb, arith, ◌==◌, if◌then◌else◌, get_or, length, done, subst,
}
use ece344_operating_systems.Base.Errno.{efault}
use ece344_operating_systems.Copy.{User, copyout}
use ece344_operating_systems.Copy.Block.{in_user, all_of, copyout_lem}
use ece344_operating_systems.Uio.{
  Uio, Memory, uio_read, uio_userspace, buffer, move_block, advance, uiomove_loop, uiomove,
}

-- A uio whose count is that of its block, which the address space and the offset can hold.
pub record IsValid (u : Uio) : Type 0 where
  pub whole : u.len ≡ u.resid
  pub in_memory : u.base + u.len < 2 ^ 32
  pub in_file : u.offset + u.resid < 2 ^ 31
  pub in_space : u.space_ok ≡ true

abbrev pub least : ℕ → ℕ → ℕ
least a b = if ltb a b then a else b

-- The fields after `size` bytes.
abbrev pub moved : ℕ → Uio → Uio
moved size u = record u {
  base = u.base + size;
  len = u.len - size;
  offset = u.offset + size;
  resid = u.resid - size;
}

moved-IsValid : (size : ℕ) (u : Uio) → IsValid u → size ≤ u.resid → IsValid (moved size u)
moved-IsValid size u h l = record {
  whole = omega (arith, h.whole);
  in_memory = omega (arith, h.in_memory, h.whole, l);
  in_file = omega (arith, h.in_file, l);
  in_space = h.in_space;
}

advance_lem :
    (size : ℕ) (u : Uio) → IsValid u → size ≤ u.resid → advance size u ≡ done (moved size u)
unfolding advance
advance_lem size u h l =
    let b : (u.base + size) % 2 ^ 32 ≡ u.base + size = omega (arith, h.in_memory, h.whole, l) in
    let r : (u.resid + 2 ^ 32 - size) % 2 ^ 32 ≡ u.resid - size =
      omega (arith, h.in_memory, h.whole, l) in
    ground (arith, b, r, h.in_file, l)

loop_stops :
    (fuel ptr n : ℕ) (u : Uio) (m : Memory)
    → (n ≡ 0) ⊎ (u.resid ≡ 0)
    → uiomove_loop (suc fuel) ptr n u m ≡ done (0, u, m)
unfolding uiomove_loop
loop_stops fuel ptr n u m (inl z) = ground (arith, z)
loop_stops fuel ptr n u m (inr z) = ground (arith, z)

loop_turns :
    (fuel ptr n : ℕ) (u : Uio) (m : Memory) (result : ℕ) (m' : Memory)
    → IsValid u
    → 0 < n
    → 0 < u.resid
    → move_block ptr (least n u.resid) u m ≡ done (result, m')
    → uiomove_loop (suc (suc fuel)) ptr n u m
      ≡ done (if result == 0 then (0, moved (least n u.resid) u, m') else (result, u, m'))
unfolding uiomove_loop
loop_turns fuel ptr n u m result m' h some_n some_u e =
    let size = least n u.resid in
    let fits : size ≤ u.resid = ground arith in
    let same : least n u.len ≡ size = ap (least n) h.whole in
    let finished : (n - size ≡ 0) ⊎ ((moved size u).resid ≡ 0) = elim (Bool-cases (ltb n u.resid)) [
      | inl lt ↦ inl (ground (arith, lt))
      | inr ge ↦ inr (ground (arith, ge))
    ] in
    ground (
      arith,
      some_n,
      some_u,
      same,
      e,
      advance_lem size u h fits,
      loop_stops fuel (ptr + size) (n - size) (moved size u) m' finished,
    )

-- uiomove moves nothing and answers 0 where the buffer or the uio has no bytes left. Otherwise it
-- makes one move of the least of both counts, whatever that comes to: after a failure the uio is as
-- it was, and after a success the count is down and the offset up by that number of bytes.
pub uiomove_lem :
    (ptr n : ℕ) (u : Uio) (m : Memory)
    → IsValid u
    → ((n ≡ 0) ⊎ (u.resid ≡ 0) → uiomove ptr n u m ≡ done (0, u, m))
      × (0 < n
          → 0 < u.resid
          → (result : ℕ) (m' : Memory) → move_block ptr (least n u.resid) u m ≡ done (result, m')
          → (result ≡ 0 → uiomove ptr n u m ≡ done (0, moved (least n u.resid) u, m'))
            × (result ≢ 0 → uiomove ptr n u m ≡ done (result, u, m')))
unfolding uiomove
uiomove_lem ptr zero u m h = (
  λ stop. ground (arith, h.in_space, loop_stops 0 ptr 0 u m stop),
  λ some_n. absurd (omega arith),
)
uiomove_lem ptr (suc n) u m h = (
  λ stop. ground (arith, h.in_space, loop_stops (suc n) ptr (suc n) u m stop),
  λ some_n some_u result m' e. (
    λ z. ground (arith, h.in_space, loop_turns n ptr (suc n) u m result m' h some_n some_u e, z),
    λ nz. ground (arith, h.in_space, loop_turns n ptr (suc n) u m result m' h some_n some_u e, nz),
  ),
)

length-buffer : (byte : ℕ → ℕ) (ptr n : ℕ) → length (buffer byte ptr n) ≡ n
length-buffer byte ptr zero = refl
length-buffer byte ptr (suc n) = ap suc (length-buffer byte (ptr + 1) n)

get_or-buffer :
    (byte : ℕ → ℕ) (ptr n i : ℕ) → i < n → get_or (buffer byte ptr n) i 0 ≡ byte (ptr + i)
get_or-buffer byte ptr zero i l = absurd (omega arith)
get_or-buffer byte ptr (suc n) zero l = ap byte {x = ptr} {y = ptr + 0} (omega arith)
get_or-buffer byte ptr (suc n) (suc i) l =
    get_or-buffer byte (ptr + 1) n i (omega arith)
    ∙ ap byte {x = ptr + 1 + i} {y = ptr + suc i} (omega arith)

-- copyout of a kernel buffer.
copyout-buffer :
    (m : Memory) (ptr size addr : ℕ)
    → addr < 2 ^ 32
    → size < 2 ^ 32
    → m.user.badfaultfunc ≡ false
    → (u' : User) × (copyout m.user (buffer m.kernel ptr size) addr size
        ≡ done ((if in_user addr size && all_of m.user.writable addr size then 0 else efault), u'))
      × ((a : ℕ) → (a < addr) ⊎ (addr + size ≤ a) → u'.byte a ≡ m.user.byte a)
      × (in_user addr size && all_of m.user.writable addr size ≡ true
          → (i : ℕ) → i < size
          → u'.byte (addr + i) ≡ m.kernel (ptr + i))
copyout-buffer m ptr size addr ha hs off =
    let bs = buffer m.kernel ptr size in
    let len : length bs ≡ size = length-buffer m.kernel ptr size in
    let (u', e, armed, out, block) = copyout_lem m.user bs addr ha (omega (arith, len, hs)) off in
    (
      u',
      subst
          (λ l.
            copyout m.user bs addr l
            ≡ done ((if in_user addr l && all_of m.user.writable addr l then 0 else efault), u'))
          len e,
      subst (λ l. (a : ℕ) → (a < addr) ⊎ (addr + l ≤ a) → u'.byte a ≡ m.user.byte a) len out,
      λ ok i l.
          subst
            (λ l'.
              in_user addr l' && all_of m.user.writable addr l' ≡ true
              → (i : ℕ) → i < l'
              → u'.byte (addr + i) ≡ get_or bs i 0)
            len block ok i l
          ∙ get_or-buffer m.kernel ptr size i l,
    )

-- A read into user space gives the user the least of both counts of bytes from the kernel's buffer,
-- and moves the uio on by as many, exactly if all of them lie in writable user space; otherwise it
-- says EFAULT with the uio as it was. No other byte of user memory changes.
pub uiomove-userspace :
    (ptr n : ℕ) (u : Uio) (m : Memory)
    → IsValid u
    → u.segflg ≡ uio_userspace
    → u.rw ≡ uio_read
    → 0 < n
    → 0 < u.resid
    → m.user.badfaultfunc ≡ false
    → (u' : User) × (uiomove ptr n u m
        ≡ done (
            if in_user u.base (least n u.resid) && all_of m.user.writable u.base (least n u.resid)
            then (0, moved (least n u.resid) u, record m { user = u' })
            else (efault, u, record m { user = u' })))
      × ((a : ℕ) → (a < u.base) ⊎ (u.base + least n u.resid ≤ a) → u'.byte a ≡ m.user.byte a)
      × (in_user u.base (least n u.resid) && all_of m.user.writable u.base (least n u.resid) ≡ true
          → (i : ℕ) → i < least n u.resid
          → u'.byte (u.base + i) ≡ m.kernel (ptr + i))
unfolding move_block
uiomove-userspace ptr n u m h seg rw_read some_n some_u off =
    let size = least n u.resid in
    let fits : size ≤ u.resid = ground arith in
    let (u', e, out, block) =
      copyout-buffer m ptr size u.base (omega (arith, h.in_memory))
        (omega (arith, fits, h.in_memory, h.whole)) off in
    let m' : Memory = record m { user = u' } in
    let code = if in_user u.base size && all_of m.user.writable u.base size then 0 else efault in
    let block_moved : move_block ptr size u m ≡ done (code, m') = ground (arith, seg, rw_read, e) in
    let (ok, failed) = (uiomove_lem ptr n u m h).1 some_n some_u code m' block_moved in
    (
      u',
      elim (Bool-cases (in_user u.base size && all_of m.user.writable u.base size)) [
        | inl y ↦ ok (rw y refl) ∙ rw y refl
        | inr x ↦ failed (rw x (omega arith)) ∙ rw x refl
      ],
      out,
      block,
    )
