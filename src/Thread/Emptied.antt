-- ===== src/Thread/Emptied.antt =====
-- kern/thread/thread.c: an exit after exorcise has thrown the block of the zombies away.
use ece344_operating_systems.Base.{
  ℕ, ◌<◌, ◌≡◌, refl, ap, sym, ◌∙◌, Bool, true, false, some, List, [], arith, lt→ltb, done, panic,
  subst,
}
use ece344_operating_systems.Array.Reserve.{add-refused}
use ece344_operating_systems.Thread.{
  Thread, Kernel, exorcise, switch_out, stash, zomb, stack_intact,
}
use ece344_operating_systems.Thread.Tables.{Table, num-Table}
use ece344_operating_systems.Thread.Exorcise.{AllDead, exorcise_lem}

-- After exorcise has emptied a table of zombies of more than 16 cells, the current thread trips the
-- assert of mi_switch when it exits, if kmalloc gives nothing.
pub exit_after_exorcise :
    (mem : ℕ → Bool) (events : List ℕ) (c : ℕ) (th : Thread) (zs : List ℕ) (k : Kernel)
    {k' : Kernel}
    → 0 < k.curspl
    → Table k.zombies zs
    → AllDead k zs
    → 16 < k.zombies.max
    → exorcise mem k ≡ done k'
    → k'.curthread ≡ some c
    → k'.threads c ≡ some th
    → stack_intact th ≡ true
    → ((n : ℕ) → mem n ≡ false)
    → switch_out mem events zomb k' ≡ panic
unfolding switch_out stash
exit_after_exorcise mem events c th zs k {k'} up t all big e cur here intact refused =
    let (k₁, run, x, tb, m) = exorcise_lem mem zs k up t all in
    let same : k' ≡ k₁ = ground (arith, run) in
    let tb' : Table k'.zombies [] = subst (λ (j : Kernel). Table j.zombies []) (sym same) tb in
    let none_left : k'.zombies.max ≡ 0 =
      ap (λ (j : Kernel). j.zombies.max) same ∙ m ∙ rw (lt→ltb 16 k.zombies.max big) refl in
    let spl : k'.curspl ≡ k.curspl = ap (λ (j : Kernel). j.curspl) same ∙ x.curspl in
    ground (
      arith,
      cur,
      here,
      intact,
      spl,
      add-refused mem k'.zombies c tb'.valid (omega (arith, num-Table tb', none_left))
          (omega (arith, num-Table tb')) refused,
    )
