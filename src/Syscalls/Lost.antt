-- ===== src/Syscalls/Lost.antt =====
-- kern/thread/thread.c and kern/userprog/system_calls_PI.c: sys_waitpid of a parent that runs again
-- after its child has exited.
use ece344_operating_systems.Base.{
  ℕ, ◌<◌, ◌≡◌, ◌≢◌, ap, ◌∙◌, inl, inr, Bool, true, false, Option, none, some, Option-cases, List,
  [], ◌∷◌, member, arith, ◌==◌, if◌then◌else◌, done, ℕ_discrete,
}
use ece344_operating_systems.Base.Errno.{einval}
use ece344_operating_systems.Copy.{User}
use ece344_operating_systems.Pid.{Pid, pid_search, release_pid}
use ece344_operating_systems.Pid.Numbered.{search-release}
use ece344_operating_systems.Thread.{Thread, Kernel, switch_in}
use ece344_operating_systems.Thread.Calls.{current_pid}
use ece344_operating_systems.Thread.Tables.{Table}
use ece344_operating_systems.Thread.Exorcise.{AllDead, pid_in, release_all, exorcise_lem}
use ece344_operating_systems.Syscalls.{answered, minus_one, sys_waitpid}

-- The parent in an entry, 0 where there is no entry.
abbrev parent_in : Option Pid → ℕ
parent_in none = 0
parent_in (some p) = p.p_pid

parent_in-release :
    (l : List Pid) (v w : ℕ)
    → parent_in (pid_search (release_pid l v) w)
      ≡ (if v == w then 0 else parent_in (pid_search l w))
parent_in-release l v w = elim (Option-cases (pid_search l v)) [
  | inl z ↦ ground (arith, z, search-release l v w)
  | inr (p, s) ↦ ground (arith, s, search-release l v w)
]

release_all-released :
    (threads : ℕ → Option Thread) (zs : List ℕ) (l : List Pid) (v : ℕ)
    → parent_in (pid_search l v) ≡ 0
    → parent_in (pid_search (release_all threads zs l) v) ≡ 0
release_all-released threads [] l v e = e
release_all-released threads (z ∷ zs) l v e =
    release_all-released threads zs (release_pid l (pid_in (threads z))) v ground
      (arith, e, parent_in-release l (pid_in (threads z)) v)

-- No entry of a dead thread has a parent after exorcise.
release_all-member :
    (threads : ℕ → Option Thread) (zs : List ℕ) (l : List Pid) (z : ℕ)
    → member z zs ≡ true
    → parent_in (pid_search (release_all threads zs l) (pid_in (threads z))) ≡ 0
release_all-member threads [] l z m = absurd ground (arith, m)
release_all-member threads (y ∷ ys) l z m = elim (ℕ_discrete z y) [
  | yes e ↦
      release_all-released threads ys (release_pid l (pid_in (threads y))) (pid_in (threads z))
        ground
        (
          arith,
          ap (λ x. pid_in (threads x)) e,
          parent_in-release l (pid_in (threads y)) (pid_in (threads z)),
        )
  | no ne ↦
      release_all-member threads ys (release_pid l (pid_in (threads y))) z ground (arith, ne, m)
]

current-alive :
    (k : Kernel) (zs : List ℕ) (c : ℕ) → k.curthread ≡ some c → AllDead k zs → member c zs ≡ false
current-alive k [] c e all = ground arith
current-alive k (z ∷ zs) c e (dead, av, all) =
    ground (arith, e, dead.not_current, current-alive k zs c e all)

waitpid-no_parent :
    (mem : ℕ → Bool) (sem_at : ℕ → ℕ) (events : List ℕ) (pid status me : ℕ) (k : Kernel) (u : User)
    → parent_in (pid_search k.pids pid) ≡ 0
    → current_pid k ≡ done me
    → me ≢ 0
    → status ≢ 0
    → sys_waitpid mem sem_at events pid status 0 k u ≡ done (answered einval minus_one k u)
unfolding sys_waitpid
waitpid-no_parent mem sem_at events pid status me k u e cur some_pid set =
    elim (Option-cases (pid_search k.pids pid)) [
      | inl z ↦ ground (arith, z, set)
      | inr (p, s) ↦ ground (arith, s, e, set, cur, some_pid)
    ]

-- When a process runs again by mi_switch and its child stands among the dead threads, the switch
-- goes through, and sys_waitpid for the child then says EINVAL and answers -1, whatever exit code
-- the child has left: the switch has given up the pid, and its entry has no parent any more.
pub waitpid-switch_in :
    (mem : ℕ → Bool) (sem_at : ℕ → ℕ) (events : List ℕ) (z c status : ℕ) (me : Thread) (zs : List ℕ)
    (k : Kernel) (u : User)
    → k.curthread ≡ some c
    → k.threads c ≡ some me
    → me.pid_value ≢ 0
    → status ≢ 0
    → 0 < k.curspl
    → Table k.zombies zs
    → AllDead k zs
    → member z zs ≡ true
    → (k' : Kernel) × (switch_in mem k ≡ done k')
      × (sys_waitpid mem sem_at events (pid_in (k.threads z)) status 0 k' u
          ≡ done (answered einval minus_one k' u))
unfolding switch_in current_pid
waitpid-switch_in mem sem_at events z c status me zs k u cur here some_pid set up t all m =
    let (k', run, x, tb, mx) = exorcise_lem mem zs k up t all in
    let stays : k'.threads c ≡ some me =
      ground (arith, x.freed c, current-alive k zs c cur all, here) in
    let running : current_pid k' ≡ done me.pid_value = ground (arith, x.current, cur, stays) in
    let orphan : parent_in (pid_search k'.pids (pid_in (k.threads z))) ≡ 0 =
      ap (λ l. parent_in (pid_search l (pid_in (k.threads z)))) x.pids
      ∙ release_all-member k.threads zs k.pids z m in
    (
      k',
      run,
      waitpid-no_parent mem sem_at events (pid_in (k.threads z)) status me.pid_value k' u orphan
          running some_pid set,
    )
