-- ===== src/Pid.antt =====
-- kern/userprog/pid_system.c: the list of process ids. The list is reached only through its head
-- and each entry owns the next, so it is a list of entries; `[]` is a NULL head. `me` is
-- `curthread->pidValue`. `mem` says for which sizes kmalloc returns a block during the call.
pub mod Numbered
pub mod Assign
mod Tests
use ece344_operating_systems.Base.{
  ℕ, zero, suc, ◌+◌, ◌^◌, Bool, true, false, ◌&&◌, not, Option, none, some, List, [], ◌∷◌, ltb,
  ◌==◌, if◌then◌else◌, Run, done, undef, ◌>>=◌, ◌>>◌, defined,
}

-- `struct pid`. A thread is known by a number, and `none` is NULL. Of the semaphore that a parent
-- waits on only its count is kept. `exit_code` is `none` until it is first written.
pub record Pid : Type 0 where
  pub pid_value : ℕ
  pub is_used : ℕ
  pub p_pid : ℕ
  pub did_exit : ℕ
  pub exit_code : Option ℕ
  pub my_thread : Option ℕ
  pub parent_sem : Option ℕ

unfoldable pub create_pid_list : (ℕ → Bool) → Option ℕ → List Pid
create_pid_list mem curthread =
    if mem 32
    then record {
      pid_value = 1;
      is_used = 1;
      p_pid = 0;
      did_exit = 0;
      exit_code = none;
      my_thread = curthread;
      parent_sem = none;
    }
      ∷ []
    else []

-- sem_create("name", count): the semaphore and the copy of its name have to be allocated.
unfoldable pub new_sem : (ℕ → Bool) → ℕ → Option ℕ
new_sem mem count = if mem 8 && mem 5 then some count else none

unfoldable pub new_entry : (ℕ → Bool) → ℕ → ℕ → ℕ → Pid
new_entry mem me value thread = record {
  pid_value = value;
  is_used = 1;
  p_pid = me;
  did_exit = 0;
  exit_code = none;
  my_thread = some thread;
  parent_sem = new_sem mem 1;
}

-- `while (last->next != NULL) last = last->next; last->next = new_pid;`
unfoldable pub link_last : List Pid → Pid → Run (List Pid)
link_last [] new_pid = undef
link_last (last ∷ []) new_pid = done (last ∷ new_pid ∷ [])
link_last (p ∷ q ∷ rest) new_pid = do rest' ← link_last (q ∷ rest) new_pid; done (p ∷ rest')

-- The result of kmalloc is written through unchecked.
unfoldable pub append_pid : (ℕ → Bool) → ℕ → List Pid → ℕ → ℕ → Run (List Pid)
append_pid mem me head value thread = do
  defined (mem 32)
  link_last head (new_entry mem me value thread)

-- An entry that a thread gives up is taken over, its semaphore and exit code as they are.
unfoldable pub reuse : ℕ → ℕ → Pid → Pid
reuse me thread p = record p { is_used = 1; p_pid = me; did_exit = 0; my_thread = some thread }

-- The loop of assign_pid, at `current`; the entries before it stay as they are, so that each call
-- has the rest of the list, and append_pid goes on to its end from there.
unfoldable pub assign_pid : (ℕ → Bool) → ℕ → List Pid → ℕ → Run (ℕ × List Pid)
assign_pid mem me [] thread = undef
assign_pid mem me (current ∷ []) thread = do
  defined (ltb (current.pid_value + 1) (2 ^ 31))
  list ← append_pid mem me (current ∷ []) (current.pid_value + 1) thread
  done (current.pid_value + 1, list)
assign_pid mem me (current ∷ next ∷ rest) thread = elim (next.is_used == 0) [
  | true ↦ done (next.pid_value, current ∷ reuse me thread next ∷ rest)
  | false ↦ do (value, list) ← assign_pid mem me (next ∷ rest) thread; done (value, current ∷ list)
]

unfoldable pub release_pid : List Pid → ℕ → List Pid
release_pid [] value = []
release_pid (current ∷ rest) value =
    if current.pid_value == value
    then record current { is_used = 0; p_pid = 0; my_thread = none } ∷ rest
    else current ∷ release_pid rest value

unfoldable pub pid_search : List Pid → ℕ → Option Pid
pid_search [] value = none
pid_search (current ∷ rest) value =
    if current.pid_value == value then some current else pid_search rest value

-- Every entry is freed; what the caller holds of the list dangles from then on.
unfoldable pub delete_pid_list : List Pid → List Pid
delete_pid_list [] = []
delete_pid_list (current ∷ next) = delete_pid_list next
