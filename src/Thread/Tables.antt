-- ===== src/Thread/Tables.antt =====
-- kern/thread/thread.c: the tables of sleeping, dead and runnable threads as lists, and the list
-- operations that the loops of the file need.
use mathlib.Core.List.{map-append}
use ece344_operating_systems.Base.{
  ℕ, suc, ◌<◌, ◌≡◌, refl, ap, sym, ◌∙◌, Bool, Option, some, List, [], ◌∷◌, ◌++◌, map, arith, done,
  length, load_lem, take, drop, get_elem?, length-map, length-append,
}
use ece344_operating_systems.Array
use ece344_operating_systems.Array.{Array}
use ece344_operating_systems.Array.Inv
use ece344_operating_systems.Array.Inv.{elems}
use ece344_operating_systems.Array.Ops.{getguy_lem}
use ece344_operating_systems.Array.Remove.{remove_lem}
use ece344_operating_systems.Queue
use ece344_operating_systems.Queue.{Queue}
use ece344_operating_systems.Queue.Ops
use ece344_operating_systems.Queue.Ops.{
  contents, count, push, addtail_at-room, push-IsValid, count-push, contents-push, size-push,
  length-contents,
}
use ece344_operating_systems.Scheduler.{make_runnable}

-- The array holds these threads, and the queue those.
pub record Table (a : Array ℕ) (ts : List ℕ) : Type 0 where
  pub valid : Inv.IsValid a
  pub holds : elems a ≡ map some ts

pub record Ready (runqueue : Option (Queue ℕ)) (ts : List ℕ) : Type 0 where
  pub q : Queue ℕ
  pub here : runqueue ≡ some q
  pub valid : Ops.IsValid q
  pub holds : contents q ≡ map some ts

-- The same table, with its list written in another way.
abbrev pub retable : {a : Array ℕ} {ts ts' : List ℕ} → Table a ts → ts ≡ ts' → Table a ts'
retable t e = record { valid = t.valid; holds = t.holds ∙ ap (map some) e }

abbrev pub requeue :
    {rq : Option (Queue ℕ)} {ts ts' : List ℕ} → Ready rq ts → ts ≡ ts' → Ready rq ts'
requeue r e = record { q = r.q; here = r.here; valid = r.valid; holds = r.holds ∙ ap (map some) e }

pub num-Table : {a : Array ℕ} {ts : List ℕ} → Table a ts → a.num ≡ length ts
num-Table {a} {ts} t = sym (Inv.length-elems a t.valid) ∙ ap length t.holds ∙ length-map ts some

pub count-Ready : {rq : Option (Queue ℕ)} {ts : List ℕ} (r : Ready rq ts) → count r.q ≡ length ts
count-Ready {rq} {ts} r = sym (length-contents r.q) ∙ ap length r.holds ∙ length-map ts some

-- `array_getguy` in the middle of a table.
get_elem?-middle :
    (pre : List ℕ) (t : ℕ) (rest : List ℕ)
    → get_elem? (map some (pre ++ t ∷ rest)) (length pre) ≡ some (some t)
get_elem?-middle [] t rest = refl
get_elem?-middle (x ∷ pre) t rest = get_elem?-middle pre t rest

pub getguy-Table :
    {a : Array ℕ} (pre : List ℕ) (t : ℕ) (rest : List ℕ)
    → Table a (pre ++ t ∷ rest)
    → Array.getguy a (length pre) ≡ done (some t)
getguy-Table {a} pre t rest h =
    getguy_lem a (length pre) h.valid
    ∙ ground (
      arith,
      num-Table h,
      length-append pre (t ∷ rest),
      load_lem (elems a) (length pre) {x = some t},
      h.holds,
      get_elem?-middle pre t rest,
    )

cut_middle :
    (pre : List ℕ) (t : ℕ) (rest : List ℕ)
    → take (length pre) (map some (pre ++ t ∷ rest))
        ++ drop (suc (length pre)) (map some (pre ++ t ∷ rest))
      ≡ map some (pre ++ rest)
cut_middle [] t rest = refl
cut_middle (x ∷ pre) t rest = ap (λ l. some x ∷ l) (cut_middle pre t rest)

pub remove-Table :
    {a : Array ℕ} (pre : List ℕ) (t : ℕ) (rest : List ℕ)
    → Table a (pre ++ t ∷ rest)
    → (a' : Array ℕ) × (Array.remove a (length pre) ≡ done a') × Table a' (pre ++ rest)
remove-Table {a} pre t rest h =
    let (a', e, v, l) =
      (remove_lem a (length pre) h.valid).0
        (omega (arith, num-Table h, length-append pre (t ∷ rest))) in
    (a', e, record { valid = v; holds = l ∙ rw h.holds (cut_middle pre t rest) })

-- With a cell to spare make_runnable puts the thread at the end, whatever kmalloc says.
pub make_runnable-Ready :
    (mem : ℕ → Bool) (curspl t : ℕ) {rq : Option (Queue ℕ)} {ts : List ℕ} (r : Ready rq ts)
    → 0 < curspl
    → suc (length ts) < r.q.size
    → (rq' : Option (Queue ℕ)) × (make_runnable mem curspl rq t ≡ done (0, rq'))
      × (r' : Ready rq' (ts ++ t ∷ [])) × (r'.q.size ≡ r.q.size)
unfolding make_runnable Queue.addtail
make_runnable-Ready mem curspl t {rq} {ts} r up room =
    let n = count-Ready r in
    (
      some (push r.q (some t)),
      ground (arith, r.here, addtail_at-room 1 mem r.q (some t) r.valid (omega arith)),
      record {
        q = push r.q (some t);
        here = refl;
        valid = push-IsValid r.q (some t) r.valid;
        holds =
            contents-push r.q (some t) r.valid (omega arith)
            ∙ ap (λ l. l ++ some t ∷ []) r.holds
            ∙ sym (map-append some ts (t ∷ []));
      },
      size-push r.q (some t),
    )
