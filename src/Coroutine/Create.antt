-- ===== src/Coroutine/Create.antt =====
-- `co_create` and `co_get_thread_env` (src/coroutine.c).
use libco_lite.Base.{
  ℕ, zero, suc, ◌+◌, ◌≤◌, ◌<◌, ◌≡◌, refl, ap, ◌∙◌, inl, inr, ℤ, pos, negsuc, true, false, Option,
  none, some, arith, ◌==◌, is_some, update, ==-lt, Bool-cases,
}
use libco_lite.Platform.{Platform}
use libco_lite.Thread.{nr_tasks, Task, zeroed, Table, ThreadEnv, World, Run, ok, fault}
use libco_lite.Thread.Valid.{IsValid, occupied-update}
use libco_lite.Coroutine.{free_from, co_create}

-- The outcome of the search: the first free slot from `i` on, or NR_TASKS.
data Searched (i : ℕ) (task : Table) (r : ℕ) : Type 0 where
  hit :
      r < nr_tasks
      → is_some (task r) ≡ false
      → ((j : ℕ) → i ≤ j → j < r → is_some (task j) ≡ true)
      → Searched i task r
  miss :
      r ≡ nr_tasks → ((j : ℕ) → i ≤ j → j < nr_tasks → is_some (task j) ≡ true) → Searched i task r

Searched-step :
    {i r : ℕ} {task : Table} → is_some (task i) ≡ true → Searched (i + 1) task r → Searched i task r
Searched-step {i} {task} taken (hit h free before) = hit h free (λ j a b.
    elim (Bool-cases (i == j)) [
      | inl e ↦ ap (λ k. is_some (task k)) (ground arith) ∙ taken
      | inr e ↦ before j (ground arith) b
    ])
Searched-step {i} {task} taken (miss e all) = miss e (λ j a b. elim (Bool-cases (i == j)) [
  | inl e' ↦ ap (λ k. is_some (task k)) (ground arith) ∙ taken
  | inr e' ↦ all j (ground arith) b
])

free_from-Searched :
    (n i : ℕ) (task : Table) → i + n ≡ nr_tasks → Searched i task (free_from n i task)
unfolding free_from
free_from-Searched zero i task h = miss (omega arith) (λ j a b. absurd (omega arith))
free_from-Searched (suc n) i task h = elim (Bool-cases (is_some (task i))) [
  | inl taken ↦ rw taken (Searched-step taken (free_from-Searched n (i + 1) task (omega arith)))
  | inr free ↦ rw free (hit (omega arith) free (λ j a b. absurd (omega arith)))
]

-- The task block of a new coroutine.
abbrev pub born : ℕ → ℕ → ℕ → Task
born id co_fn arg = record zeroed { id = id; co_fn = co_fn; arg = arg }

-- What `co_create` does in an environment, by the state of its table.
pub data Created {p : Platform} (w : World p) (co_fn arg : ℕ) (r : Run p (ℤ × Option ℕ))
    : Type 0 where
  full :
      ((i : ℕ) → i < nr_tasks → is_some (w.task i) ≡ true)
      → r ≡ ok (negsuc 0, none) w
      → Created w co_fn arg r
  no_memory : (p.calloc w.kernel).0 ≡ false → r ≡ fault → Created w co_fn arg r
  made :
      (id : ℕ) (v : World p)
      → id < nr_tasks
      → is_some (w.task id) ≡ false
      → ((i : ℕ) → i < id → is_some (w.task i) ≡ true)
      → r ≡ ok (pos 0, some id) v
      → v.env ≡ record (w.env) {
        task_count = w.task_count + 1;
        task = update w.task id (some (born id co_fn arg));
      }
      → IsValid v.env
      → Created w co_fn arg r

module _ {p : Platform} where
  born-IsValid :
      (e : ThreadEnv p) (id co_fn arg : ℕ)
      → IsValid e
      → id < nr_tasks
      → is_some (e.task id) ≡ false
      → IsValid (record e {
        task_count = e.task_count + 1;
        task = update e.task id (some (born id co_fn arg));
      })
  born-IsValid e id co_fn arg v h free = record {
    current_in = v.current_in;
    current_live = ground (arith, v.current_live);
    ids = λ i t f. ground (arith, v.ids i t);
    in_range = λ i l. ground (arith, v.in_range i l);
    counted =
        let o : Option Task = some (born id co_fn arg) in
        ground (arith, v.counted, occupied-update nr_tasks e.task id o h);
  }

  -- `co_create` in a well-formed environment. With a full table it returns -1, writes no `*cid` and
  -- changes nothing. Else, if `calloc` gives a block, it returns 0, writes the lowest free slot to
  -- `*cid`, puts a running task with that id there, counts it, and leaves all else as it was; the
  -- environment stays well-formed. It faults if `calloc` fails.
  pub co_create-Created :
      (w : World p) (co_fn arg : ℕ) → IsValid w.env → Created w co_fn arg (co_create co_fn arg w)
  unfolding co_create
  co_create-Created w co_fn arg valid = elim (free_from-Searched nr_tasks 0 w.task (omega arith)) [
    | miss e all ↦ rw e (full (λ i h. all i (omega arith) h) refl)
    | hit h free before ↦ rw (==-lt _ nr_tasks h) (elim (Bool-cases (p.calloc w.kernel).0) [
      | inr e ↦ rw e (no_memory e refl)
      | inl e ↦ rw e (
          made _ _ h free (λ i l. before i (omega arith) l) refl refl
            (born-IsValid w.env _ co_fn arg valid h free))
    ])
  ]
