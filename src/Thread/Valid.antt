-- ===== src/Thread/Valid.antt =====
-- Well-formedness of a `struct thread_env_t` (include/coroutine.h).
use libco_lite.Base.{
  ℕ, zero, suc, ◌+◌, ◌≤◌, ◌<◌, ◌≡◌, refl, ◌∙◌, true, Option, none, some, arith, if◌then◌else◌,
  is_some, update,
}
use libco_lite.Platform.{Platform}
use libco_lite.Thread.{nr_tasks, Task, Table, ThreadEnv}

-- How many of the first `n` slots are not NULL.
unfoldable pub occupied : ℕ → Table → ℕ
occupied zero task = 0
occupied (suc n) task = (if is_some (task n) then 1 else 0) + occupied n task

-- The current task is in the table, a task's `id` is its slot, no slot is out of range, and
-- `task_count` counts the tasks.
pub record IsValid {p : Platform} (e : ThreadEnv p) : Type 0 where
  pub current_in : e.current < nr_tasks
  pub current_live : is_some (e.task e.current) ≡ true
  pub ids : (i : ℕ) (t : Task) → e.task i ≡ some t → t.id ≡ i
  pub in_range : (i : ℕ) → nr_tasks ≤ i → e.task i ≡ none
  pub counted : e.task_count ≡ occupied nr_tasks e.task

occupied-above :
    (n : ℕ) (task : Table) (i : ℕ) (o : Option Task)
    → n ≤ i
    → occupied n (update task i o) ≡ occupied n task
unfolding occupied
occupied-above zero task i o h = refl
occupied-above (suc n) task i o h = ground (arith, occupied-above n task i o)

-- A write to a slot counts what was there out, and what is put there in.
pub occupied-update :
    (n : ℕ) (task : Table) (i : ℕ) (o : Option Task)
    → i < n
    → occupied n (update task i o) + (if is_some (task i) then 1 else 0)
      ≡ occupied n task + (if is_some o then 1 else 0)
unfolding occupied
occupied-update zero task i o h = absurd (omega arith)
occupied-update (suc n) task i o h =
    ground (arith, occupied-update n task i o, occupied-above n task i o)

-- The count depends on which slots are taken only.
pub occupied-same :
    (n : ℕ) (task other : Table)
    → ((i : ℕ) → is_some (task i) ≡ is_some (other i))
    → occupied n task ≡ occupied n other
unfolding occupied
occupied-same zero task other h = refl
occupied-same (suc n) task other h = ground (arith, h n, occupied-same n task other h)

pub occupied-le : (n : ℕ) (task : Table) → occupied n task ≤ n
unfolding occupied
occupied-le zero task = omega arith
occupied-le (suc n) task = ground (arith, occupied-le n task)

-- A block may be written anew, and the block queues with it, as long as its `id` stays.
pub put-IsValid :
    {p : Platform} (e : ThreadEnv p) (i : ℕ) (a b : Task) (q : p.Queues)
    → IsValid e
    → e.task i ≡ some a
    → b.id ≡ a.id
    → IsValid (record e { task = update e.task i (some b); block_queue = q })
put-IsValid e i a b q v h same = record {
  current_in = v.current_in;
  current_live = ground (arith, v.current_live);
  ids = λ j t f. ground (arith, v.ids i a h, v.ids j t);
  in_range = λ j l. ground (arith, v.in_range j l);
  counted = v.counted ∙ occupied-same nr_tasks e.task _ (λ j. ground arith);
}

-- Nothing here depends on the block queues.
pub queue-IsValid :
    {p : Platform} (e : ThreadEnv p) (q : p.Queues)
    → IsValid e
    → IsValid (record e { block_queue = q })
queue-IsValid e q v = record {
  current_in = v.current_in;
  current_live = v.current_live;
  ids = v.ids;
  in_range = v.in_range;
  counted = v.counted;
}
