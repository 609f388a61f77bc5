-- ===== src/Coroutine/Join.antt =====
-- `co_join` and the end of a coroutine (src/coroutine.c).
use libco_lite.Base.{
  ℕ, ◌-◌, ◌<◌, ◌≡◌, ◌≢◌, refl, subst, inl, inr, none, some, arith, ltb, update, Bool-cases,
  Option-cases,
}
use libco_lite.Platform.{Platform}
use libco_lite.Thread.{
  nr_tasks, exit, is_exit, Frame, joining, Task, ThreadEnv, World, Run, ok, fault, deref, pure,
}
use libco_lite.Thread.Returns
use libco_lite.Thread.Returns.{Returns, returns, Keeps, kept}
use libco_lite.Thread.Valid.{IsValid, occupied-update}
use libco_lite.Sched.Schedule.{Scheduled, schedule-Scheduled}
use libco_lite.Coroutine.{Control, returns_nothing, goes, co_join}

-- What a round of `co_join` does, by the state of the slot it is given.
pub data Joined {p : Platform} (w : World p) (cid : ℕ) (r : Run p Control) : Type 0 where
  missing : w.task cid ≡ none → r ≡ fault → Joined w cid r
  freed :
      (t : Task) (v : World p)
      → w.task cid ≡ some t
      → t.status ≡ exit
      → r ≡ ok returns_nothing v
      → v.env ≡ record (w.env) { task = update w.task cid none; task_count = w.task_count - 1 }
      → v.kernel ≡ w.kernel
      → IsValid v.env
      → Joined w cid r
  waits :
      (t : Task)
      → w.task cid ≡ some t
      → t.status ≢ exit
      → Keeps (λ c v. (f : Frame) × (c ≡ goes f) × Scheduled w (joining cid) f v) r
      → Joined w cid r

module _ {p : Platform} where
  slot_in_range :
      (e : ThreadEnv p) (i : ℕ) (t : Task) → IsValid e → e.task i ≡ some t → i < nr_tasks
  slot_in_range e i t v h = elim (Bool-cases (ltb i nr_tasks)) [
    | inl l ↦ ground arith
    | inr l ↦ absurd (ground (arith, v.in_range i (ground arith)))
  ]

  pub freed-IsValid :
      (e : ThreadEnv p) (cid : ℕ) (t : Task)
      → IsValid e
      → cid ≢ e.current
      → e.task cid ≡ some t
      → IsValid (record e { task = update e.task cid none; task_count = e.task_count - 1 })
  freed-IsValid e cid t v ne h = record {
    current_in = v.current_in;
    current_live = ground (arith, v.current_live);
    ids = λ i x f. ground (arith, v.ids i x);
    in_range = λ i l. ground (arith, v.in_range i l);
    counted =
        ground
          (arith, v.counted, occupied-update nr_tasks e.task cid none (slot_in_range e cid t v h));
  }

  -- A round of `co_join` in a well-formed environment, by a task that has not ended. A coroutine
  -- that has ended is freed: its slot is NULL, the count goes down by one, the environment stays
  -- well-formed, and nothing else changes. One that has not is waited for by way of `schedule`. A
  -- slot that is NULL is a fault.
  pub co_join-Joined :
      (rounds : ℕ) (w : World p) (cid : ℕ)
      → IsValid w.env
      → ((t : Task) → w.task w.current ≡ some t → t.status ≢ exit)
      → Joined w cid (co_join rounds cid w)
  unfolding co_join
  co_join-Joined rounds w cid valid alive = elim (Option-cases (w.task cid)) [
    | inl o ↦ rw (o, deref) (missing o refl)
    | inr (t, o) ↦
        rw (o, deref)
          (elim (Bool-cases (is_exit t.status)) [
            | inl e ↦ rw e (
                freed t _ o (ground arith) refl refl refl (
                  freed-IsValid w.env cid t valid
                    (λ c. alive t (subst (λ j. w.task j ≡ some t) c o) (ground arith)) o))
            | inr e ↦ rw e (
                waits t o (λ s. ground arith)
                  (Returns.chain (λ f. pure (goes f))
                    (schedule-Scheduled rounds w (joining cid) valid) λ f v s. kept (f, refl, s)))
          ])
  ]
