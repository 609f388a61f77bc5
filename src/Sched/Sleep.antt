-- ===== src/Sched/Sleep.antt =====
-- `co_sleep` (src/sched.c): until when a task sleeps, and when it wakes.
use libco_lite.Base.{
  ℕ, ◌+◌, ◌*◌, ◌%◌, ◌^◌, ◌<◌, ◌≡◌, ◌⊎◌, inl, inr, true, ap, some, arith, ltb, Bool-cases,
  update_self, update-update,
}
use libco_lite.Platform.{Platform}
use libco_lite.Thread.{sleep, sleeping, fault, Task, Table, World, modify, set_env, put_task}
use libco_lite.Sched.{co_sleep, schedule}
use libco_lite.Sched.Wake.{reading, tick, getmstime-reading}

-- A block put to sleep at clock reading `now`.
abbrev pub slept : (now seconds : ℕ) → Task → Task
slept now seconds t = record t { wakeuptime = (now + 1000 * seconds) % 2 ^ 32; status = sleep }

module _ {p : Platform} where
  abbrev pub asleep : ℕ → Task → World p → World p
  asleep seconds t w =
      put_task (record w { kernel = tick p w.kernel }) w.current
        (some (slept (reading p w.kernel) seconds t))

  -- Without an overflow `co_sleep` reads the clock once, notes the time to wake, and leaves the rest to
  -- `schedule`.
  pub co_sleep-schedule :
      (rounds seconds : ℕ) (w : World p) (t : Task)
      → w.task w.current ≡ some t
      → 1000 * seconds < 2 ^ 31
      → co_sleep rounds seconds w ≡ schedule rounds sleeping (asleep seconds t w)
  unfolding co_sleep
  co_sleep-schedule rounds seconds w t here small =
      let no_overflow : ltb (1000 * seconds) (2 ^ 31) ≡ true = ground arith in
      rw (no_overflow, getmstime-reading p w, here, modify)
        (rw
          (
            update_self w.task w.current
                (some (record t { wakeuptime = (reading p w.kernel + 1000 * seconds) % 2 ^ 32 })),
            modify,
          )
          (ap
            (λ (f : Table).
              schedule rounds sleeping
                (set_env (record w { kernel = tick p w.kernel }) (record (w.env) { task = f })))
            (update-update w.task w.current _ _)))

  -- `co_sleep` overflows, or goes on as `schedule` does.
  pub co_sleep-cases :
      (rounds seconds : ℕ) (w : World p) (t : Task)
      → w.task w.current ≡ some t
      → (co_sleep rounds seconds w ≡ fault)
        ⊎ (co_sleep rounds seconds w ≡ schedule rounds sleeping (asleep seconds t w))
  unfolding co_sleep
  co_sleep-cases rounds seconds w t here = elim (Bool-cases (ltb (1000 * seconds) (2 ^ 31))) [
    | inl small ↦ inr (co_sleep-schedule rounds seconds w t here (ground arith))
    | inr big ↦ inl (rw big)
  ]
