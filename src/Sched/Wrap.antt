-- ===== src/Sched/Wrap.antt =====
-- `co_sleep` (src/sched.c) where its sum of milliseconds goes past the 32 bits.
use libco_lite.Base.{ℕ, suc, ◌+◌, ◌*◌, ◌^◌, ◌≤◌, ◌<◌, ◌≡◌, refl, some, arith, update_self}
use libco_lite.Platform.{Platform}
use libco_lite.Thread.{nr_tasks, running, sleeping, Task, World}
use libco_lite.Thread.Returns
use libco_lite.Thread.Returns.{Returns, Returns-Ends, Ends, Ends-bind}
use libco_lite.Thread.Valid.{IsValid, put-IsValid}
use libco_lite.Sched.{pick, co_switch_to, schedule, co_sleep}
use libco_lite.Sched.Wake.{reading, tick, skip}
use libco_lite.Sched.Due.{co_switch_to-status}
use libco_lite.Sched.Switched.{Switched, co_switch_to-Switched}
use libco_lite.Sched.Sleep.{slept, asleep, co_sleep-schedule}
use libco_lite.Sched.Awake.{Wakened, IsDue, pick-Wakened, pick-due}

module _ {p : Platform} where
  -- The block in a slot runs.
  abbrev pub Runs : ℕ → World p → Type 0
  Runs i v = (x : Task) × (v.task i ≡ some x) × (x.status ≡ running)

  -- A sleep over the wrap does not last. `co_sleep` in a well-formed environment, for fewer than
  -- 2 ^ 31 milliseconds, at a reading of the clock from which they go past the 32 bits, and where the next
  -- NR_TASKS readings are not before that one: its `schedule` returns within the first round of `pick`, and the
  -- caller runs again already, whatever the number of seconds.
  pub co_sleep-Runs :
      (rounds seconds : ℕ) (w : World p) (t : Task)
      → IsValid w.env
      → w.task w.current ≡ some t
      → 1000 * seconds < 2 ^ 31
      → 2 ^ 32 ≤ reading p w.kernel + 1000 * seconds
      → ((m : ℕ) → m < nr_tasks → reading p w.kernel ≤ reading p (skip p m (tick p w.kernel)))
      → Returns (λ f v. Runs w.current v) (co_sleep (suc rounds) seconds w)
  unfolding schedule
  co_sleep-Runs rounds seconds w t valid here few over forward =
      let s = slept (reading p w.kernel) seconds t in
      let v = asleep seconds t w in
      let valid' : IsValid v.env = put-IsValid w.env w.current t s w.block_queue valid here refl in
      let own = update_self w.task w.current (some s) in
      let due : IsDue p nr_tasks s v.kernel = λ m h. omega (arith, forward m h) in
      rw (co_sleep-schedule (suc rounds) seconds w t here few) (
        Returns.weaken
          (Returns-Ends {P = λ f u. (x : World p) × Switched v x sleeping f u}
            (Returns.bind (λ k. co_switch_to k sleeping)
              (pick-due w.current s refl rounds v valid' valid.current_in own due)
              λ k u picked.
                Returns.weaken (co_switch_to-Switched v u k sleeping valid' picked) λ f x a. (u, a))
            (Ends-bind (λ _ u. Wakened w.current s v u) (λ f u. Runs w.current u)
              (pick (suc rounds) v) (λ k. co_switch_to k sleeping)
              (pick-Wakened w.current s refl (suc rounds) v valid.current_in own due)
              λ k u (h, same) f v e.
                let (x, o, up, _) = co_switch_to-status p k sleeping w.current _ u h f v e in
                (x, o, up)))
          λ f u (a, up). up)
