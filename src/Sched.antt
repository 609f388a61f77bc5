-- ===== src/Sched.antt =====
-- src/sched.c: the clock, the choice of the next coroutine, the switch to it, and `co_sleep`.
-- `task[i]` is read for 0 <= i < NR_TASKS only. The switch of stacks itself is in `Switch`.
pub mod Wake
pub mod Scan
pub mod Changed
pub mod Pick
pub mod Switched
pub mod Schedule
pub mod Sleep
pub mod Due
pub mod Stuck
pub mod Awake
pub mod Wrap
use libco_lite.Base.{
  ℕ, zero, suc, ◌+◌, ◌*◌, ◌/◌, ◌%◌, ◌^◌, Bool, true, false, Option, none, some, ◌==◌, ltb,
  if◌then◌else◌,
}
use libco_lite.Platform.{Platform, Timeval}
use libco_lite.Thread.{
  nr_tasks, Status, running, sleep, is_running, is_sleep, Frame, sleeping, Task, Table, World, Run,
  ok, exited, fault, out_of_fuel, Cmd, and_then, ◌>>=◌, ◌>>◌, pure, deref, set_env, modify, gets,
}

-- `tv.tv_sec * 1000 + tv.tv_usec / 1000` as an unsigned int.
unfoldable pub ms_of : Timeval → ℕ
ms_of tv = (tv.tv_sec * 1000 + tv.tv_usec / 1000) % 2 ^ 32

module _ {p : Platform} where
  -- `exit(-1)` where the clock fails.
  unfoldable pub getmstime : Cmd p ℕ
  getmstime w =
      let (tv, k) = p.gettimeofday w.kernel in
      elim tv [ none ↦ exited 255 | some t ↦ ok (ms_of t) (record w { kernel = k }) ]

  -- The body of the first loop of `pick`, at a slot.
  unfoldable pub wake_one : ℕ → Cmd p (Unit {0})
  unfolding getmstime
  wake_one i w = elim (w.env.task i) [
    | none ↦ ok tt w
    | some t ↦
        if is_sleep t.status
        then (do
          now ← getmstime
          if ltb t.wakeuptime now then modify i (λ s. record s { status = running }) else pure tt)
            w
        else ok tt w
  ]

  -- The first loop, from slot `i` on for `n` rounds.
  unfoldable pub wake_from : ℕ → ℕ → Cmd p (Unit {0})
  wake_from zero i = pure tt
  wake_from (suc n) i = wake_one i >> wake_from n (i + 1)

-- Where the second loop of `pick` ends: at a slot, or back at the current task.
pub data Found : Type 0 where
  next : ℕ → Found
  round : Found
  endless : Found

abbrev pub slot_running : Table → ℕ → Bool
slot_running task i = elim (task i) [ none ↦ false | some t ↦ is_running t.status ]

-- The second loop, `while(1)`, with `i` before its increment.
unfoldable pub scan : ℕ → Table → ℕ → ℕ → Found
scan zero task current_id i = endless
scan (suc n) task current_id i =
    let j = (i + 1) % nr_tasks in
    let rest = scan n task current_id j in
    if j == current_id then round else (if slot_running task j then next j else rest)

module _ {p : Platform} where
  -- The rest of `pick` behind its first loop; `again` is the jump back to the label `repeat`.
  unfoldable pub settle : ℕ → Cmd p ℕ → Cmd p ℕ
  settle current_id again = do
    task ← gets (λ e. e.task)
    current ← gets (λ e. e.current)
    elim (scan nr_tasks task current_id current_id) [
      | next j ↦ pure j
      | round ↦ do t ← deref current; if is_running t.status then pure current else again
      | endless ↦ λ w. out_of_fuel
    ]

  -- `pick` from the label `repeat` on: `rounds` bounds how often the code passes it.
  unfoldable pub repeat : ℕ → ℕ → Cmd p ℕ
  repeat zero current_id = λ w. out_of_fuel
  repeat (suc rounds) current_id =
      let again = repeat rounds current_id in wake_from nr_tasks 0 >> settle current_id again

  unfoldable pub pick : ℕ → Cmd p ℕ
  unfolding repeat
  pick rounds = do current ← gets (λ e. e.current); t ← deref current; repeat rounds t.id

  -- `switch_to` saves where the current task stands, `site`, and goes on where `target` was left.
  unfoldable pub co_switch_to : ℕ → Frame → Cmd p Frame
  co_switch_to target site = do
    current ← gets (λ e. e.current)
    if current == target then pure site else do
      modify current (λ t. record t { frame = site })
      t ← deref target
      λ w. ok t.frame (set_env w (record (w.env) { current = target }))

  -- `schedule`, called at `site`: the result is where control goes on.
  unfoldable pub schedule : ℕ → Frame → Cmd p Frame
  unfolding pick co_switch_to
  schedule rounds site = do j ← pick rounds; co_switch_to j site

  -- `1000 * seconds` in int, where an overflow is undefined, and
  -- `wakeuptime = getmstime() + 1000 * seconds` in unsigned int.
  unfoldable pub co_sleep : ℕ → ℕ → Cmd p Frame
  unfolding getmstime schedule
  co_sleep rounds seconds =
      if ltb (1000 * seconds) (2 ^ 31)
      then (do
        now ← getmstime
        current ← gets (λ e. e.current)
        modify current (λ t. record t { wakeuptime = (now + 1000 * seconds) % 2 ^ 32 })
        modify current (λ t. record t { status = sleep })
        schedule rounds sleeping)
      else (λ w. fault)
