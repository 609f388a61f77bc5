-- ===== src/Board/Awakes.antt =====
-- A sleeper whose time has come returns from `co_sleep` (src/sched.c).
use libco_lite.Base.{suc, ℕ, suc, ◌≤◌, ◌<◌, ◌≡◌, ◌≢◌, refl, sym, ap, ◌∙◌, some}
use libco_lite.Platform.{Platform}
use libco_lite.Thread.{nr_tasks, sleep, exit, Frame, sleeping, exiting, Task, World, ok}
use libco_lite.Thread.Returns
use libco_lite.Thread.Returns.{Returns, Returns-Ends, Ends, Ends-bind}
use libco_lite.Thread.Valid.{IsValid}
use libco_lite.Sched.Switched.{Switched, co_switch_to-Switched}
use libco_lite.Sched.{pick, co_switch_to, schedule}
use libco_lite.Sched.Awake.{awake, IsDue, pick-Wakened, pick-due}
use libco_lite.Sched.Scan.{steps_to}
use libco_lite.Coroutine.{Control, goes, returns_nothing}
use libco_lite.System.{resume, Reach}
use libco_lite.System.Linked.{IsLinked}
use libco_lite.System.Events.{schedule-IsSafe}
use libco_lite.System.Turn.{Holds, Turn, co_switch_to-Turn}
use libco_lite.Board.Fair.{block-lt, WasCurrent, Turn-WasCurrent}
use libco_lite.Board.Nearer.{switches}

module _ {p : Platform} (j : ℕ) (t : Task) where
  module _ (asleep : t.status ≡ sleep) where
    schedule-awake :
        (rounds : ℕ) (site : Frame) (w : World p)
        → j < nr_tasks
        → w.task j ≡ some t
        → w.current ≢ j
        → IsDue p nr_tasks t w.kernel
        → Ends (λ f v. Turn j (awake t) refl (goes f) v) (schedule rounds site w)
    unfolding schedule
    schedule-awake rounds site w lt o ne due =
        Ends-bind (λ _ v. Holds j (awake t) refl v) (λ f v. Turn j (awake t) refl (goes f) v)
          (pick rounds w) (λ k. co_switch_to k site)
          (λ k u e.
            let (h, same) = pick-Wakened j t asleep rounds w lt o due k u e in
            (h, λ x. ne (sym same ∙ x)))
          λ k u h. co_switch_to-Turn j (awake t) refl k site u h

  -- In a well-formed environment in which a coroutine other than the current one sleeps, and the next
  -- NR_TASKS readings of the clock are past its wake-up time, `schedule` returns within the first round of
  -- `pick`: the sleeper runs, and where it is the new current one control goes on at its place.
  pub schedule-Returns :
      (rounds : ℕ) (site : Frame) (w : World p)
      → IsValid w.env
      → w.task j ≡ some t
      → t.status ≡ sleep
      → w.current ≢ j
      → IsDue p nr_tasks t w.kernel
      → Returns (λ f v. Turn j (awake t) refl (goes f) v) (schedule (suc rounds) site w)
  unfolding schedule
  schedule-Returns rounds site w valid o asleep ne due =
      let inside : j < nr_tasks = block-lt j t w valid o in
      Returns.weaken
        (Returns-Ends {P = λ f v. (u : World p) × Switched w u site f v}
          (Returns.bind (λ k. co_switch_to k site) (pick-due j t asleep rounds w valid inside o due)
            λ k u picked.
              Returns.weaken (co_switch_to-Switched w u k site valid picked) λ f v s. (u, s))
          (schedule-awake asleep (suc rounds) site w inside o ne due))
        λ f v (s, turn). turn

  -- A sleeper returns from `co_sleep`. Another coroutine of a linked environment calls `schedule`, from
  -- `start` only if it has ended, when the next NR_TASKS readings of the clock are past the
  -- sleeper's wake-up time, and `schedule` hands over. Then in every run from there that has at
  -- least as many switches as there are slots from the then current one round to the sleeper's,
  -- the sleeper gets its turn after at most that many switches, behind the call of `schedule` in
  -- `co_sleep`, which returns.
  pub schedule-WasCurrent :
      {f : Frame} {v : World p} {d : Control} {u : World p} (rounds : ℕ) (site : Frame)
      (w : World p)
      → IsLinked w.env
      → (site ≡ exiting → (x : Task) → w.task w.current ≡ some x → x.status ≡ exit)
      → w.task j ≡ some t
      → t.status ≡ sleep
      → t.frame ≡ sleeping
      → w.current ≢ j
      → IsDue p nr_tasks t w.kernel
      → schedule rounds site w ≡ ok f v
      → (r : Reach (goes f) v d u) → steps_to v.current j ≤ switches r
      → (was : WasCurrent j (awake t) (steps_to v.current j) (goes f) v d u) × (was.control
          ≡ goes sleeping)
        × ((n : ℕ) → resume n sleeping was.world ≡ ok returns_nothing was.world)
  unfolding resume
  schedule-WasCurrent {f} {v} rounds site w l ends o asleep place ne due e r many =
      let inside : j < nr_tasks = block-lt j t w l.valid o in
      let turn = schedule-awake asleep rounds site w inside o ne due f v e in
      let safe = schedule-IsSafe rounds w site l ends (goes f) v (rw e refl) in
      let was = Turn-WasCurrent j (awake t) refl safe turn r many in
      (was, was.place ∙ ap goes place, λ n. refl)
