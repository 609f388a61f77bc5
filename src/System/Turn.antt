-- ===== src/System/Turn.antt =====
-- What the others do to a coroutine that runs and has not got its turn: nothing, until it is current
-- again and goes on where it was.
pub mod Steps
pub mod Woken
use libco_lite.Base.{
  ℕ, ◌+◌, ◌-◌, ◌<◌, ◌≡◌, ◌≢◌, refl, sym, subst, ap, ◌∙◌, ◌⊎◌, inl, inr, ℤ, is_negative, true, false,
  none, some, List, [], ◌∷◌, arith, ◌==◌, ltb, if◌then◌else◌, update, update_self, update-ne,
  is_some, bit_and, Option, Option-cases, Bool-cases, pos,
}
use libco_lite.Platform.{Platform, EpollEvent, has, ctl_mod}
use libco_lite.Thread.{
  nr_tasks, max_fd, Status, running, sleep, wait, exit, Call, accepts, reads, writes, Frame, entry,
  sleeping, joining, polling, waiting, exiting, Task, Table, ThreadEnv, World, Run, ok, pure, deref,
  modify, set_env, put_task, and_then, is_exit,
}
use libco_lite.Thread.Returns.{Returns, returns, Ends, Ends-ok, Ends-fault, Ends-exited, Ends-bind}
use libco_lite.Sched.{pick, co_switch_to, schedule, co_sleep}
use libco_lite.Sched.Due.{Punctual, pick-Punctual}
use libco_lite.Sched.Sleep.{asleep, co_sleep-cases}
use libco_lite.Coroutine.{
  Control, returns_int, returns_nothing, goes, co_create, co_join, release, finish,
}
use libco_lite.Coroutine.Create
use libco_lite.Coroutine.Create.{Created, co_create-Created}
use libco_lite.Syscall.{event_of, set_wait, proceed, wait_loop, add_queue, blocking}
use libco_lite.Syscall.Add.{Added, add_queue-Added}
use libco_lite.EventLoop.{dispatch, dispatch_all, co_eventloop}
use libco_lite.EventLoop.Dispatch.{
  Dispatched, nobody, dangling, served, notified, matches, dispatch-Dispatched,
}
use libco_lite.System.{
  Request, creates, joins, sleeps, loops, blocks, perform, resume, Allowed, Step, call, ends,
  goes_on,
}
use libco_lite.System.Linked.{IsLive, IsSafe}
use libco_lite.System.Safety.{cleared}

module _ {p : Platform} (j : ℕ) (t : Task) (up : t.status ≡ running) where
  -- The block of `j` is `t`, and `j` is not current.
  abbrev pub Holds : World p → Type 0
  Holds w = (w.task j ≡ some t) × (w.current ≢ j)

  -- The block of `j` is `t`; where `j` is current, control goes on at its place.
  abbrev pub Turn : Control → World p → Type 0
  Turn c v = (v.task j ≡ some t) × ((v.current ≢ j) ⊎ ((v.current ≡ j) × (c ≡ goes t.frame)))

  pub stays : (c : Control) (w : World p) → Holds w → Turn c w
  stays c w (e, ne) = (e, inl ne)

  pub put-Holds : (w : World p) (o : Option Task) → Holds w → Holds (put_task w w.current o)
  put-Holds w o (e, ne) = (update-ne w.task w.current o j ne ∙ e, ne)

  pub co_switch_to-Turn :
      (k : ℕ) (site : Frame) (w : World p)
      → Holds w
      → Ends (λ f v. Turn (goes f) v) (co_switch_to k site w)
  unfolding co_switch_to
  co_switch_to-Turn k site w h = elim (Bool-cases (w.current == k)) [
    | inl e ↦ rw e (Ends-ok (λ f v. Turn (goes f) v) (stays (goes site) w h))
    | inr e ↦ rw e (elim (Option-cases (w.task w.current)) [
      | inl o ↦ rw (o, modify) (Ends-fault (λ f v. Turn (goes f) v))
      | inr (c, o) ↦
          let c' = record c { frame = site } in
          let (kept, ne) = put-Holds w (some c') h in
          rw (o, modify)
            (elim (Option-cases (update w.task w.current (some c') k)) [
              | inl q ↦ rw (q, deref) (Ends-fault (λ f v. Turn (goes f) v))
              | inr (x, q) ↦
                  rw (q, deref)
                    (Ends-ok (λ f v. Turn (goes f) v)
                      (
                        kept,
                        elim (Bool-cases (k == j)) [
                          | inr y ↦ inl (ground arith)
                          | inl y ↦
                              let kj : k ≡ j = ground arith in
                              let same : x ≡ t = cc (kept, q, kj) in
                              inr (kj, ap (λ (y : Task). goes y.frame) same)
                        ],
                      ))
            ])
    ])
  ]

  pub schedule-Turn :
      (rounds : ℕ) (site : Frame) (w : World p)
      → Holds w
      → Ends (λ f v. Turn (goes f) v) (schedule rounds site w)
  unfolding schedule
  schedule-Turn rounds site w h =
      Ends-bind (λ _ u. Punctual p w u) (λ f v. Turn (goes f) v) (pick rounds w)
        (λ k. co_switch_to k site) (pick-Punctual p rounds w)
        λ k u a. co_switch_to-Turn k site u (picked u a)
    where
      picked : (u : World p) → Punctual p w u → Holds u
      picked u a = (
        elim (a.slots j) [
          | inl same ↦ same ∙ h.0
          | inr (x, e, asleep, f, late) ↦ absurd (ground arith)
        ],
        λ e. h.1 (sym a.same_current ∙ e),
      )

  -- `schedule`, and then control goes on.
  pub scheduled-Turn :
      (rounds : ℕ) (site : Frame) (w : World p)
      → Holds w
      → Ends (λ c v. Turn c v) (and_then (schedule rounds site w) (λ f. pure (goes f)))
  scheduled-Turn rounds site w h =
      Ends-bind (λ f v. Turn (goes f) v) (λ c v. Turn c v) (schedule rounds site w)
        (λ f. pure (goes f)) (schedule-Turn rounds site w h) λ f v x. Ends-ok (λ c v. Turn c v) x

  pub co_join-Turn :
      (rounds cid : ℕ) (w : World p) → Holds w → Ends (λ c v. Turn c v) (co_join rounds cid w)
  unfolding co_join
  co_join-Turn rounds cid w h = elim (Option-cases (w.task cid)) [
    | inl o ↦ rw (o, deref) (Ends-fault (λ c v. Turn c v))
    | inr (x, o) ↦
        rw (o, deref)
          (elim (Bool-cases (is_exit x.status)) [
            | inr e ↦ rw e (scheduled-Turn rounds (joining cid) w h)
            | inl e ↦
                let apart : cid ≢ j = λ y. absurd (ground (arith, h.0, ap w.task y)) in
                rw e
                  (Ends-ok (λ c v. Turn c v) (update-ne w.task cid none j apart ∙ h.0, inl (h.1)))
          ])
  ]

  pub co_create-Holds :
      (co_fn arg : ℕ) (w : World p)
      → IsLive w.env
      → Holds w
      → Ends (λ _ v. Holds v) (co_create co_fn arg w)
  co_create-Holds co_fn arg w l h = by_outcome (co_create-Created w co_fn arg l.linked.valid)
    where
      by_outcome : {r : Run p (ℤ × Option ℕ)} → Created w co_fn arg r → Ends (λ _ v. Holds v) r
      by_outcome (Create.full all e) = rw e (Ends-ok (λ _ v. Holds v) h)
      by_outcome (Create.no_memory c e) = rw e (Ends-fault (λ _ v. Holds v))
      by_outcome (Create.made id v lt free first e env_eq valid) =
          let apart : id ≢ j = λ y. absurd (ground (arith, free, h.0, ap w.task y)) in
          rw e (
            Ends-ok (λ _ u. Holds u)
              (
                ap (λ (x : ThreadEnv p). x.task j) env_eq ∙ update-ne w.task id _ j apart ∙ h.0,
                λ y. h.1 (sym (ap (λ (x : ThreadEnv p). x.current) env_eq) ∙ y),
              ))

  pub co_sleep-Turn :
      (rounds seconds : ℕ) (w : World p)
      → Holds w
      → IsLive w.env
      → Ends (λ c v. Turn c v) (and_then (co_sleep rounds seconds w) (λ f. pure (goes f)))
  co_sleep-Turn rounds seconds w h l = elim (Option-cases (w.task w.current)) [
    | inl o ↦ absurd (ground (arith, l.linked.valid.current_live))
    | inr (x, o) ↦ elim (co_sleep-cases rounds seconds w x o) [
      | inl over ↦ rw over (Ends-fault (λ c v. Turn c v))
      | inr e ↦ rw e (
          scheduled-Turn rounds sleeping (asleep seconds x w)
            (update-ne w.task w.current _ j (h.1) ∙ h.0, h.1))
    ]
  ]
