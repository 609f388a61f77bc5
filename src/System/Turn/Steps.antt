-- ===== src/System/Turn/Steps.antt =====
-- Every step of the others leaves a coroutine that runs as it is (`Turn`).
use libco_lite.Base.{
  ℕ, ◌<◌, ◌≡◌, ◌≢◌, sym, ap, ◌∙◌, inl, inr, ℤ, is_negative, true, some, List, [], ◌∷◌, arith, ◌==◌,
  ltb, if◌then◌else◌, update_self, update-ne, bit_and, Option-cases, Bool-cases,
}
use libco_lite.Platform.{Platform, EpollEvent, has, ctl_mod}
use libco_lite.Thread.{
  max_fd, running, wait, exit, Call, accepts, reads, writes, Frame, entry, sleeping, joining,
  polling, waiting, exiting, Task, ThreadEnv, World, Run, pure, deref, modify, put_task, and_then,
}
use libco_lite.Thread.Returns.{Returns, returns, Ends, Ends-ok, Ends-fault, Ends-exited, Ends-bind}
use libco_lite.Coroutine.{Control, returns_int, co_create, release, finish}
use libco_lite.Syscall.{event_of, set_wait, proceed, wait_loop, add_queue, blocking}
use libco_lite.Syscall.Add.{Added, add_queue-Added}
use libco_lite.EventLoop.{dispatch, dispatch_all, co_eventloop}
use libco_lite.EventLoop.Dispatch.{
  Dispatched, nobody, dangling, served, matches, dispatch-Dispatched,
}
use libco_lite.System.{
  Request, creates, joins, sleeps, loops, blocks, perform, resume, Allowed, Step, call, ends,
  goes_on,
}
use libco_lite.System.Linked.{IsLive, IsSafe}
use libco_lite.System.Safety.{cleared}
use libco_lite.System.Turn.{
  Holds, Turn, put-Holds, scheduled-Turn, co_join-Turn, co_create-Holds, co_sleep-Turn,
}
use libco_lite.System.Events.{dispatch-IsLive}

module _ {p : Platform} (j : ℕ) (t : Task) (up : t.status ≡ running) where
  proceed-Turn :
      (ask : Call) (fd : ℕ) (w : World p)
      → Holds j t up w
      → Ends (λ c v. Turn j t up c v) (proceed ask fd w)
  unfolding proceed
  proceed-Turn accepts fd w h = Ends-ok (λ c v. Turn j t up c v) (h.0, inl (h.1))
  proceed-Turn (reads len) fd w h = Ends-ok (λ c v. Turn j t up c v) (h.0, inl (h.1))
  proceed-Turn (writes len) fd w h = elim (Option-cases (w.task w.current)) [
    | inl o ↦ rw (o, modify) (Ends-fault (λ c v. Turn j t up c v))
    | inr (x, o) ↦
        let h' = put-Holds j t up w (some (cleared fd x)) h in
        let (ret, k) = p.epoll_ctl w.kernel w.epfd ctl_mod fd ((cleared fd x).events fd).mask in
        rw (o, modify)
          (rw (update_self w.task w.current (some (cleared fd x)), deref)
            (elim (Bool-cases (is_negative ret)) [
              | inl n ↦ rw n (Ends-ok (λ c v. Turn j t up c v) (h'.0, inl (h'.1)))
              | inr n ↦ rw n (Ends-ok (λ c v. Turn j t up c v) (h'.0, inl (h'.1)))
            ]))
  ]

  wait_loop-Turn :
      (rounds : ℕ) (ask : Call) (fd : ℕ) (w : World p)
      → Holds j t up w
      → Ends (λ c v. Turn j t up c v) (wait_loop rounds ask fd w)
  unfolding wait_loop
  wait_loop-Turn rounds ask fd w h = elim (Option-cases (w.task w.current)) [
    | inl o ↦ rw (o, deref) (Ends-fault (λ c v. Turn j t up c v))
    | inr (x, o) ↦
        rw (o, deref)
          (elim (Bool-cases (bit_and (x.revents fd) (event_of ask) == 0)) [
            | inr r ↦ rw r (proceed-Turn ask fd w h)
            | inl r ↦
                let x' = record x { status = wait } in
                rw r (
                  rw (o, modify)
                    (scheduled-Turn j t up rounds (waiting ask fd) (put_task w w.current (some x'))
                      (put-Holds j t up w (some x') h)))
          ])
  ]

  -- A blocking call behind `set_wait`.
  queued-Turn :
      (rounds : ℕ) (ask : Call) (fd : ℕ) (w : World p) (x : Task)
      → Holds j t up w
      → fd < max_fd
      → w.task w.current ≡ some x
      → x.fds_idx < max_fd
      → Ends
          (λ c v. Turn j t up c v)
          (and_then
            (add_queue fd (event_of ask) w)
            (λ ret. if is_negative ret then pure (returns_int ret) else wait_loop rounds ask fd))
  queued-Turn rounds ask fd w x h small here room =
      inside (add_queue-Added w fd (event_of ask) x small here room)
    where
      inside :
          {r : Run p ℤ}
          → Returns (Added w fd (event_of ask)) r
          → Ends
              (λ c v. Turn j t up c v)
              (and_then r (λ ret.
                if is_negative ret then pure (returns_int ret) else wait_loop rounds ask fd))
      inside (returns {a = ret} {w = v} a) =
          let kept : Holds j t up v = (
            ap (λ (e : ThreadEnv p). e.task j) a.env ∙ update-ne w.task w.current _ j (h.1) ∙ h.0,
            λ e. h.1 (sym (ap (λ (x : ThreadEnv p). x.current) a.env) ∙ e),
          ) in
          elim (Bool-cases (is_negative ret)) [
            | inl n ↦ rw n (Ends-ok (λ c v. Turn j t up c v) (kept.0, inl (kept.1)))
            | inr n ↦ rw n (wait_loop-Turn rounds ask fd v kept)
          ]

  blocking-Turn :
      (rounds : ℕ) (ask : Call) (fd : ℕ) (w : World p) (x : Task)
      → Holds j t up w
      → fd < max_fd
      → w.task w.current ≡ some x
      → x.fds_idx < max_fd
      → Ends (λ c v. Turn j t up c v) (blocking rounds ask fd w)
  unfolding blocking set_wait
  blocking-Turn rounds accepts fd w x h small here room =
      queued-Turn rounds accepts fd w x h small here room
  blocking-Turn rounds (reads len) fd w x h small here room =
      let x' = record x { status = wait } in
      rw (here, modify)
        (queued-Turn rounds (reads len) fd (put_task w w.current (some x')) x'
          (put-Holds j t up w (some x') h) small (update_self w.task w.current (some x')) room)
  blocking-Turn rounds (writes len) fd w x h small here room =
      let x' = record x { status = wait } in
      rw (here, modify)
        (queued-Turn rounds (writes len) fd (put_task w w.current (some x')) x'
          (put-Holds j t up w (some x') h) small (update_self w.task w.current (some x')) room)

  -- A coroutine that runs is on no queue, and no event is for it.
  dispatch-Holds :
      (ev : EpollEvent) (w : World p)
      → IsLive w.env
      → Holds j t up w
      → Ends (λ _ v. Holds j t up v) (dispatch ev w)
  unfolding dispatch
  dispatch-Holds ev w l h = elim (Bool-cases (ltb ev.fd max_fd)) [
    | inr x ↦ rw x (Ends-fault (λ _ v. Holds j t up v))
    | inl x ↦ by_outcome (dispatch-Dispatched w ev (ground arith))
  ]
    where
      apart : (k : ℕ) (rest : List ℕ) → p.contents w.block_queue ev.fd ≡ k ∷ rest → k ≢ j
      apart k rest e same =
          let on : has k (p.contents w.block_queue ev.fd) ≡ true = rw e (ground arith) in
          let (x, f, s) = l.linked.queued ev.fd k on in absurd (ground (arith, h.0, ap w.task same))

      by_outcome : {r : Run p (Unit {0})} → Dispatched w ev r → Ends (λ _ v. Holds j t up v) r
      by_outcome (nobody e f) = rw f (Ends-fault (λ _ v. Holds j t up v))
      by_outcome (dangling k rest e o f) = rw f (Ends-fault (λ _ v. Holds j t up v))
      by_outcome (served k rest x v e o f kernel env_eq out) =
          let ne = apart k rest e in
          rw f (
            Ends-ok (λ _ v. Holds j t up v)
              (
                ap (λ (y : ThreadEnv p). y.task j) env_eq ∙ (elim (Bool-cases (matches ev x)) [
                  | inl m ↦ rw m (update-ne w.task k _ j ne ∙ h.0)
                  | inr m ↦ rw m (h.0)
                ]),
                λ y. h.1 (sym (ap (λ (x : ThreadEnv p). x.current) env_eq) ∙ y),
              ))

  pub dispatch_all-Holds :
      (evs : List EpollEvent) (w : World p)
      → IsLive w.env
      → Holds j t up w
      → Ends (λ _ v. Holds j t up v) (dispatch_all evs w)
  unfolding dispatch_all
  dispatch_all-Holds [] w l h = Ends-ok (λ _ v. Holds j t up v) h
  dispatch_all-Holds (ev ∷ evs) w l h =
      Ends-bind (λ _ v. Holds j t up v × IsLive v.env) (λ _ v. Holds j t up v) (dispatch ev w)
        (λ _. dispatch_all evs)
        (λ a v e. (dispatch-Holds ev w l h a v e, dispatch-IsLive w ev l a v e))
        λ _ v (h', l'). dispatch_all-Holds evs v l' h'

  co_eventloop-Turn :
      (rounds : ℕ) (w : World p)
      → IsLive w.env
      → Holds j t up w
      → Ends (λ c v. Turn j t up c v) (co_eventloop rounds w)
  unfolding co_eventloop
  co_eventloop-Turn rounds w l h = elim (Option-cases (p.epoll_wait w.kernel w.epfd 1024).0) [
    | inl e ↦ rw (e, co_eventloop) (Ends-exited (λ c v. Turn j t up c v) 1)
    | inr (evs, e) ↦
        rw (e, co_eventloop)
          (Ends-bind (λ _ v. Holds j t up v) (λ c v. Turn j t up c v)
            (dispatch_all evs (record w { kernel = (p.epoll_wait w.kernel w.epfd 1024).1 })) _
            (dispatch_all-Holds evs _ l h) λ _ v h'. scheduled-Turn j t up rounds polling v h')
  ]

  resume-Turn :
      (rounds : ℕ) (f : Frame) (w : World p)
      → IsLive w.env
      → Holds j t up w
      → Ends (λ c v. Turn j t up c v) (resume rounds f w)
  unfolding resume
  resume-Turn rounds entry w l h = Ends-ok (λ c v. Turn j t up c v) (h.0, inl (h.1))
  resume-Turn rounds sleeping w l h = Ends-ok (λ c v. Turn j t up c v) (h.0, inl (h.1))
  resume-Turn rounds (joining cid) w l h = co_join-Turn j t up rounds cid w h
  resume-Turn rounds polling w l h = co_eventloop-Turn rounds w l h
  resume-Turn rounds (waiting ask fd) w l h = wait_loop-Turn rounds ask fd w h
  resume-Turn rounds exiting w l h = Ends-exited (λ c v. Turn j t up c v) 255

  perform-Turn :
      (rounds : ℕ) (req : Request) (w : World p)
      → IsLive w.env
      → Allowed w req
      → Holds j t up w
      → Ends (λ c v. Turn j t up c v) (perform rounds req w)
  unfolding perform
  perform-Turn rounds (creates co_fn arg) w l a h =
      Ends-bind (λ _ v. Holds j t up v) (λ c v. Turn j t up c v) (co_create co_fn arg w)
        (λ (ret, cid). pure (returns_int ret)) (co_create-Holds j t up co_fn arg w l h)
        λ (ret, cid) v (e, ne). Ends-ok (λ c v. Turn j t up c v) (e, inl ne)
  perform-Turn rounds (joins cid) w l a h = co_join-Turn j t up rounds cid w h
  perform-Turn rounds (sleeps seconds) w l a h = co_sleep-Turn j t up rounds seconds w h l
  perform-Turn rounds loops w l a h = co_eventloop-Turn rounds w l h
  perform-Turn rounds (blocks ask fd) w l a h = elim (Option-cases (w.task w.current)) [
    | inl o ↦ absurd (ground (arith, l.linked.valid.current_live))
    | inr (x, o) ↦ blocking-Turn rounds ask fd w x h (a.0) o (a.1 x o)
  ]

  finish-Turn :
      (rounds : ℕ) (w : World p) (x : Task)
      → Holds j t up w
      → w.task w.current ≡ some x
      → x.fds_idx ≡ 0
      → Ends (λ c v. Turn j t up c v) (finish rounds w)
  unfolding finish release
  finish-Turn rounds w x h o z =
      rw (o, modify)
        (rw (update_self w.task w.current (some (record x { status = exit })), deref)
          (rw (z, release)
            (scheduled-Turn j t up rounds exiting
              (put_task w w.current (some (record x { status = exit; fds_idx = 0 })))
              (put-Holds j t up w (some (record x { status = exit; fds_idx = 0 })) h))))

  -- A step of another coroutine leaves the block of one that runs as it is; if that one becomes
  -- current by it, control goes on at its place.
  pub Step-Turn :
      {c c' : Control} {w w' : World p}
      → IsSafe c w
      → Holds j t up w
      → Step c w c' w'
      → Turn j t up c' w'
  Step-Turn {w} s h (call rounds req u a e) = perform-Turn rounds req w s.live a h _ _ e
  Step-Turn {w} s h (ends rounds x u m o z e) = finish-Turn rounds w x h o z _ _ e
  Step-Turn {w} s h (goes_on rounds f g e) = resume-Turn rounds f w s.live h _ _ e
