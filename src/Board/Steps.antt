-- ===== src/Board/Steps.antt =====
-- Every step of a thread's coroutines as moves on a board.
use libco_lite.Base.{ℕ, ◌≡◌, ◌≢◌, refl, ap, ◌∙◌, inl, inr, some, arith, update_self, Option-cases}
use libco_lite.Platform.{Platform}
use libco_lite.Thread.{
  exit, Frame, entry, sleeping, joining, polling, waiting, exiting, Task, World, pure, deref,
  modify, put_task,
}
use libco_lite.Thread.Returns.{Ends, Ends-ok, Ends-bind}
use libco_lite.Thread.Valid.{put-IsValid}
use libco_lite.Coroutine.{Control, returns_int, goes, release, finish}
use libco_lite.System.{
  Request, creates, joins, sleeps, loops, blocks, perform, resume, Allowed, Step, call, ends,
  goes_on,
}
use libco_lite.System.Linked.{IsLive, IsSafe}
use libco_lite.Board.{view, Quiets, none_yet, and_then, Refines}
use libco_lite.Board.Refine.{schedule-Refines}
use libco_lite.Board.Commands.{
  put-Quiet, co_create-Quiets, co_join-Refines, co_sleep-Refines, co_eventloop-Refines,
}
use libco_lite.Board.Blocking.{wait_loop-Refines, blocking-Refines}

module _ {p : Platform} where
  -- The block of the current coroutine.
  abbrev Here : World p → Type 0
  Here w = (t : Task) × (w.task w.current ≡ some t)

  Here-live : (w : World p) → IsLive w.env → Here w
  Here-live w l = elim (Option-cases (w.task w.current)) [
    | inl o ↦ absurd (ground (arith, l.linked.valid.current_live))
    | inr s ↦ s
  ]

  perform-Refines :
      (rounds : ℕ) (req : Request) (w : World p)
      → IsLive w.env
      → Allowed w req
      → Ends (λ c v. Refines c (view w) (view v)) (perform rounds req w)
  unfolding perform
  perform-Refines rounds (creates co_fn arg) w l a =
      Ends-bind (λ _ v. Quiets (view w) (view v)) (λ c v. Refines c (view w) (view v)) _
        (λ (ret, cid). pure (returns_int ret))
        (co_create-Quiets (view w) co_fn arg w none_yet l.linked.valid)
        λ (ret, cid) v q. Ends-ok (λ c v. Refines c (view w) (view v)) q
  perform-Refines rounds (joins cid) w l a =
      co_join-Refines (view w) rounds cid w none_yet l.linked.valid
  perform-Refines rounds (sleeps seconds) w l a =
      let (t, o) = Here-live w l in
      co_sleep-Refines (view w) rounds seconds w t none_yet l.linked.valid o
  perform-Refines rounds loops w l a = co_eventloop-Refines (view w) rounds w none_yet l
  perform-Refines rounds (blocks c fd) w l a =
      let (t, o) = Here-live w l in
      blocking-Refines (view w) rounds c fd w t none_yet l a.0 o (a.1 t o)

  resume-Refines :
      (rounds : ℕ) (f : Frame) (w : World p)
      → IsLive w.env
      → f ≢ exiting
      → Ends (λ c v. Refines c (view w) (view v)) (resume rounds f w)
  unfolding resume
  resume-Refines rounds entry w l h = Ends-ok (λ c v. Refines c (view w) (view v)) none_yet
  resume-Refines rounds sleeping w l h = Ends-ok (λ c v. Refines c (view w) (view v)) none_yet
  resume-Refines rounds (joining cid) w l h =
      co_join-Refines (view w) rounds cid w none_yet l.linked.valid
  resume-Refines rounds polling w l h = co_eventloop-Refines (view w) rounds w none_yet l
  resume-Refines rounds (waiting c fd) w l h =
      let (t, o) = Here-live w l in
      wait_loop-Refines (view w) rounds c fd w t none_yet l.linked.valid o
  resume-Refines rounds exiting w l h = absurd (h refl)

  finish-Refines :
      (rounds : ℕ) (w : World p) (t : Task)
      → IsLive w.env
      → w.task w.current ≡ some t
      → t.fds_idx ≡ 0
      → Ends (λ c v. Refines c (view w) (view v)) (finish rounds w)
  unfolding finish release
  finish-Refines rounds w t l o z =
      let t' = record t { status = exit; fds_idx = 0 } in
      let u = put_task w w.current (some t') in
      rw (o, modify)
        (rw (update_self w.task w.current (some (record t { status = exit })), deref)
          (rw (z, release)
            (schedule-Refines (view w) rounds u exiting
              (and_then none_yet (put-Quiet w u t t' o refl))
              (put-IsValid w.env w.current t t' w.block_queue l.linked.valid o refl))))

  -- A step from a safe configuration is, on the board of coroutines, moves of the current coroutine
  -- and of the event loop with no switch, where control comes back to the caller; and such moves
  -- followed by one round-robin switch, where it goes on behind a call of `schedule`.
  pub Step-Refines :
      {c c' : Control} {w w' : World p}
      → IsSafe c w
      → Step c w c' w'
      → Refines c' (view w) (view w')
  Step-Refines {w} s (call rounds req u a e) = perform-Refines rounds req w s.live a _ _ e
  Step-Refines {w} s (ends rounds t u m o z e) = finish-Refines rounds w t s.live o z _ _ e
  Step-Refines {w} s (goes_on rounds f g e) =
      resume-Refines rounds f w s.live (λ x. s.returns (g ∙ ap goes x)) _ _ e
