-- ===== src/System/Safety.antt =====
-- No run of a thread's coroutines comes back to a coroutine that has ended.
use libco_lite.Base.{
  ℕ, ◌≡◌, ◌≢◌, refl, ap, ◌∙◌, inl, inr, ℤ, is_negative, some, arith, ◌==◌, update, update_self,
  bit_and, Bool-cases, Option-cases,
}
use libco_lite.Platform.{Platform, ctl_mod}
use libco_lite.Thread.{
  epollout, exit, wait, Call, accepts, reads, writes, Frame, entry, sleeping, joining, polling,
  waiting, exiting, Task, World, pure, deref, modify,
}
use libco_lite.Thread.Returns.{Ends, Ends-ok, Ends-bind}
use libco_lite.Coroutine.{Control, returns_int, returns_nothing, goes, release, finish}
use libco_lite.Syscall.{complement, event_of, proceed, wait_loop}
use libco_lite.System.{
  Request, creates, joins, sleeps, loops, blocks, perform, resume, Allowed, Step, call, ends,
  goes_on, Reach, here, step, outside,
}
use libco_lite.System.Linked.{IsLive, IsSafe}
use libco_lite.System.Preserve.{put-IsLinked, put-IsLive}
use libco_lite.System.Events.{schedule-IsSafe, co_eventloop-IsSafe}
use libco_lite.System.Calls.{co_create-IsLive, co_join-IsSafe, co_sleep-IsSafe, blocking-IsSafe}

-- The block of a task that goes on to `write`.
abbrev pub cleared : ℕ → Task → Task
cleared fd t = record t {
  events =
      update t.events fd
        (record { fd = (t.events fd).fd; mask = bit_and (t.events fd).mask (complement epollout) });
  revents = update t.revents fd (bit_and (t.revents fd) (complement epollout));
}

module _ {p : Platform} where
  returned : (n : ℤ) {v : World p} → IsLive v.env → IsSafe (returns_int n) v
  returned n l = record { live = l; returns = λ x. cc }

  nothing : {v : World p} → IsLive v.env → IsSafe returns_nothing v
  nothing l = record { live = l; returns = λ x. cc }

  perform-IsSafe :
      (rounds : ℕ) (req : Request) (w : World p)
      → IsLive w.env
      → Allowed w req
      → Ends IsSafe (perform rounds req w)
  unfolding perform
  perform-IsSafe rounds (creates co_fn arg) w l a =
      Ends-bind (λ _ v. IsLive v.env) IsSafe _ (λ (ret, cid). pure (returns_int ret))
        (co_create-IsLive co_fn arg w l) λ (ret, cid) v k. Ends-ok IsSafe (returned ret k)
  perform-IsSafe rounds (joins cid) w l a = co_join-IsSafe rounds cid w l
  perform-IsSafe rounds (sleeps seconds) w l a =
      Ends-bind (λ f v. IsSafe (goes f) v) IsSafe _ (λ f. pure (goes f))
        (co_sleep-IsSafe rounds seconds w l) λ f v k. Ends-ok IsSafe k
  perform-IsSafe rounds loops w l a = co_eventloop-IsSafe rounds w l
  perform-IsSafe rounds (blocks c fd) w l a = blocking-IsSafe rounds c fd w l a.0 a.1

  proceed-IsSafe : (c : Call) (fd : ℕ) (w : World p) → IsLive w.env → Ends IsSafe (proceed c fd w)
  unfolding proceed
  proceed-IsSafe accepts fd w l = Ends-ok IsSafe (returned _ l)
  proceed-IsSafe (reads len) fd w l = Ends-ok IsSafe (returned _ l)
  proceed-IsSafe (writes len) fd w l = elim (Option-cases (w.task w.current)) [
    | inl o ↦ absurd (ground (arith, l.linked.valid.current_live))
    | inr (t, o) ↦
        let l' = put-IsLive w.env t (cleared fd t) l o refl refl (l.alive t o) in
        let (ret, k) = p.epoll_ctl w.kernel w.epfd ctl_mod fd ((cleared fd t).events fd).mask in
        rw (o, modify)
          (rw (update_self w.task w.current (some (cleared fd t)), deref)
            (elim (Bool-cases (is_negative ret)) [
              | inl n ↦ rw n (Ends-ok IsSafe (returned ret l'))
              | inr n ↦ rw n (Ends-ok IsSafe (returned _ l'))
            ]))
  ]

  wait_loop-IsSafe :
      (rounds : ℕ) (c : Call) (fd : ℕ) (w : World p)
      → IsLive w.env
      → Ends IsSafe (wait_loop rounds c fd w)
  unfolding wait_loop
  wait_loop-IsSafe rounds c fd w l = elim (Option-cases (w.task w.current)) [
    | inl o ↦ absurd (ground (arith, l.linked.valid.current_live))
    | inr (t, o) ↦
        rw (o, deref)
          (elim (Bool-cases (bit_and (t.revents fd) (event_of c) == 0)) [
            | inr r ↦ rw r (proceed-IsSafe c fd w l)
            | inl r ↦ rw r (
                rw (o, modify)
                  (schedule-IsSafe rounds _ (waiting c fd)
                    (put-IsLinked w.env t (record t { status = wait }) l o refl refl) (λ x. cc)))
          ])
  ]

  resume-IsSafe :
      (rounds : ℕ) (f : Frame) (w : World p)
      → IsLive w.env
      → f ≢ exiting
      → Ends IsSafe (resume rounds f w)
  unfolding resume
  resume-IsSafe rounds entry w l h = Ends-ok IsSafe (nothing l)
  resume-IsSafe rounds sleeping w l h = Ends-ok IsSafe (nothing l)
  resume-IsSafe rounds (joining cid) w l h = co_join-IsSafe rounds cid w l
  resume-IsSafe rounds polling w l h = co_eventloop-IsSafe rounds w l
  resume-IsSafe rounds (waiting c fd) w l h = wait_loop-IsSafe rounds c fd w l
  resume-IsSafe rounds exiting w l h = absurd (h refl)

  finish-IsSafe :
      (rounds : ℕ) (w : World p) (t : Task)
      → IsLive w.env
      → w.task w.current ≡ some t
      → t.fds_idx ≡ 0
      → Ends IsSafe (finish rounds w)
  unfolding finish release
  finish-IsSafe rounds w t l o z =
      let ended = update_self w.task w.current (some (record t { status = exit })) in
      rw (o, modify)
        (rw (ended, deref)
          (rw (z, release)
            (schedule-IsSafe rounds _ exiting
              (put-IsLinked w.env t (record t { status = exit; fds_idx = 0 }) l o refl refl)
              (λ x t' f. ground (
                arith,
                update_self w.task w.current (some (record t { status = exit; fds_idx = 0 })),
              )))))

  -- Each step keeps the invariant.
  pub Step-IsSafe : {c c' : Control} {w w' : World p} → Step c w c' w' → IsSafe c w → IsSafe c' w'
  Step-IsSafe {w} (call rounds req u a e) s = perform-IsSafe rounds req w s.live a _ _ e
  Step-IsSafe {w} (ends rounds t u m o z e) s = finish-IsSafe rounds w t s.live o z _ _ e
  Step-IsSafe {w} (goes_on rounds f g e) s =
      resume-IsSafe rounds f w s.live (λ x. s.returns (g ∙ ap goes x)) _ _ e

  -- Along every run from a safe configuration, in which coroutines wait on descriptors within MAX_FD
  -- with room in `fds` and return only with none of them registered: the environment stays
  -- well-formed, a coroutine on a block queue waits, and is there once and on no other queue, the
  -- current one is on none and has not ended, and control never comes back to the end of `start`.
  pub Reach-IsSafe :
      {c : Control} {w : World p} {d : Control} {v : World p}
      → IsSafe c w
      → Reach c w d v
      → IsSafe d v
  Reach-IsSafe s here = s
  Reach-IsSafe s (step r st) = Step-IsSafe st (Reach-IsSafe s r)
  Reach-IsSafe s (outside r k) =
      let safe = Reach-IsSafe s r in record { live = safe.live; returns = safe.returns }
