-- ===== src/EventLoop.antt =====
-- src/coeventloop.c: the loop that turns ready descriptors into running coroutines.
pub mod Dispatch
use libco_lite.Base.{
  ℕ, Bool, true, false, Option, none, some, List, [], ◌∷◌, ◌==◌, ltb, bit_and, if◌then◌else◌,
  update,
}
use libco_lite.Platform.{Platform, EpollEvent}
use libco_lite.Thread.{
  max_fd, Status, running, Frame, polling, Task, World, Run, ok, exited, fault, Cmd, and_then,
  ◌>>=◌, ◌>>◌, pure, deref, set_env, put_task, modify, gets,
}
use libco_lite.Sched.{schedule}
use libco_lite.Coroutine.{Control, goes}

module _ {p : Platform} where
  -- The body of the `for` loop. With nobody on the descriptor's queue `tsk` is NULL, and
  -- TAILQ_REMOVE reads through it.
  unfoldable pub dispatch : EpollEvent → Cmd p (Unit {0})
  dispatch ev w =
      if ltb ev.fd max_fd
      then elim (p.tailq_first w.block_queue ev.fd) [
        | none ↦ fault
        | some tsk ↦
            (do
              λ v. ok tt (
                  set_env v
                    (record (v.env) { block_queue = p.tailq_remove v.block_queue ev.fd tsk }))
              t ← deref tsk
              if bit_and (t.events ev.fd).mask ev.events == 0
                  then pure tt
                  else modify tsk (λ s. record s {
                    status = running;
                    revents = update s.revents ev.fd ev.events;
                  }))
              w
      ]
      else fault

  unfoldable pub dispatch_all : List EpollEvent → Cmd p (Unit {0})
  dispatch_all [] = pure tt
  dispatch_all (ev ∷ evs) = dispatch ev >> dispatch_all evs

  -- One round of `while(1)`. With no event the code goes to `schedule` too, by `continue`.
  unfoldable pub co_eventloop : (rounds : ℕ) → Cmd p Control
  unfolding dispatch_all
  co_eventloop rounds w =
      let (ready, k) = p.epoll_wait w.kernel w.epfd 1024 in
      elim ready [
        | none ↦ exited 1
        | some evs ↦
            (do dispatch_all evs; f ← schedule rounds polling; pure (goes f))
              (record w { kernel = k })
      ]
