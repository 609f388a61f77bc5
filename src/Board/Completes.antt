-- ===== src/Board/Completes.antt =====
-- A blocking call completes: from the event that `co_eventloop` (src/coeventloop.c) gets for its
-- descriptor to the system call behind `while(!(current->revents[fd] & ...))` (src/cosyscall.c).
mod Examples
use libco_lite.Base.{
  ℕ, ℤ, is_negative, ◌≤◌, ◌<◌, ◌≡◌, ◌≢◌, refl, sym, ap, ◌∙◌, ◌⊎◌, inl, inr, Bool, true, false,
  Option, none, some, List, [], ◌∷◌, ◌++◌, ◌||◌, arith, ◌==◌, ltb, if◌then◌else◌, update,
  update_self, update-ne, bit_and, Bool-cases, Option-cases,
}
use libco_lite.Platform.{Platform, EpollEvent, ctl_mod, has}
use libco_lite.Thread.{
  max_fd, nr_tasks, epollout, running, Call, accepts, reads, writes, Frame, polling, waiting, Watch,
  Task, ThreadEnv, World, Run, ok, fault, pure, deref, and_then, modify, put_task,
}
use libco_lite.Thread.Returns.{Ends, Ends-ok, Ends-fault, Ends-exited, Ends-bind}
use libco_lite.Sched.{schedule}
use libco_lite.Sched.Scan.{steps_to}
use libco_lite.Coroutine.{Control, returns_int, goes}
use libco_lite.Syscall.{complement, event_of, proceed, wait_loop}
use libco_lite.EventLoop.{dispatch, dispatch_all, co_eventloop}
use libco_lite.EventLoop.Dispatch.{
  Dispatched, nobody, dangling, served, notified, matches, dispatch-Dispatched,
}
use libco_lite.System.{resume, Reach, here}
use libco_lite.System.Linked.{IsLive, IsSafe}
use libco_lite.System.Events.{dispatch-IsLive, dispatch_all-IsLive, co_eventloop-IsSafe}
use libco_lite.System.Turn.{Holds, Turn, scheduled-Turn}
use libco_lite.System.Turn.Steps.{dispatch_all-Holds}
use libco_lite.Board.Fair.{WasCurrent, Turn-WasCurrent}
use libco_lite.Board.Nearer.{switches}
use libco_lite.System.Turn.Woken.{mentions, co_eventloop-Woken}

-- The block behind `current->events[fd].events &= ~EPOLLOUT; current->revents[fd] &= ~EPOLLOUT` of
-- `co_write`.
abbrev pub cleared : ℕ → Task → Task
cleared fd t = record t {
  events =
      update t.events fd
        (record { fd = (t.events fd).fd; mask = bit_and (t.events fd).mask (complement epollout) });
  revents = update t.revents fd (bit_and (t.revents fd) (complement epollout));
}

-- A call from world `w` on makes the system call that is asked for, and returns its result. `co_write`
-- first takes EPOLLOUT out of the block and of the mask that `epoll_ctl` is given, and returns that
-- call's error where it fails, without writing.
pub data Calls {p : Platform} (fd : ℕ) (w : World p) (r : Run p Control) : Call → Type 0 where
  accepted :
      (ret : ℤ) (k : p.Kernel)
      → p.accept w.kernel fd ≡ (ret, k)
      → r ≡ ok (returns_int ret) (record w { kernel = k })
      → Calls fd w r accepts
  has_read :
      (len : ℕ) (ret : ℤ) (k : p.Kernel)
      → p.read w.kernel fd len ≡ (ret, k)
      → r ≡ ok (returns_int ret) (record w { kernel = k })
      → Calls fd w r (reads len)
  unmasked :
      (len : ℕ) (t : Task) (ret : ℤ) (k : p.Kernel)
      → w.task w.current ≡ some t
      → p.epoll_ctl w.kernel w.epfd ctl_mod fd ((cleared fd t).events fd).mask ≡ (ret, k)
      → is_negative ret ≡ true
      → r
        ≡ ok (returns_int ret) (record (put_task w w.current (some (cleared fd t))) { kernel = k })
      → Calls fd w r (writes len)
  written :
      (len : ℕ) (t : Task) (made ret : ℤ) (k k' : p.Kernel)
      → w.task w.current ≡ some t
      → p.epoll_ctl w.kernel w.epfd ctl_mod fd ((cleared fd t).events fd).mask ≡ (made, k)
      → is_negative made ≡ false
      → p.write k fd len ≡ (ret, k')
      → r
        ≡ ok (returns_int ret) (record (put_task w w.current (some (cleared fd t))) { kernel = k' })
      → Calls fd w r (writes len)

-- `j` gets its turn on the way of a run, within `m` switches, and makes its system call.
pub record Completes {p : Platform} (ask : Call) (fd j : ℕ) (t : Task) (m : ℕ) (c : Control)
    (w : World p) (d : Control) (v : World p) : Type 0 where
  pub was : WasCurrent j t m c w d v
  pub inside : was.control ≡ goes (waiting ask fd)
  pub calls : (n : ℕ) → Calls fd was.world (resume n (waiting ask fd) was.world) ask

module _ {p : Platform} where
  -- Behind `schedule`, with the event noted, the loop ends.
  noted-proceeds :
      (ask : Call) (ev : EpollEvent) (t : Task) (w : World p) (n : ℕ)
      → w.task w.current ≡ some (notified ev t)
      → (bit_and ev.events (event_of ask) == 0) ≡ false
      → resume n (waiting ask ev.fd) w ≡ proceed ask ev.fd w
  unfolding resume wait_loop
  noted-proceeds ask ev t w n o met =
      rw (o, deref) (rw (update_self t.revents ev.fd ev.events, met) refl)

  proceed-Calls :
      (ask : Call) (fd : ℕ) (t : Task) (w : World p)
      → w.task w.current ≡ some t
      → Calls fd w (proceed ask fd w) ask
  unfolding proceed
  proceed-Calls accepts fd t w o = accepted _ _ refl refl
  proceed-Calls (reads len) fd t w o = has_read len _ _ refl refl
  proceed-Calls (writes len) fd t w o =
      let mask = ((cleared fd t).events fd).mask in
      let made = (p.epoll_ctl w.kernel w.epfd ctl_mod fd mask).0 in
      rw (o, modify)
        (rw (update_self w.task w.current (some (cleared fd t)), deref)
          (elim (Bool-cases (is_negative made)) [
            | inl n ↦ rw n (unmasked len t _ _ o refl n refl)
            | inr n ↦ rw n (written len t _ _ _ _ o refl n refl refl)
          ]))

  -- A blocking call completes. In a live configuration a coroutine stands first on the queue of a
  -- descriptor, inside a blocking call on it. `co_eventloop` gets a list of events whose first one
  -- on that descriptor is among those the coroutine's mask names and has what the call waits for.
  -- Then in every run from where the loop hands over that has at least as many switches as there are slots
  -- from the then current one round to the coroutine's, the coroutine gets its turn after at most that many
  -- switches, inside that call, with the event noted in its block, and makes the system call from there,
  -- whose result it returns; `co_write` first takes EPOLLOUT out of its mask by `epoll_ctl`, and returns
  -- without writing where that fails.
  pub co_eventloop-Completes :
      {c : Control} {w' : World p} {d : Control} {v : World p} (rounds : ℕ) (ask : Call) (j : ℕ)
      (rest : List ℕ) (t : Task) (before after : List EpollEvent) (ev : EpollEvent) (w : World p)
      → IsLive w.env
      → p.contents w.block_queue ev.fd ≡ j ∷ rest
      → w.task j ≡ some t
      → t.frame ≡ waiting ask ev.fd
      → (p.epoll_wait w.kernel w.epfd 1024).0 ≡ some (before ++ ev ∷ after)
      → mentions ev.fd before ≡ false
      → (bit_and (t.events ev.fd).mask ev.events == 0) ≡ false
      → (bit_and ev.events (event_of ask) == 0) ≡ false
      → co_eventloop rounds w ≡ ok c w'
      → (r : Reach c w' d v) → steps_to w'.current j ≤ switches r
      → Completes ask ev.fd j (notified ev t) (steps_to w'.current j) c w' d v
  co_eventloop-Completes {c} {w'} rounds ask j rest t before after ev w l q o place got first wanted
        met e r many =
      let turn =
        co_eventloop-Woken ev j t rest wanted rounds before after w got first l (o, q) c w' e in
      let safe = co_eventloop-IsSafe rounds w l c w' e in
      let was = Turn-WasCurrent j (notified ev t) refl safe turn r many in
      record {
        was = was;
        inside = was.place ∙ ap goes place;
        calls = λ n.
            let own = ap was.world.task was.turn ∙ was.block in
            rw (noted-proceeds ask ev t was.world n own met)
              (proceed-Calls ask ev.fd (notified ev t) was.world own);
      }
