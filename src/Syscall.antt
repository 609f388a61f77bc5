-- ===== src/Syscall.antt =====
-- src/cosyscall.c: the blocking calls. A descriptor is a number; one that is negative or past
-- MAX_FD is out of the bounds of the arrays that it indexes.
pub mod Add
pub mod Queue
use libco_lite.Base.{
  ℕ, ◌+◌, ◌-◌, ◌^◌, ℤ, pos, is_negative, Bool, true, false, Option, none, some, ◌==◌, ltb, bit_and,
  bit_or, not, if◌then◌else◌, update,
}
use libco_lite.Platform.{Platform, CtlOp, ctl_add, ctl_mod}
use libco_lite.Thread.{
  max_fd, epollin, epollout, wait, Call, accepts, reads, writes, Frame, waiting, Watch, Task,
  ThreadEnv, World, Run, ok, fault, Cmd, and_then, ◌>>=◌, ◌>>◌, pure, deref, set_env, put_task,
  modify, gets,
}
use libco_lite.Sched.{schedule}
use libco_lite.Coroutine.{Control, returns_int, goes}

-- `~m` on 32 bits.
abbrev pub complement : ℕ → ℕ
complement m = 2 ^ 32 - 1 - m

-- `mask & events != mask`: `!=` binds tighter than `&`, so this is bit 0 of the mask where the two
-- differ, and 0 where they do not.
abbrev pub rewatch : (mask events : ℕ) → ℕ
rewatch mask events = bit_and mask (if events == mask then 0 else 1)

-- The event that a call waits for.
abbrev pub event_of : Call → ℕ
event_of accepts = epollin
event_of (reads len) = epollin
event_of (writes len) = epollout

module _ {p : Platform} where
  abbrev pub ctl : CtlOp → (fd mask : ℕ) → Cmd p ℤ
  ctl op fd mask w =
      let (ret, k) = p.epoll_ctl w.kernel w.epfd op fd mask in ok ret (record w { kernel = k })

  -- The first branch of `add_queue`: the descriptor is new to the task. `fds[fds_idx++]` past the
  -- end of `fds` is a fault.
  unfoldable pub watch_new : (fd events : ℕ) → Cmd p ℤ
  watch_new fd events = do
    current ← gets (λ e. e.current)
    t ← deref current
    if ltb t.fds_idx max_fd
        then (do
          modify current (λ s. record s {
            fds = update s.fds s.fds_idx fd;
            fds_idx = s.fds_idx + 1;
            events = update s.events fd (record { fd = fd; mask = epollin });
          })
          ctl ctl_add fd events)
        else (λ w. fault)

  -- The second branch: the mask is extended.
  unfoldable pub watch_more : (fd events : ℕ) → Cmd p ℤ
  watch_more fd events = do
    current ← gets (λ e. e.current)
    t ← deref current
    let mask = bit_or (t.events fd).mask events
    modify current (λ s. record s {
      events = update s.events fd (record { fd = (s.events fd).fd; mask = mask });
    })
    ctl ctl_mod fd (bit_or events mask)

  -- The current task goes to the end of the descriptor's block queue.
  unfoldable pub enqueue : ℕ → Cmd p ℤ
  enqueue fd w =
      ok (pos 0) (
        set_env w (record (w.env) { block_queue = p.tailq_insert_tail w.block_queue fd w.current }))

  -- The part of `add_queue` in front of its branches.
  unfoldable pub arm : (fd events : ℕ) → Cmd p (Unit {0})
  arm fd events = do
    current ← gets (λ e. e.current)
    modify current (λ t. record t {
      status = wait;
      revents = update t.revents fd (bit_and (t.revents fd) (complement events));
    })

  -- Its branches; 0 stands for the way past both.
  unfoldable pub watch : (fd events : ℕ) → Cmd p ℤ
  unfolding watch_new watch_more
  watch fd events = do
    current ← gets (λ e. e.current)
    t ← deref current
    if (t.events fd).fd == 0
        then watch_new fd events
        else (if rewatch (t.events fd).mask events == 0 then pure (pos 0) else watch_more fd events)

  unfoldable pub add_queue : (fd events : ℕ) → Cmd p ℤ
  unfolding arm watch enqueue
  add_queue fd events =
      if ltb fd max_fd
      then (do
        arm fd events
        ret ← watch fd events
        if is_negative ret then pure ret else enqueue fd)
      else (λ w. fault)

  abbrev pub system : (p.Kernel → ℤ × p.Kernel) → Cmd p Control
  system f w = let (ret, k) = f w.kernel in ok (returns_int ret) (record w { kernel = k })

  -- What a call does once its event is there.
  unfoldable pub proceed : Call → ℕ → Cmd p Control
  proceed accepts fd = system (λ k. p.accept k fd)
  proceed (reads len) fd = system (λ k. p.read k fd len)
  proceed (writes len) fd = do
    current ← gets (λ e. e.current)
    modify current (λ t. record t {
      events = update t.events fd (record {
        fd = (t.events fd).fd;
        mask = bit_and (t.events fd).mask (complement epollout);
      });
      revents = update t.revents fd (bit_and (t.revents fd) (complement epollout));
    })
    t ← deref current
    ret ← ctl ctl_mod fd (t.events fd).mask
    if is_negative ret then pure (returns_int ret) else system (λ k. p.write k fd len)

  -- `while(!(current->revents[fd] & EPOLLIN))` from its test on.
  unfoldable pub wait_loop : (rounds : ℕ) → Call → ℕ → Cmd p Control
  unfolding proceed
  wait_loop rounds call fd = do
    current ← gets (λ e. e.current)
    t ← deref current
    if bit_and (t.revents fd) (event_of call) == 0
        then (do
          modify current (λ s. record s { status = wait })
          f ← schedule rounds (waiting call fd)
          pure (goes f))
        else proceed call fd

  -- `co_read` and `co_write` set the status before `add_queue` does.
  unfoldable pub set_wait : Call → Cmd p (Unit {0})
  set_wait accepts = pure tt
  set_wait (reads len) = do
    current ← gets (λ e. e.current)
    modify current (λ t. record t { status = wait })
  set_wait (writes len) = do
    current ← gets (λ e. e.current)
    modify current (λ t. record t { status = wait })

  -- `co_accept`, `co_read` and `co_write`.
  unfoldable pub blocking : (rounds : ℕ) → Call → ℕ → Cmd p Control
  unfolding set_wait add_queue wait_loop
  blocking rounds call fd = do
    set_wait call
    ret ← add_queue fd (event_of call)
    if is_negative ret then pure (returns_int ret) else wait_loop rounds call fd
