-- ===== src/System.antt =====
-- One thread's coroutines as a whole: who runs, what it may do next, and where control goes on.
-- It ties together the calls of src/coroutine.c, src/sched.c, src/cosyscall.c and
-- src/coeventloop.c by the places at which each of them calls `schedule`.
pub mod Linked
pub mod Preserve
pub mod Calls
pub mod Events
pub mod Safety
pub mod Turn
use libco_lite.Base.{ℕ, ◌≡◌, ◌≢◌, ◌<◌, ℤ, negsuc, Option, none, some}
use libco_lite.Platform.{Platform}
use libco_lite.Thread.{
  max_fd, Call, accepts, reads, writes, Frame, entry, sleeping, joining, polling, waiting, exiting,
  Task, World, Run, ok, exited, Cmd, and_then, ◌>>=◌, pure,
}
use libco_lite.Sched.{co_sleep}
use libco_lite.Coroutine.{Control, returns_int, returns_nothing, goes, co_create, co_join, finish}
use libco_lite.Syscall.{wait_loop, blocking}
use libco_lite.EventLoop.{co_eventloop}

-- What the code of a coroutine may ask of the library.
pub data Request : Type 0 where
  creates : (start_routine arg : ℕ) → Request
  joins : ℕ → Request
  sleeps : ℕ → Request
  loops : Request
  blocks : Call → ℕ → Request

module _ {p : Platform} where
  unfoldable pub perform : (rounds : ℕ) → Request → Cmd p Control
  perform rounds (creates start_routine arg) = do
    (ret, cid) ← co_create start_routine arg
    pure (returns_int ret)
  perform rounds (joins cid) = co_join rounds cid
  perform rounds (sleeps seconds) = do f ← co_sleep rounds seconds; pure (goes f)
  perform rounds loops = co_eventloop rounds
  perform rounds (blocks call fd) = blocking rounds call fd

  -- What the code behind a call of `schedule` does. At `entry` it is `start`, which calls `co_fn`;
  -- behind the call in `start` it is "Fatal: error schedule!" and `exit(-1)`.
  unfoldable pub resume : (rounds : ℕ) → Frame → Cmd p Control
  resume rounds entry = pure returns_nothing
  resume rounds sleeping = pure returns_nothing
  resume rounds (joining cid) = co_join rounds cid
  resume rounds polling = co_eventloop rounds
  resume rounds (waiting call fd) = wait_loop rounds call fd
  resume rounds exiting = λ w. exited 255

-- Control is in the code of a coroutine, not on its way out of the library.
pub data InUser : Control → Type 0 where
  with_int : (n : ℤ) → InUser (returns_int n)
  with_nothing : InUser returns_nothing

-- What a coroutine that calls is held to: a descriptor within MAX_FD, and room in `fds`.
abbrev pub Allowed : {p : Platform} → World p → Request → Type 0
Allowed w (creates start_routine arg) = Unit
Allowed w (joins cid) = Unit
Allowed w (sleeps seconds) = Unit
Allowed w loops = Unit
Allowed w (blocks call fd) =
    (fd < max_fd) × ((t : Task) → w.task w.current ≡ some t → t.fds_idx < max_fd)

-- A step: a call, a return from a coroutine's function, or the library goes on behind a call of
-- `schedule`. A coroutine that returns has waited on no descriptor: where it has, `start` takes it
-- off queues that it is not on, which the tail queues do not allow.
pub data Step {p : Platform} : Control → World p → Control → World p → Type 0 where
  call :
      {c c' : Control} {w w' : World p} (rounds : ℕ) (req : Request)
      → InUser c
      → Allowed w req
      → perform rounds req w ≡ ok c' w'
      → Step c w c' w'
  ends :
      {c c' : Control} {w w' : World p} (rounds : ℕ) (t : Task)
      → InUser c
      → w.current ≢ 0
      → w.task w.current ≡ some t
      → t.fds_idx ≡ 0
      → finish rounds w ≡ ok c' w'
      → Step c w c' w'
  goes_on :
      {c c' : Control} {w w' : World p} (rounds : ℕ) (f : Frame)
      → c ≡ goes f
      → resume rounds f w ≡ ok c' w'
      → Step c w c' w'

-- The configurations that a run leads to. Between its steps the kernel goes on by itself: time passes,
-- bytes arrive, other threads and the coroutine's own code make their system calls.
pub data Reach {p : Platform} (c : Control) (w : World p) : Control → World p → Type 0 where
  here : Reach c w c w
  step : {d e : Control} {u v : World p} → Reach c w d u → Step d u e v → Reach c w e v
  outside :
      {d : Control} {u : World p}
      → Reach c w d u
      → (k : p.Kernel) → Reach c w d (record u { kernel = k })
