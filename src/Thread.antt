-- ===== src/Thread.antt =====
-- include/coroutine.h: coroutines, the environment block of a thread, and commands that run in it.
-- A `struct task_struct_t *` is the slot of `task[]` that holds the block: `current` is a slot too,
-- and a read through a slot that is empty, of memory given back by `free`, is a fault.
pub mod Returns
pub mod Valid
use libco_lite.Base.{
  ℕ, zero, suc, ◌<◌, ◌≡◌, Bool, true, false, Option, none, some, ◌==◌, ltb, if◌then◌else◌, is_some,
  update,
}
use libco_lite.Platform.{Platform}

-- NR_TASKS, MAX_FD.
abbrev pub nr_tasks : ℕ
nr_tasks = 10240

abbrev pub max_fd : ℕ
max_fd = 1024

-- EPOLLIN and EPOLLOUT.
abbrev pub epollin : ℕ
epollin = 1

abbrev pub epollout : ℕ
epollout = 4

-- COROUTINE_RUNNING, COROUTINE_SLEEP, COROUTINE_WAIT, COROUTINE_EXIT.
pub data Status : Type 0 where
  running sleep wait exit : Status

abbrev pub is_running : Status → Bool
is_running running = true
is_running sleep = false
is_running wait = false
is_running exit = false

abbrev pub is_sleep : Status → Bool
is_sleep running = false
is_sleep sleep = true
is_sleep wait = false
is_sleep exit = false

abbrev pub is_exit : Status → Bool
is_exit running = false
is_exit sleep = false
is_exit wait = false
is_exit exit = true

-- The blocking system calls.
pub data Call : Type 0 where
  accepts : Call
  reads writes : ℕ → Call

-- Where a call of `schedule` returns to; `entry` is the frame that `co_create` builds by hand. It
-- stands for the saved `esp` and the stack below it.
pub data Frame : Type 0 where
  entry : Frame
  sleeping : Frame
  joining : ℕ → Frame
  polling : Frame
  waiting : Call → ℕ → Frame
  exiting : Frame

-- `struct epoll_event` as a task keeps one for each descriptor: `data.fd` and the mask.
pub record Watch : Type 0 where
  pub fd : ℕ
  pub mask : ℕ

-- `struct task_struct_t`; `block_entry` belongs to the block queues.
pub record Task : Type 0 where
  pub id : ℕ
  pub wakeuptime : ℕ
  pub frame : Frame
  pub co_fn : ℕ
  pub arg : ℕ
  pub status : Status
  pub fds_idx : ℕ
  pub fds : ℕ → ℕ
  pub events : ℕ → Watch
  pub revents : ℕ → ℕ

-- What `calloc` gives.
abbrev pub zeroed : Task
zeroed = record {
  id = 0;
  wakeuptime = 0;
  frame = entry;
  co_fn = 0;
  arg = 0;
  status = running;
  fds_idx = 0;
  fds = λ _. 0;
  events = λ _. record { fd = 0; mask = 0 };
  revents = λ _. 0;
}

-- The slots of `task[]`.
abbrev pub Table : Type 0
Table = ℕ → Option Task

-- `struct thread_env_t`, with `epoll_t` as `epfd` and `block_queue`.
pub record ThreadEnv (p : Platform) : Type 0 where
  pub task_count : ℕ
  pub current : ℕ
  pub epfd : ℕ
  pub block_queue : p.Queues
  pub task : Table

-- One thread's environment beside the kernel.
pub record World (p : Platform) : Type 0 where
  pub env : ThreadEnv p
  pub open env use *
  pub kernel : p.Kernel

-- How a piece of code ends: it goes on, leaves the process by `exit`, has undefined behaviour, or
-- has used up the rounds that it was given.
pub data Run (p : Platform) (A : Type 0) : Type 0 where
  ok : A → World p → Run p A
  exited : ℕ → Run p A
  fault : Run p A
  out_of_fuel : Run p A

abbrev pub Cmd : Platform → Type 0 → Type 0
Cmd p A = World p → Run p A

module _ {p : Platform} where
  abbrev pub and_then : {A B : Type 0} → Run p A → (A → Cmd p B) → Run p B
  and_then (ok a w) k = k a w
  and_then (exited n) k = exited n
  and_then fault k = fault
  and_then out_of_fuel k = out_of_fuel

  infixl 5 ◌>>=◌ ◌>>◌
  abbrev pub ◌>>=◌ : {A B : Type 0} → Cmd p A → (A → Cmd p B) → Cmd p B
  ◌>>=◌ m k w = and_then (m w) k

  abbrev pub ◌>>◌ : {B : Type 0} → Cmd p (Unit {0}) → Cmd p B → Cmd p B
  ◌>>◌ m k w = and_then (m w) (λ _. k)

  abbrev pub pure : {A : Type 0} → A → Cmd p A
  pure a w = ok a w

  -- `*task[i]`.
  abbrev pub deref : ℕ → Cmd p Task
  deref i w = elim (w.env.task i) [ none ↦ fault | some t ↦ ok t w ]

  abbrev pub set_env : World p → ThreadEnv p → World p
  set_env w e = record { env = e; kernel = w.kernel }

  -- Writes the block in slot `i`, a fault where the slot is empty.
  abbrev pub put_task : World p → ℕ → Option Task → World p
  put_task w i o = set_env w (record (w.env) { task = update w.env.task i o })

  abbrev pub modify : ℕ → (Task → Task) → Cmd p (Unit {0})
  modify i f w = elim (w.env.task i) [ none ↦ fault | some t ↦ ok tt (put_task w i (some (f t))) ]

  -- What the code reads of the environment.
  abbrev pub gets : {A : Type 0} → (ThreadEnv p → A) → Cmd p A
  gets f w = ok (f w.env) w
