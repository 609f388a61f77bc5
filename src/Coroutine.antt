-- ===== src/Coroutine.antt =====
-- src/coroutine.c: the environment of a thread, and the creation, the end and the joining of
-- coroutines. The frame that `co_create` builds on the new stack is in `Switch`.
pub mod Create
pub mod Join
pub mod Environment
use libco_lite.Base.{
  ℕ, zero, suc, ◌+◌, ◌-◌, ◌%◌, ℤ, pos, negsuc, Bool, true, false, Option, none, some, ◌==◌, ltb,
  if◌then◌else◌, is_some, update,
}
use libco_lite.Platform.{Platform, ctl_del}
use libco_lite.Thread.{
  nr_tasks, max_fd, Status, running, exit, is_exit, Frame, entry, joining, exiting, Task, zeroed,
  Table, ThreadEnv, World, Run, ok, fault, Cmd, and_then, ◌>>=◌, ◌>>◌, pure, deref, set_env,
  put_task, modify, gets,
}
use libco_lite.Sched.{schedule}

-- How a call gives control back: to its caller, with a value or without one, or by way of the
-- scheduler at the place where some coroutine goes on.
pub data Control : Type 0 where
  returns_int : ℤ → Control
  returns_nothing : Control
  goes : Frame → Control

-- MAX_THREAD_NUM.
abbrev pub max_thread_num : ℕ
max_thread_num = 10240

-- The process: `g_thread_env_arr` and the kernel.
pub record Process (p : Platform) : Type 0 where
  pub g_thread_env_arr : ℕ → Option (ThreadEnv p)
  pub kernel : p.Kernel

module _ {p : Platform} where
  -- A block from `calloc`; the code writes through it at once, a fault where there is none.
  abbrev pub calloc : Cmd p (Unit {0})
  calloc w =
      let (got, k) = p.calloc w.kernel in if got then ok tt (record w { kernel = k }) else fault

  -- The environment that the first call in a thread makes: the main coroutine in slot 0.
  abbrev pub fresh_env : ℕ → ThreadEnv p
  fresh_env epfd = record {
    task_count = 1;
    current = 0;
    epfd = epfd;
    block_queue = p.queues_init;
    task = update (λ _. none) 0 (some zeroed);
  }

  -- `none` where `calloc` fails. The two blocks are the environment and the main coroutine.
  unfoldable pub co_get_thread_env : ℕ → Process p → Option (ThreadEnv p × Process p)
  co_get_thread_env tid s =
      let slot = tid % max_thread_num in
      elim (s.g_thread_env_arr slot) [
        | some e ↦ some (e, s)
        | none ↦
            let (got, k) = p.calloc s.kernel in
            let (got', k') = p.calloc k in
            let (epfd, k'') = p.epoll_create k' in
            let e = fresh_env epfd in
            if got
            then (if got'
                then some (
                  e,
                  record {
                    g_thread_env_arr = update s.g_thread_env_arr slot (some e);
                    kernel = k'';
                  },
                )
                else none)
            else none
      ]

  -- A call of the library in thread `tid`: its environment is looked up, and written in place.
  pub on_thread : {A : Type 0} → ℕ → Cmd p A → Process p → Option (A × Process p)
  unfolding co_get_thread_env
  on_thread tid m s = elim (co_get_thread_env tid s) [
    | none ↦ none
    | some (e, s') ↦ elim (m (record { env = e; kernel = s'.kernel })) [
      | ok a w ↦ some (
        a,
        record {
          g_thread_env_arr = update s'.g_thread_env_arr (tid % max_thread_num) (some w.env);
          kernel = w.kernel;
        },
      )
      | _ ↦ none
    ]
  ]

-- `while(++id < NR_TASKS && task[id] != NULL);` from `id` on, with `n` slots left.
unfoldable pub free_from : ℕ → ℕ → Table → ℕ
free_from zero id task = id
free_from (suc n) id task =
    let rest = free_from n (id + 1) task in if is_some (task id) then rest else id

module _ {p : Platform} where
  -- The result, and what is written to `*cid`.
  unfoldable pub co_create : (start_routine arg : ℕ) → Cmd p (ℤ × Option ℕ)
  co_create start_routine arg = do
    task ← gets (λ e. e.task)
    let id = free_from nr_tasks 0 task
    if id == nr_tasks then pure (negsuc 0, none) else do
      calloc
      λ w.
          ok (pos 0, some id)
            (set_env w (record (w.env) {
              task_count = w.task_count + 1;
              task = update w.task id (
                  some (record zeroed {
                    id = id;
                    co_fn = start_routine;
                    arg = arg;
                    wakeuptime = 0;
                    status = running;
                    fds_idx = 0;
                  }));
            }))

  -- `co_join`, from the test of its loop on: `free`, or another round of `schedule`. The C function
  -- ends without a `return`.
  unfoldable pub co_join : (rounds cid : ℕ) → Cmd p Control
  co_join rounds cid = do
    t ← deref cid
    if is_exit t.status
        then (λ w. ok returns_nothing (
            set_env w
              (record (w.env) { task = update w.task cid none; task_count = w.task_count - 1 })))
        else do f ← schedule rounds (joining cid); pure (goes f)

  -- The clean-up loop of `start`, with `n` the task's `fds_idx`.
  unfoldable pub release : ℕ → Cmd p (Unit {0})
  release zero = pure tt
  release (suc n) = do
    current ← gets (λ e. e.current)
    modify current (λ t. record t { fds_idx = n })
    t ← deref current
    let fd = t.fds n
    λ w. ok tt (record w { kernel = (p.epoll_ctl w.kernel w.epfd ctl_del fd 0).1 })
    if ltb fd max_fd
        then (λ w.
            ok tt (
              set_env w (record (w.env) { block_queue = p.tailq_remove w.block_queue fd current })))
        else (λ w. fault)
    release n

  -- `start` behind the return of `co_fn`.
  unfoldable pub finish : (rounds : ℕ) → Cmd p Control
  unfolding release
  finish rounds = do
    current ← gets (λ e. e.current)
    modify current (λ t. record t { status = exit })
    t ← deref current
    release t.fds_idx
    f ← schedule rounds exiting
    pure (goes f)
