-- ===== src/Lib.antt =====
-- libco-lite: coroutines on the threads of a Linux process, in C.
--
-- The program. Each thread has an environment (include/coroutine.h, `struct thread_env_t`): a table
-- of coroutines, the current one, an epoll descriptor, and a queue of blocked coroutines for each
-- file descriptor. `co_create` and `co_join` (src/coroutine.c) make and free coroutines. `schedule`
-- (src/sched.c) picks the next one that runs, wakes sleepers whose time has come, and switches
-- stacks (src/switch.S). `co_accept`, `co_read` and `co_write` (src/cosyscall.c) park the current
-- coroutine on a descriptor before they make the system call, and `co_eventloop`
-- (src/coeventloop.c), which one coroutine runs, wakes those whose descriptor is ready.
-- tools/server has two line servers and a client that stand on their own, and examples three
-- programs, two of them on the library.
--
-- The files.
--   Base           numbers, tests, arrays as functions; Base/Bits has what is used of masks
--   Platform       the kernel and the tail queues, as an interface with the promises relied on
--   Thread         include/coroutine.h: `Task` is task_struct_t, `ThreadEnv` thread_env_t and its
--                  epoll_t; commands on an environment and the kernel. Thread/Returns says how
--                  results are stated, Thread/Valid what a well-formed environment is
--   Sched          src/sched.c: getmstime, pick, co_switch_to, schedule, co_sleep;
--                  Sched/Due and Sched/Awake are about when sleepers wake, Sched/Wrap about a
--                  wrap of the milliseconds, Sched/Stuck about a pick that does not return
--   Coroutine      src/coroutine.c: co_get_thread_env, co_create, co_join, start behind `co_fn`
--   Switch         src/switch.S for x86_64, and the stack frame that co_create builds; Switch/I386
--                  has the same for i386
--   Syscall        src/cosyscall.c: add_queue, and the three calls as one, `blocking`, over a
--                  `Call` that says which it is
--   EventLoop      src/coeventloop.c: one round of co_eventloop
--   System         a thread as a step relation: the running coroutine makes a call, or control
--                  comes back to where a coroutine once called `schedule`; System/Turn says what
--                  the others do to one that runs
--   Board          a specification of a thread: who is current, the status of each coroutine and the
--                  block queues, and the moves on them; Board/Steps shows that every step of the
--                  System is such moves, Board/Fair, Awakes, Completes, Line and Stray
--                  what follows
--   Threads        the threads of a process: steps of several Systems in any order, each on the
--                  environment that co_get_thread_env gives it
--   Server         tools/server/upper.c and reverse.c: `upper`, `reverse`, get_line and handle;
--                  Server/Serve is `main`, over an interface of socket calls;
--                  Server/Clients and Closed are about its clients
--   Server/Client  tools/server/cli.c: `str_cli`; Server/Client/Replies joins it to a server
--   Chars          bytes and C strings in the buffers of these programs
--   Demos          examples: Demo01, coroutines that sleep and are joined, as lists of calls; Demo02,
--                  a server without coroutines; Demo03, an echo server on them
--   Log            src/util.c and include/logger.h: `now` and PRINT as the bytes that they make
--   Sim, Scene     a platform that can be run, and a thread on it; the Examples have runs on it
--
-- How C is read. A `struct task_struct_t *` is the slot of `task[]` that holds the block; an
-- empty slot is NULL, and a read through it is a `fault` of the command. The saved `esp` and the
-- stack of a coroutine are, outside of Switch, the `Frame` that says at which call of `schedule`
-- it stands. An `int` that the code tests for its sign is a ℤ; times are the milliseconds of
-- `unsigned` arithmetic, with the wrap at 2 ^ 32 written out. The product `1000 * seconds` of
-- co_sleep is of ints, and a `fault` where it overflows. Descriptors, seconds and thread ids
-- are not negative. Arrays are functions of the index with the bounds tested where the code
-- relies on them. In a run of one thread the kernel may change between two steps, so that other
-- threads are part of it; a call of the library is taken as one step, with no other thread in the
-- middle of it.
--
-- Loops. `for` loops and the searches are recursion on the number of slots. `goto repeat` of
-- pick, which waits for the clock, and the loops around `schedule` count their rounds in
-- `rounds`; results for all `rounds` and a condition under which a number is enough are stated. A
-- loop around `schedule` that is left and entered again by a switch is one round per resumption.
--
-- Not modelled. include/queue.h is a copy of the BSD header and a part of the Platform, as are
-- the kernel, calloc and localtime_r. Of the programs in tools/server and examples, the choice of
-- addresses and ports, pthread_create and pthread_join are left out.
pub mod Base
pub mod Platform
pub mod Thread
pub mod Sched
pub mod Coroutine
pub mod Syscall
pub mod EventLoop
pub mod System
pub mod Board
pub mod Threads
pub mod Server
pub mod Chars
pub mod Demos
pub mod Log
pub mod Sim
pub mod Scene
pub mod Switch
mod Examples
