-- ===== src/Demos/Demo01.antt =====
-- examples/demo01.c: coroutines that print and sleep, and who joins them. What a function does is
-- the list of its calls and of what it prints; the threads run the library as `System` has it.
pub mod Evolves
pub mod Fits
pub mod Steps
pub mod Joined
mod Examples
use libco_lite.Base.{
  ℕ, zero, suc, ◌≡◌, ◌≢◌, List, [], ◌∷◌, ◌++◌, ◌==◌, if◌then◌else◌, update, none, some, Option, ℤ,
}
use libco_lite.Platform.{Platform}
use libco_lite.Thread.{Task, World, ok}
use libco_lite.Thread.{Frame}
use libco_lite.Sched.{co_sleep}
use libco_lite.Coroutine.{Control, returns_int, goes, co_create, co_join, finish}
use libco_lite.System.{InUser, resume}

-- What is printed: a greeting of the function, the number of a new coroutine, the ends of the two
-- threads.
pub data Message : Type 0 where
  hello_fun : ℕ → Message
  hello_main hello_thread : Message
  create_co : ℕ → Message
  thread_over over : Message

-- What a function does. `pthread_create` and `pthread_join` are about another thread, which has an
-- environment of its own.
pub data Act : Type 0 where
  prints : Message → Act
  co_creates : (start_routine arg : ℕ) → Act
  co_sleeps : ℕ → Act
  co_joins : ℕ → Act

-- `while(i--) { printf(...); co_sleep(seconds); }`
unfoldable pub naps : Message → (seconds i : ℕ) → List Act
naps m seconds zero = []
naps m seconds (suc i) = prints m ∷ co_sleeps seconds ∷ naps m seconds i

abbrev pub fun1 : List Act
fun1 = naps (hello_fun 1) 4 2

abbrev pub fun2 : List Act
fun2 = naps (hello_fun 2) 1 10

abbrev pub fun3 : List Act
fun3 = naps (hello_fun 3) 1 2

abbrev pub fun4 : List Act
fun4 = naps (hello_fun 4) 1 8

abbrev pub fun5 : List Act
fun5 = naps (hello_fun 5) 1 4

-- The functions by their addresses, for which their numbers serve.
unfoldable pub bodies : ℕ → List Act
bodies n =
    if n == 1
    then fun1
    else (if n == 2
        then fun2
        else (if n == 3 then fun3 else (if n == 4 then fun4 else (if n == 5 then fun5 else []))))

-- `main`, where `co_create` writes these numbers; `info` is the address of the text for fun3.
unfoldable pub main : (tid1 tid2 tid3 info : ℕ) → List Act
main tid1 tid2 tid3 info =
    co_creates 1 0
    ∷ prints (create_co tid1)
    ∷ co_creates 2 0
    ∷ prints (create_co tid2)
    ∷ co_creates 3 info
    ∷ prints (create_co tid3)
    ∷ (naps hello_main 3 2 ++ (co_joins tid1 ∷ co_joins tid2 ∷ co_joins tid3 ∷ prints over ∷ []))

-- `th_fn`, which another thread runs.
unfoldable pub th_fn : (tid4 tid5 : ℕ) → List Act
th_fn tid4 tid5 =
    co_creates 4 0
    ∷ prints (create_co tid4)
    ∷ co_creates 5 0
    ∷ prints (create_co tid5)
    ∷ (naps hello_thread 3 2 ++ (co_joins tid4 ∷ co_joins tid5 ∷ prints thread_over ∷ []))

-- A thread of the program: its coroutines, what each has still to do, and what it has printed.
pub record Thread (p : Platform) : Type 0 where
  pub control : Control
  pub world : World p
  pub script : ℕ → List Act
  pub printed : ℕ → List Message

module _ {p : Platform} where
  -- The current coroutine's next acts.
  abbrev pub next : Thread p → List Act
  next h = h.script h.world.current

  -- The thread with the first of them done, and control and the world as the library leaves them.
  abbrev pub done : Thread p → List Act → Control → World p → Thread p
  done h rest c v = record h {
    control = c;
    world = v;
    script = update h.script h.world.current rest;
  }

  -- What a thread does next. A function that returns is that of a coroutine which `start` has
  -- called; `main` and `th_fn` run in slot 0.
  pub data Does (h : Thread p) : Thread p → Type 0 where
    says :
        (m : Message) (rest : List Act)
        → InUser h.control
        → next h ≡ prints m ∷ rest
        → Does h (record (done h rest h.control h.world) {
          printed = update h.printed h.world.current (h.printed h.world.current ++ m ∷ []);
        })
    -- A new coroutine has the whole of its function to do.
    creates :
        (co_fn arg : ℕ) (rest : List Act) (ret : ℤ) (id : ℕ) (v : World p)
        → InUser h.control
        → next h ≡ co_creates co_fn arg ∷ rest
        → co_create co_fn arg h.world ≡ ok (ret, some id) v
        → Does h (record (done h rest (returns_int ret) v) {
          script = update (update h.script h.world.current rest) id (bodies co_fn);
          printed = update h.printed id [];
        })
    create_fails :
        (co_fn arg : ℕ) (rest : List Act) (ret : ℤ) (v : World p)
        → InUser h.control
        → next h ≡ co_creates co_fn arg ∷ rest
        → co_create co_fn arg h.world ≡ ok (ret, none) v
        → Does h (done h rest (returns_int ret) v)
    sleeps :
        (rounds seconds : ℕ) (rest : List Act) (f : Frame) (v : World p)
        → InUser h.control
        → next h ≡ co_sleeps seconds ∷ rest
        → co_sleep rounds seconds h.world ≡ ok f v
        → Does h (done h rest (goes f) v)
    joins :
        (rounds cid : ℕ) (rest : List Act) (c : Control) (v : World p)
        → InUser h.control
        → next h ≡ co_joins cid ∷ rest
        → co_join rounds cid h.world ≡ ok c v
        → Does h (done h rest c v)
    returns :
        (rounds : ℕ) (c : Control) (v : World p)
        → InUser h.control
        → h.world.current ≢ 0
        → next h ≡ []
        → finish rounds h.world ≡ ok c v
        → Does h (record h { control = c; world = v })
    goes_on :
        (rounds : ℕ) (f : Frame) (c : Control) (v : World p)
        → h.control ≡ goes f
        → resume rounds f h.world ≡ ok c v
        → Does h (record h { control = c; world = v })

  -- The threads that a run leads to.
  pub data Runs (h : Thread p) : Thread p → Type 0 where
    still : Runs h h
    and_then : {g k : Thread p} → Runs h g → Does g k → Runs h k
