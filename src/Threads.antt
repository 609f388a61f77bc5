-- ===== src/Threads.antt =====
-- The threads of a process (src/coroutine.c, `g_thread_env_arr`): their steps on the library in any
-- order, one at a time, each on the environment that `co_get_thread_env` gives its thread.
pub mod Fresh
pub mod Apart
mod Examples
use libco_lite.Base.{ℕ, ◌%◌, ◌≡◌, Bool, true, some, update}
use libco_lite.Platform.{Platform}
use libco_lite.Thread.{ThreadEnv, World}
use libco_lite.Coroutine.{max_thread_num, Process, Control, co_get_thread_env}
use libco_lite.System.{Step}

-- A process, and where control is in each of its threads.
pub record Threads (p : Platform) : Type 0 where
  pub process : Process p
  pub control : ℕ → Control

-- The place of a thread in the array.
abbrev pub place : ℕ → ℕ
place tid = tid % max_thread_num

-- What a thread has in front of it.
abbrev pub in_thread : {p : Platform} → ThreadEnv p → Process p → World p
in_thread e s = record { env = e; kernel = s.kernel }

module _ {p : Platform} where
  -- The process behind a step that ends in `w`.
  abbrev pub stored : Process p → ℕ → World p → Process p
  stored s tid w = record {
    g_thread_env_arr = update s.g_thread_env_arr (place tid) (some w.env);
    kernel = w.kernel;
  }

  -- A step of one thread.
  pub data Moves (s : Threads p) (tid : ℕ) : Threads p → Type 0 where
    moves :
        {e : ThreadEnv p} {s' : Process p} {c : Control} {w : World p}
        → co_get_thread_env tid s.process ≡ some (e, s')
        → Step (s.control tid) (in_thread e s') c w
        → Moves s tid (record { process = stored s' tid w; control = update s.control tid c })

  -- Steps of the threads that `live` names, in some order.
  pub data Interleaved (live : ℕ → Bool) (s : Threads p) : Threads p → Type 0 where
    none_yet : Interleaved live s s
    and_then :
        {u v : Threads p} (tid : ℕ)
        → Interleaved live s u
        → live tid ≡ true
        → Moves u tid v
        → Interleaved live s v

-- The ids of the threads differ modulo MAX_THREAD_NUM.
abbrev pub Distinct : (ℕ → Bool) → Type 0
Distinct live = (a b : ℕ) → live a ≡ true → live b ≡ true → place a ≡ place b → a ≡ b
