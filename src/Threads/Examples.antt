-- ===== src/Threads/Examples.antt =====
-- Two threads, whose steps take turns.
use libco_lite.Base.{[], ℕ, ◌≡◌, refl, inl, Bool, none, some, pos, arith, ◌==◌, ◌||◌, update}
use libco_lite.Sim.{sim}
use libco_lite.Thread.{ok, zeroed, entry, joining, ThreadEnv}
use libco_lite.Sched.{wake_one, wake_from, settle, schedule, scan}
use libco_lite.Coroutine.{
  returns_int, returns_nothing, goes, fresh_env, free_from, co_create, co_join, co_get_thread_env,
}
use libco_lite.System.{creates, joins, perform, with_int, with_nothing, call, Reach}
use libco_lite.Threads.{
  Threads, place, in_thread, stored, Moves, moves, none_yet, and_then, Distinct,
}
use libco_lite.Threads.Apart.{IsSafeIn, Interleaved-Reach, Interleaved-IsSafeIn}

-- Threads 5 and 6.
abbrev live : ℕ → Bool
live tid = (tid == 5) || (tid == 6)

live-Distinct : Distinct live
live-Distinct a b x y e = ground arith

-- Nobody has called yet.
abbrev idle : Threads sim
idle = record {
  process = record {
    g_thread_env_arr = λ _. none;
    kernel = record { now = 60; pace = 1; script = [] };
  };
  control = λ _. returns_nothing;
}

-- A thread's first call is `co_create`.
abbrev made : ThreadEnv sim
made = record (fresh_env 3) {
  task_count = 2;
  task =
      update (update (λ _. none) 0 (some zeroed)) 1
        (some (record zeroed { id = 1; co_fn = 7; arg = 8 }));
}

abbrev after_call : ℕ → Threads sim → Threads sim
after_call tid s = record {
  process = record {
    g_thread_env_arr =
        update (update s.process.g_thread_env_arr (place tid) (some (fresh_env 3))) (place tid)
          (some made);
    kernel = s.process.kernel;
  };
  control = update s.control tid (returns_int (pos 0));
}

creation :
    perform 1 (creates 7 8) (in_thread (fresh_env 3) idle.process)
    ≡ ok (returns_int (pos 0)) (in_thread made idle.process)
unfolding perform co_create free_from
creation = refl

first_5 : Moves idle 5 (after_call 5 idle)
unfolding co_get_thread_env
first_5 = moves refl (call 1 (creates 7 8) with_nothing tt creation)

first_6 : Moves (after_call 5 idle) 6 (after_call 6 (after_call 5 idle))
unfolding co_get_thread_env
first_6 = moves refl (call 1 (creates 7 8) with_nothing tt creation)

-- Thread 5 then joins the new coroutine, which starts.
abbrev started : ThreadEnv sim
started = record made {
  current = 1;
  task = update made.task 0 (some (record zeroed { frame = joining 1 }));
}

abbrev joined : Threads sim
joined = record {
  process = stored (after_call 6 (after_call 5 idle)).process 5 (in_thread started idle.process);
  control = update (after_call 6 (after_call 5 idle)).control 5 (goes entry);
}

joining_1 :
    perform 1 (joins 1) (in_thread made idle.process)
    ≡ ok (goes entry) (in_thread started idle.process)
unfolding perform co_join schedule wake_from wake_one scan settle
joining_1 = refl

then_5 : Moves (after_call 6 (after_call 5 idle)) 5 joined
unfolding co_get_thread_env
then_5 = moves refl (call 1 (joins 1) (with_int (pos 0)) tt joining_1)

Interleaved-IsSafeIn_example : IsSafeIn 6 joined
Interleaved-IsSafeIn_example =
    Interleaved-IsSafeIn live-Distinct (λ tid l. inl (refl, refl))
      (and_then 5 (and_then 6 (and_then 5 none_yet refl first_5) refl first_6) refl then_5) 6 refl

Interleaved-Reach_example :
    (e : ThreadEnv sim) × (joined.process.g_thread_env_arr (place 5) ≡ some e)
    × Reach
        (returns_int (pos 0))
        (in_thread made idle.process)
        (goes entry)
        (in_thread e joined.process)
Interleaved-Reach_example =
    Interleaved-Reach 5 made live-Distinct refl refl
      (and_then 5 (and_then 6 none_yet refl first_6) refl then_5)
