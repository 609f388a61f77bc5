-- ===== src/Board/Completes/Examples.antt =====
-- Calls that complete, at the thread of `Scene`: the main coroutine polls, slot 1 sleeps, and slot 2
-- reads from descriptor 5.
use libco_lite.Base.{ℕ, zero, suc, ◌+◌, ◌≡◌, refl, some, [], ◌∷◌, arith, update}
use libco_lite.Platform.{EpollEvent}
use libco_lite.Sched.{co_sleep}
use libco_lite.Sched.Wrap.{Runs, co_sleep-Runs}
use libco_lite.Scene.{env-IsValid}
use libco_lite.System.{loops}
use libco_lite.System.Linked.{IsSafe}
use libco_lite.Board.Line.{currents, InOrder, Reach-InOrder}
use libco_lite.Sim.{SimKernel, sim}
use libco_lite.Sched.Wake.{reading, skip, tick}
use libco_lite.Sched.Awake.{awake, IsDue}
use libco_lite.Board.Awakes.{schedule-Returns, schedule-WasCurrent}
use libco_lite.Thread.Returns.{Returns}
use libco_lite.System.Turn.{Turn}
use libco_lite.Scene.{world, env, sleeper, reader, env-IsLive}
use libco_lite.Thread.{
  nr_tasks, running, reads, zeroed, sleeping, polling, joining, waiting, World, ok,
}
use libco_lite.Sched.{ms_of, wake_one, wake_from, settle, schedule, scan}
use libco_lite.Sched.Scan.{steps_to}
use libco_lite.Coroutine.{returns_nothing, goes, co_join}
use libco_lite.EventLoop.{dispatch, dispatch_all, co_eventloop}
use libco_lite.EventLoop.Dispatch.{notified}
use libco_lite.System.{joins, perform, resume, with_nothing, call, goes_on, Step, Reach, here, step}
use libco_lite.Board.Fair.{WasCurrent}
use libco_lite.Board.Nearer.{switches}
use libco_lite.Board.Completes.{Completes, co_eventloop-Completes}

-- Descriptor 5 has become readable.
abbrev readable : EpollEvent
readable = record { events = 1; fd = 5 }

abbrev polls : World sim
polls = record { env = env; kernel = record { now = 60; pace = 1; script = (readable ∷ []) ∷ [] } }

-- Slot 1 is past its time, and comes first.
abbrev handed : World sim
handed = record {
  env = record env {
    current = 1;
    block_queue = update env.block_queue 5 [];
    task =
        update
          (update (update env.task 2 (some (notified readable reader))) 1
            (some (record sleeper { status = running })))
          0 (some (record zeroed { frame = polling }));
  };
  kernel = record { now = 61; pace = 1; script = [] };
}

hands : co_eventloop 1 polls ≡ ok (goes sleeping) handed
unfolding co_eventloop dispatch_all dispatch schedule wake_from wake_one scan settle ms_of
hands = refl

-- It goes on behind its call, and joins slot 2.
back : Step (goes sleeping) handed returns_nothing handed
unfolding resume
back = goes_on 1 sleeping refl refl

abbrev reached : World sim
reached = record handed {
  env = record (handed.env) {
    current = 2;
    task = update handed.task 1 (some (record sleeper { status = running; frame = joining 2 }));
  };
}

joins_2 : Step returns_nothing handed (goes (waiting (reads 64) 5)) reached
unfolding perform co_join schedule wake_from wake_one scan settle ms_of
joins_2 = call 1 (joins 2) with_nothing tt refl

abbrev run : Reach (goes sleeping) handed (goes (waiting (reads 64) 5)) reached
run = step (step here back) joins_2

co_eventloop-Completes_example :
    Completes
      (reads 64)
      5
      2
      (notified readable reader)
      1
      (goes sleeping)
      handed
      (goes (waiting (reads 64) 5))
      reached
unfolding switches steps_to
co_eventloop-Completes_example =
    co_eventloop-Completes 1 (reads 64) 2 [] reader [] [] readable polls env-IsLive refl refl refl
      refl refl refl refl hands run (omega arith)

-- The clock of `Sim` goes on by a millisecond at each reading.
skip-now :
    (m n : ℕ) (k : SimKernel)
    → k ≡ record { now = n; pace = 1; script = [] }
    → skip sim m k ≡ record { now = n + m; pace = 1; script = [] }
unfolding skip tick
skip-now zero n k e = let z : n + 0 ≡ n = omega arith in rw (e, z) refl
skip-now (suc m) n k e =
    let z : n + suc m ≡ n + 1 + m = omega arith in rw (e, z) (skip-now m (n + 1) _ refl)

sleeper-IsDue : IsDue sim nr_tasks sleeper world.kernel
unfolding reading ms_of
sleeper-IsDue m h = rw (skip-now m 60 world.kernel refl) (omega arith)

-- The main coroutine calls `schedule`, and slot 1 comes next.
abbrev woken : World sim
woken = record {
  env = record env {
    current = 1;
    task =
        update (update env.task 1 (some (awake sleeper))) 0
          (some (record zeroed { frame = polling }));
  };
  kernel = record { now = 61; pace = 1; script = [] };
}

wakes : schedule 1 polling world ≡ ok sleeping woken
unfolding schedule wake_from wake_one scan settle ms_of
wakes = refl

schedule-WasCurrent_example :
    (was : WasCurrent 1 (awake sleeper) 0 (goes sleeping) woken (goes sleeping) woken)
    × (was.control ≡ goes sleeping)
    × ((n : ℕ) → resume n sleeping was.world ≡ ok returns_nothing was.world)
unfolding switches steps_to
schedule-WasCurrent_example =
    schedule-WasCurrent 1 sleeper 1 polling world env-IsLive.linked (λ x. cc) refl refl refl
      (λ x. cc) sleeper-IsDue wakes here (omega arith)

schedule-Returns_example :
    Returns (λ f v. Turn 1 (awake sleeper) refl (goes f) v) (schedule 2 polling world)
schedule-Returns_example =
    schedule-Returns 1 sleeper 1 polling world env-IsLive.linked.valid refl refl (λ x. cc)
      sleeper-IsDue

-- The same thread 50 seconds before the milliseconds wrap, where the main coroutine wants to sleep
-- for a minute.
abbrev near_wrap : World sim
near_wrap = record { env = env; kernel = record { now = 4294917296; pace = 1; script = [] } }

near_wrap-tick : tick sim near_wrap.kernel ≡ record { now = 4294917297; pace = 1; script = [] }
unfolding tick
near_wrap-tick = refl

co_sleep-Runs_example : Returns (λ f v. Runs 0 v) (co_sleep 2 60 near_wrap)
unfolding reading ms_of
co_sleep-Runs_example =
    co_sleep-Runs 1 60 near_wrap zeroed env-IsValid refl (omega arith) (omega arith)
      λ m h. rw (skip-now m 4294917297 _ near_wrap-tick) (omega arith)

polls-IsSafe : IsSafe returns_nothing polls
polls-IsSafe = record { live = env-IsLive; returns = λ x. cc }

looping : Step returns_nothing polls (goes sleeping) handed
unfolding perform
looping = call 1 loops with_nothing tt hands

Reach-InOrder_example : InOrder (2 ∷ []) (0 ∷ []) []
unfolding currents
Reach-InOrder_example = Reach-InOrder 5 polls-IsSafe (step here looping)
