-- ===== src/Board/Examples.antt =====
-- The board's theorems at the thread of `Scene`.
use libco_lite.Base.{refl, some, [], arith, update}
use libco_lite.Platform.{EpollEvent}
use libco_lite.Sim.{sim}
use libco_lite.Scene.{sleeper, reader, writer, peopled, at_60, peopled-IsLive}
use libco_lite.Thread.{running, zeroed, sleeping, joining, Task, World}
use libco_lite.Thread.Returns.{Returns}
use libco_lite.Thread.Valid.{queue-IsValid}
use libco_lite.Sched.{wake_one, wake_from, settle, schedule, scan}
use libco_lite.Sched.Scan.{steps_to}
use libco_lite.Coroutine.{returns_nothing, goes, co_join}
use libco_lite.EventLoop.{dispatch}
use libco_lite.System.{joins, perform, with_nothing, call, Step, here, step}
use libco_lite.System.Linked.{IsLive, IsSafe}
use libco_lite.Board
use libco_lite.Board.{view, Refines}
use libco_lite.Board.Steps.{Step-Refines}
use libco_lite.Board.Fair.{WasCurrent, Reach-WasCurrent}
use libco_lite.Board.Nearer.{switches}
use libco_lite.Board.Stray.{IsStray, dispatch-IsStray, Reach-IsStray}

-- Slot 1 runs.
abbrev awake : Task
awake = record sleeper { status = running }

abbrev busy : World sim
busy = at_60 (peopled awake reader)

busy-IsSafe : IsSafe returns_nothing busy
busy-IsSafe = record {
  live = peopled-IsLive awake reader refl refl refl (λ x. cc) (λ x. cc);
  returns = λ x. cc;
}

-- The main coroutine joins slot 1, which gets the turn.
abbrev switched : World sim
switched = record busy {
  env = record (busy.env) {
    current = 1;
    task = update busy.task 0 (some (record zeroed { frame = joining 1 }));
  };
}

join : Step returns_nothing busy (goes sleeping) switched
unfolding perform co_join schedule wake_from wake_one scan settle
join = call 1 (joins 1) with_nothing tt refl

Step-Refines_example : Refines (goes sleeping) (view busy) (view switched)
Step-Refines_example = Step-Refines busy-IsSafe join

Reach-WasCurrent_example :
    WasCurrent 1 awake (steps_to 0 1) returns_nothing busy (goes sleeping) switched
unfolding switches steps_to
Reach-WasCurrent_example =
    Reach-WasCurrent 1 awake refl busy-IsSafe refl (λ x. absurd (omega arith)) (step here join)
      (omega arith)

-- Descriptor 5 has become writable.
abbrev writable : EpollEvent
writable = record { events = 4; fd = 5 }

abbrev writing : World sim
writing = at_60 (peopled awake writer)

writing-IsLive : IsLive writing.env
writing-IsLive = peopled-IsLive awake writer refl refl refl (λ x. cc) (λ x. cc)

dispatch-IsStray_example : Returns (λ _ v. IsStray 2 (view v)) (dispatch writable writing)
dispatch-IsStray_example =
    dispatch-IsStray writing writable 2 [] writer writing-IsLive (omega arith) refl refl refl

-- Slot 2 waits, on no queue.
abbrev stranded : World sim
stranded = record busy { env = record (busy.env) { block_queue = λ _. [] } }

stranded-IsSafe : IsSafe returns_nothing stranded
stranded-IsSafe = record {
  live = record {
    linked = record {
      valid = queue-IsValid busy.env (λ _. []) busy-IsSafe.live.linked.valid;
      ended = busy-IsSafe.live.linked.ended;
      queued = λ fd j h. absurd (ground arith);
      once = λ fd g j a b. absurd (ground arith);
      single = λ fd j. refl;
    };
    alive = busy-IsSafe.live.alive;
    off = λ fd. refl;
  };
  returns = λ x. cc;
}

stranded-IsStray : IsStray 2 (view stranded)
stranded-IsStray = record {
  entry = Board.entry reader;
  there = refl;
  waits = refl;
  aside = λ x. absurd (omega arith);
  off = λ fd. refl;
}

abbrev past : World sim
past = record stranded { env = record (switched.env) { block_queue = λ _. [] } }

later : Step returns_nothing stranded (goes sleeping) past
unfolding perform co_join schedule wake_from wake_one scan settle
later = call 1 (joins 1) with_nothing tt refl

Reach-IsStray_example : IsStray 2 (view past)
Reach-IsStray_example = Reach-IsStray stranded-IsSafe stranded-IsStray (step here later)
