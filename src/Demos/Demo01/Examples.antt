-- ===== src/Demos/Demo01/Examples.antt =====
-- A thread of examples/demo01.c that creates `fun3` and joins it, on the platform of `Sim`, whose clock
-- goes on by two seconds from one reading to the next.
use libco_lite.Base.{ℕ, ◌+◌, ◌≡◌, refl, pos, none, some, List, [], ◌∷◌, ◌++◌, arith, update}
use libco_lite.Sim.{SimKernel, sim}
use libco_lite.Thread.{
  running, sleep, exit, entry, sleeping, joining, exiting, Task, zeroed, Table, World, ok,
}
use libco_lite.Sched.{ms_of, getmstime, wake_one, wake_from, scan, settle, schedule, co_sleep}
use libco_lite.Coroutine.{
  returns_int, returns_nothing, goes, fresh_env, free_from, co_create, co_join, release, finish,
}
use libco_lite.System.{with_int, with_nothing, resume}
use libco_lite.Demos.Demo01.{
  Act, Message, hello_fun, co_creates, co_sleeps, co_joins, naps, bodies, Thread, done, Runs, still,
  and_then, creates, joins, goes_on, says, sleeps, returns,
}
use libco_lite.Demos.Demo01.Fits.{said}
use libco_lite.Demos.Demo01.Joined.{begin, Runs-joined}

abbrev at : ℕ → SimKernel
at now = record { now = now; pace = 2000; script = [] }

-- The thread's world, with `count` coroutines and `current` the current one.
abbrev state : (now count current : ℕ) → Table → World sim
state now count current task = record {
  env = record (fresh_env 3) { task_count = count; current = current; task = task };
  kernel = at now;
}

abbrev put : ℕ → Task → Table → Table
put i t task = update task i (some t)

abbrev child : Task
child = record zeroed { id = 1; co_fn = 3 }

abbrev joiner : Task
joiner = record zeroed { frame = joining 1 }

abbrev table1 : Table
table1 = put 1 child (put 0 zeroed (λ _. none))

abbrev acts : List Act
acts = co_creates 3 0 ∷ co_joins 1 ∷ []

abbrev t0 : Thread sim
t0 = begin 3 (at 60) acts

abbrev w1 : World sim
w1 = state 60 2 0 table1

step1 : co_create 3 0 t0.world ≡ ok (pos 0, some 1) w1
unfolding begin co_create free_from
step1 = refl

abbrev w2 : World sim
w2 = state 60 2 1 (put 0 joiner table1)

step2 : co_join 1 1 w1 ≡ ok (goes entry) w2
unfolding co_join schedule wake_from wake_one scan settle
step2 = refl

-- The child sleeps at clock `now`, wakes at the next reading, and the main coroutine goes on.
abbrev woken : ℕ → Task
woken now = record child { wakeuptime = now + 1000; frame = sleeping }

abbrev napped : (now : ℕ) → Task → World sim → World sim
napped now t w = state (now + 4000) 2 0 (
    put 1 (woken now) (
      put 1 (record t { wakeuptime = now + 1000; status = running })
        (put 1 (record t { wakeuptime = now + 1000; status = sleep })
          (put 1 (record t { wakeuptime = now + 1000 }) w.task))))

abbrev w3 : World sim
w3 = napped 60 child w2

step3 : co_sleep 1 1 w2 ≡ ok (joining 1) w3
unfolding co_sleep getmstime ms_of schedule wake_from wake_one scan settle
step3 = refl

-- The main coroutine finds the child running, and gives way to it.
abbrev w4 : World sim
w4 = state 4060 2 1 (put 0 joiner w3.task)

step4 : co_join 1 1 w3 ≡ ok (goes sleeping) w4
unfolding co_join schedule wake_from wake_one scan settle
step4 = refl

abbrev w5 : World sim
w5 = napped 4060 (woken 60) w4

step5 : co_sleep 1 1 w4 ≡ ok (joining 1) w5
unfolding co_sleep getmstime ms_of schedule wake_from wake_one scan settle
step5 = refl

abbrev w6 : World sim
w6 = state 8060 2 1 (put 0 joiner w5.task)

step6 : co_join 1 1 w5 ≡ ok (goes sleeping) w6
unfolding co_join schedule wake_from wake_one scan settle
step6 = refl

-- The child's function returns.
abbrev w7 : World sim
w7 = state 8060 2 0 (
    put 1 (record (woken 4060) { status = exit; frame = exiting })
      (put 1 (record (woken 4060) { status = exit }) w6.task))

step7 : finish 1 w6 ≡ ok (goes (joining 1)) w7
unfolding finish release schedule wake_from wake_one scan settle
step7 = refl

abbrev w8 : World sim
w8 = state 8060 1 0 (update w7.task 1 none)

step8 : co_join 1 1 w7 ≡ ok returns_nothing w8
unfolding co_join
step8 = refl

abbrev hello : Message
hello = hello_fun 3

-- The run, up to where `co_join` returns.
abbrev h1 : Thread sim
h1 = record (done t0 (co_joins 1 ∷ []) (returns_int (pos 0)) w1) {
  script = update (update t0.script 0 (co_joins 1 ∷ [])) 1 (bodies 3);
  printed = update t0.printed 1 [];
}

abbrev h2 : Thread sim
h2 = done h1 [] (goes entry) w2

abbrev h3 : Thread sim
h3 = record h2 { control = returns_nothing }

abbrev spoken : Thread sim → List Act → Thread sim
spoken h rest = record (done h rest h.control h.world) {
  printed = update h.printed h.world.current (h.printed h.world.current ++ hello ∷ []);
}

abbrev h5 : Thread sim
h5 = done (spoken h3 (co_sleeps 1 ∷ naps hello 1 1)) (naps hello 1 1) (goes (joining 1)) w3

abbrev h6 : Thread sim
h6 = record h5 { control = goes sleeping; world = w4 }

abbrev h7 : Thread sim
h7 = record h6 { control = returns_nothing }

abbrev h9 : Thread sim
h9 = done (spoken h7 (co_sleeps 1 ∷ [])) [] (goes (joining 1)) w5

abbrev h10 : Thread sim
h10 = record h9 { control = goes sleeping; world = w6 }

abbrev h12 : Thread sim
h12 = record h10 { control = goes (joining 1); world = w7 }

run1 : Runs t0 h3
unfolding begin resume
run1 =
    and_then
      (and_then
        (and_then still (creates 3 0 (co_joins 1 ∷ []) (pos 0) 1 w1 with_nothing refl step1))
        (joins 1 1 [] (goes entry) w2 (with_int (pos 0)) refl step2))
      (goes_on 1 entry returns_nothing w2 refl refl)

run2 : Runs t0 h7
unfolding begin bodies naps resume
run2 =
    and_then
      (and_then
        (and_then (and_then run1 (says hello (co_sleeps 1 ∷ naps hello 1 1) with_nothing refl))
          (sleeps 1 1 (naps hello 1 1) (joining 1) w3 with_nothing refl step3))
        (goes_on 1 (joining 1) (goes sleeping) w4 refl step4))
      (goes_on 1 sleeping returns_nothing w4 refl refl)

run3 : Runs t0 h12
unfolding begin bodies naps resume
run3 =
    and_then
      (and_then
        (and_then
          (and_then (and_then run2 (says hello (co_sleeps 1 ∷ []) with_nothing refl))
            (sleeps 1 1 [] (joining 1) w5 with_nothing refl step5))
          (goes_on 1 (joining 1) (goes sleeping) w6 refl step6))
        (goes_on 1 sleeping returns_nothing w6 refl refl))
      (returns 1 (goes (joining 1)) w7 with_nothing (λ x. absurd (omega arith)) refl step7)

Runs-joined_example :
    (t : Task) × (h12.world.task 1 ≡ some t)
    × (h12.script 1 ≡ [])
    × (h12.printed 1 ≡ said (bodies t.co_fn))
Runs-joined_example = Runs-joined 3 (at 60) acts h12 1 1 w8 run3 (λ x. absurd (omega arith)) step8
