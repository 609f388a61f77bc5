-- ===== src/Examples.antt =====
-- The theorems at the thread of `Scene`, and at small buffers.
use libco_lite.Base.{
  refl, none, some, [], ◌∷◌, pos, arith, update, ℕ, ◌≡◌, ltb, ◌&&◌, if◌then◌else◌, inl, inr,
  Bool-cases, ◌==◌,
}
use libco_lite.Platform.{EpollEvent}
use libco_lite.Sched.{schedule}
use libco_lite.Sim.{sim}
use libco_lite.Scene.{table, env, world, env-IsValid, env-IsLive}
use libco_lite.Thread.{wait, waiting, Task, out_of_fuel, sleeping, reads, zeroed, ThreadEnv, World}
use libco_lite.Sched.Stuck.{Idle, pick-Stuck}
use libco_lite.Thread.Returns.{Returns, Keeps, Ends}
use libco_lite.Sched.{pick, schedule}
use libco_lite.Sched.Due.{Punctual, pick-Punctual}
use libco_lite.Sched.Pick.{Picked, pick-Picked}
use libco_lite.Sched.Changed.{Ready, runs}
use libco_lite.Sched.Schedule.{Scheduled, schedule-Scheduled}
use libco_lite.Coroutine.{returns_int, returns_nothing, free_from, co_create, co_join}
use libco_lite.Coroutine.{Process, co_get_thread_env}
use libco_lite.Coroutine.Environment.{Obtained, co_get_thread_env-Obtained}
use libco_lite.Coroutine.Create.{Created, co_create-Created}
use libco_lite.Coroutine.Join.{Joined, co_join-Joined}
use libco_lite.EventLoop.{dispatch}
use libco_lite.EventLoop.Dispatch.{Dispatched, dispatch-Dispatched}
use libco_lite.Server.{Buffer, newline, upper, reverse, put_bytes, bytes, wrote, handle}
use libco_lite.Server.Upper.{capital, unbroken, upper_lem}
use libco_lite.Server.Reverse.{flipped, reverse_lem}
use libco_lite.Server.Lines.{one_line, ends, joined, arriving, handle-arriving}
use libco_lite.System.{creates, perform, with_nothing, call, Reach, here, step}
use libco_lite.System.Linked.{IsSafe}
use libco_lite.System.Safety.{Reach-IsSafe}

-- "aB", a newline, and a last byte.
abbrev letters : Buffer
letters = update (update (update (λ _. 0) 0 97) 1 66) 2 10

upper_lem_example :
    ((upper letters 4).0 0
      ≡ (if ltb 0 4 && unbroken 1 0 letters then capital (letters 0) else letters 0))
    × ((upper letters 4).1 ≡ 4)
upper_lem_example = upper_lem letters 4 0

reverse_lem_example :
    (b : Buffer) × (reverse 4 letters 3 ≡ some (b, 3)) × ((j : ℕ) → b j ≡ flipped 3 letters j)
reverse_lem_example = reverse_lem letters 3

-- "ab" and a newline in two reads.
handle-arriving_example :
    handle upper (arriving ((97 ∷ []) ∷ (98 ∷ 10 ∷ []) ∷ []) (bytes [] ∷ [])) letters ≡ (
      let (b, m) = upper (update (put_bytes letters 0 (97 ∷ 98 ∷ 10 ∷ [])) 3 newline) 3 in
      wrote m b (bytes [] ∷ []))
unfolding one_line ends joined
handle-arriving_example =
    handle-arriving upper ((97 ∷ []) ∷ (98 ∷ 10 ∷ []) ∷ []) (bytes [] ∷ []) letters refl
      (omega arith)

world-Ready : Ready 0 world
world-Ready = runs 0 (omega arith) refl

pick-Picked_example : Returns (Picked world) (pick 1 world)
pick-Picked_example = pick-Picked 0 world env-IsValid world-Ready

pick-Punctual_example : Ends (λ _ v. Punctual sim world v) (pick 2 world)
pick-Punctual_example = pick-Punctual sim 2 world

schedule-Scheduled_example : Keeps (Scheduled world sleeping) (schedule 2 sleeping world)
schedule-Scheduled_example = schedule-Scheduled 2 world sleeping env-IsValid

co_create-Created_example : Created world 7 8 (co_create 7 8 world)
co_create-Created_example = co_create-Created world 7 8 env-IsValid

co_join-Joined_example : Joined world 1 (co_join 2 1 world)
co_join-Joined_example = co_join-Joined 2 world 1 env-IsValid (λ t e x. ground arith)

abbrev readable : EpollEvent
readable = record { events = 1; fd = 5 }

dispatch-Dispatched_example : Dispatched world readable (dispatch readable world)
dispatch-Dispatched_example = dispatch-Dispatched world readable (omega arith)

abbrev created : World sim
created = record world {
  env = record env {
    task_count = 4;
    task = update table 3 (some (record zeroed { id = 3; co_fn = 7; arg = 8 }));
  };
}

world-IsSafe : IsSafe returns_nothing world
world-IsSafe = record { live = env-IsLive; returns = λ x. cc }

creation : Reach returns_nothing world (returns_int (pos 0)) created
unfolding perform co_create free_from
creation = step here (call 1 (creates 7 8) with_nothing tt refl)

Reach-IsSafe_example : IsSafe (returns_int (pos 0)) created
Reach-IsSafe_example = Reach-IsSafe world-IsSafe creation

-- No thread has called yet.
abbrev process : Process sim
process = record {
  g_thread_env_arr = λ _. none;
  kernel = record { now = 60; pace = 1; script = [] };
}

co_get_thread_env-Obtained_example :
    (e : ThreadEnv sim) × (s : Process sim) × (co_get_thread_env 20481 process ≡ some (e, s))
    × Obtained 20481 process e s
co_get_thread_env-Obtained_example =
    co_get_thread_env-Obtained 20481 process (λ i e h. ground arith) (λ k. refl)

-- The main coroutine is alone, and inside `co_read`.
abbrev blocked : Task
blocked = record zeroed { status = wait; frame = waiting (reads 64) 5 }

abbrev alone : World sim
alone = record world {
  env = record env { task_count = 1; task = update (λ _. none) 0 (some blocked) };
}

alone-Idle : Idle alone.task
alone-Idle i t e = elim (Bool-cases (0 == i)) [
  | inl c ↦ let b : t ≡ blocked = ground arith in rw b (refl, refl)
  | inr c ↦ absurd (ground arith)
]

pick-Stuck_example : pick 1000 alone ≡ out_of_fuel
pick-Stuck_example = pick-Stuck alone alone-Idle blocked refl 1000
