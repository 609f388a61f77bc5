-- ===== src/Scene.antt =====
-- A small thread on the platform of `Sim`, for the examples: the main coroutine, one that sleeps,
-- and one that is parked on a descriptor.
use libco_lite.Base.{refl, inl, inr, none, some, [], ◌∷◌, arith, ◌≡◌, ◌≢◌, ◌==◌, update, Bool-cases}
use libco_lite.Sim.{sim}
use libco_lite.Thread.{
  sleep, wait, sleeping, waiting, reads, writes, exiting, Task, zeroed, Table, ThreadEnv, World,
}
use libco_lite.Thread.Valid.{IsValid, occupied}
use libco_lite.System.Linked.{IsLive}

-- Slot 1 sleeps until 50, slot 2 waits on descriptor 5.
abbrev pub sleeper : Task
sleeper = record zeroed { id = 1; status = sleep; wakeuptime = 50; frame = sleeping }

abbrev pub reader : Task
reader = record zeroed {
  id = 2;
  status = wait;
  frame = waiting (reads 64) 5;
  fds_idx = 1;
  fds = update (λ _. 0) 0 5;
  events = update (λ _. record { fd = 0; mask = 0 }) 5 (record { fd = 5; mask = 1 });
}

-- Who has called `co_write` on descriptor 5 before any other call on it.
abbrev pub writer : Task
writer = record reader { frame = waiting (writes 16) 5 }

-- The main coroutine, `a` in slot 1, and `b` in slot 2 and on the queue of descriptor 5.
abbrev pub peopled : (a b : Task) → ThreadEnv sim
peopled a b = record {
  task_count = 3;
  current = 0;
  epfd = 3;
  block_queue = update (λ _. []) 5 (2 ∷ []);
  task = update (update (update (λ _. none) 0 (some zeroed)) 1 (some a)) 2 (some b);
}

abbrev pub env : ThreadEnv sim
env = peopled sleeper reader

abbrev pub table : Table
table = env.task

abbrev pub at_60 : ThreadEnv sim → World sim
at_60 e = record { env = e; kernel = record { now = 60; pace = 1; script = [] } }

abbrev pub world : World sim
world = at_60 env

pub peopled-IsValid : (a b : Task) → a.id ≡ 1 → b.id ≡ 2 → IsValid (peopled a b)
unfolding occupied
peopled-IsValid a b x y = record {
  current_in = omega arith;
  current_live = refl;
  ids = λ i t e. ground arith;
  in_range = λ i h. ground arith;
  counted = refl;
}

pub peopled-IsLive :
    (a b : Task)
    → a.id ≡ 1
    → b.id ≡ 2
    → b.status ≡ wait
    → a.frame ≢ exiting
    → b.frame ≢ exiting
    → IsLive (peopled a b)
peopled-IsLive a b x y s fa fb = record {
  linked = record {
    valid = peopled-IsValid a b x y;
    ended = λ j t e k. absurd (ground arith);
    queued = λ fd j h. elim (Bool-cases (5 == fd)) [
      | inl e ↦ (b, ground arith, s)
      | inr e ↦ absurd (ground arith)
    ];
    once = λ fd g j a b. ground arith;
    single = λ fd j. ground arith;
  };
  alive = λ t e k. ground arith;
  off = λ fd. ground arith;
}

pub env-IsValid : IsValid env
env-IsValid = peopled-IsValid sleeper reader refl refl

pub env-IsLive : IsLive env
env-IsLive = peopled-IsLive sleeper reader refl refl refl (λ x. cc) (λ x. cc)
