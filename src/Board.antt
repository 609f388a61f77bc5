-- ===== src/Board.antt =====
-- An abstract view of a thread's coroutines: who is current, the status of each coroutine, and who
-- stands on which block queue. It forgets stacks, masks, events, ids and counts. The relations say
-- what the library may do to such a board: `Quiet` between two switches, `Picks` at a switch.
pub mod Refine
pub mod Commands
pub mod Blocking
pub mod Steps
pub mod Nearer
pub mod Fair
pub mod Completes
pub mod Awakes
pub mod Stray
pub mod Line
mod Examples
use libco_lite.Base.{
  ℕ, ◌<◌, ◌≡◌, ◌≢◌, ◌⊎◌, Bool, true, false, Option, none, some, List, [], ◌∷◌, ◌++◌, ◌==◌,
  if◌then◌else◌,
}
use libco_lite.Platform.{Platform, has}
use libco_lite.Thread.{nr_tasks, Status, running, sleep, wait, exit, Task, World, is_running}
use libco_lite.Sched.Scan.{after, steps_to}
use libco_lite.Coroutine.{Control, returns_int, returns_nothing, goes}

-- What is seen of a coroutine: its status, and the time until which it sleeps if it does.
pub record Entry : Type 0 where
  pub status : Status
  pub until : ℕ

pub record Board : Type 0 where
  pub current : ℕ
  pub slots : ℕ → Option Entry
  pub queues : ℕ → List ℕ

abbrev pub entry : Task → Entry
entry t = record { status = t.status; until = t.wakeuptime }

abbrev pub shown : Option Task → Option Entry
shown none = none
shown (some t) = some (entry t)

abbrev pub view : {p : Platform} → World p → Board
view {p} w = record {
  current = w.current;
  slots = λ j. shown (w.task j);
  queues = λ fd. p.contents w.block_queue fd;
}

-- One slot is written; no one else's, and no queue.
pub record Writes (b c : Board) (i : ℕ) (o : Option Entry) : Type 0 where
  pub same_current : c.current ≡ b.current
  pub same_queues : (fd : ℕ) → c.queues fd ≡ b.queues fd
  pub written : (j : ℕ) → c.slots j ≡ (if i == j then o else b.slots j)

-- A sleeper wakes, or nothing happens to a slot.
abbrev pub Rouses : Option Entry → Option Entry → Type 0
Rouses a b =
    (b ≡ a)
    ⊎ ((e : Entry) × (a ≡ some e) × (e.status ≡ sleep) × (b ≡ some (record e { status = running })))

-- A move that leaves the current coroutine current.
pub data Quiet (b c : Board) : Type 0 where
  -- A coroutine is created, running, in a free slot.
  spawns :
      (i : ℕ) (e : Entry)
      → b.slots i ≡ none
      → e.status ≡ running
      → Writes b c i (some e)
      → Quiet b c
  -- A coroutine that has ended is freed.
  reaps : (i : ℕ) (e : Entry) → b.slots i ≡ some e → e.status ≡ exit → Writes b c i none → Quiet b c
  -- The current coroutine sets its own entry.
  marks : (a e : Entry) → b.slots b.current ≡ some a → Writes b c b.current (some e) → Quiet b c
  -- The current coroutine, waiting, goes to the end of a queue.
  parks :
      (fd : ℕ) (e : Entry)
      → b.slots b.current ≡ some e
      → e.status ≡ wait
      → ((g : ℕ) → has b.current (b.queues g) ≡ false)
      → c.current ≡ b.current
      → ((j : ℕ) → c.slots j ≡ b.slots j)
      → ((g : ℕ) → c.queues g ≡ (if fd == g then b.queues g ++ b.current ∷ [] else b.queues g))
      → Quiet b c
  -- The first on a queue, who waits, leaves it, and may be set running.
  serves :
      (fd i : ℕ) (rest : List ℕ) (e : Entry)
      → b.queues fd ≡ i ∷ rest
      → b.slots i ≡ some e
      → e.status ≡ wait
      → c.current ≡ b.current
      → ((g : ℕ) → c.queues g ≡ (if fd == g then rest else b.queues g))
      → (((j : ℕ) → c.slots j ≡ b.slots j)
          ⊎ ((j : ℕ)
              → c.slots j ≡ (if i == j then some (record e { status = running }) else b.slots j)))
      → Quiet b c
  -- Sleepers wake.
  rouses :
      c.current ≡ b.current
      → ((fd : ℕ) → c.queues fd ≡ b.queues fd)
      → ((j : ℕ) → Rouses (b.slots j) (c.slots j))
      → Quiet b c

pub data Quiets (b : Board) : Board → Type 0 where
  none_yet : Quiets b b
  and_then : {c d : Board} → Quiets b c → Quiet c d → Quiets b d

abbrev pub runs : Option Entry → Bool
runs none = false
runs (some e) = is_running e.status

-- The switch: the first running coroutine round from the current one becomes current, the current
-- one itself only if no other runs.
pub record Picks (b c : Board) : Type 0 where
  pub same_slots : (j : ℕ) → c.slots j ≡ b.slots j
  pub same_queues : (fd : ℕ) → c.queues fd ≡ b.queues fd
  pub in_range : c.current < nr_tasks
  pub chosen : runs (c.slots c.current) ≡ true
  pub passed :
      (d : ℕ)
      → 0 < d
      → d < nr_tasks
      → (c.current ≡ b.current) ⊎ (d < steps_to b.current c.current)
      → runs (c.slots (after b.current d)) ≡ false

-- What a step does to the board: moves without a switch where control comes back to the caller, and
-- such moves and then one switch where it goes on at a place behind `schedule`.
abbrev pub Refines : Control → Board → Board → Type 0
Refines (returns_int n) b c = Quiets b c
Refines returns_nothing b c = Quiets b c
Refines (goes f) b c = (d : Board) × Quiets b d × Picks d c
