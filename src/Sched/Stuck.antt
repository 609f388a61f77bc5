-- ===== src/Sched/Stuck.antt =====
-- When `pick` (src/sched.c) never returns: nobody runs and nobody sleeps.
use libco_lite.Base.{
  ℕ, zero, suc, ◌+◌, ◌%◌, ◌≡◌, refl, ◌⊎◌, inl, inr, false, some, ◌==◌, Option-cases, Bool-cases,
}
use libco_lite.Platform.{Platform}
use libco_lite.Thread.{nr_tasks, is_running, is_sleep, Task, Table, World, ok, out_of_fuel, deref}
use libco_lite.Sched.{round, endless, slot_running, scan, wake_one, wake_from, settle, repeat, pick}

-- No block of the table runs or sleeps.
abbrev pub Idle : Table → Type 0
Idle task =
    (i : ℕ) (t : Task)
    → task i ≡ some t
    → (is_running t.status ≡ false) × (is_sleep t.status ≡ false)

slot-Idle : (task : Table) (i : ℕ) → Idle task → slot_running task i ≡ false
slot-Idle task i h = elim (Option-cases (task i)) [
  | inl o ↦ rw (o, slot_running) refl
  | inr (t, o) ↦ rw (o, slot_running) ((h i t o).0)
]

-- The second loop finds nobody.
scan-Idle :
    (n : ℕ) (task : Table) (c i : ℕ)
    → Idle task
    → (scan n task c i ≡ round) ⊎ (scan n task c i ≡ endless)
unfolding scan
scan-Idle zero task c i h = inr refl
scan-Idle (suc n) task c i h =
    let idle = slot-Idle task ((i + 1) % nr_tasks) h in
    elim (Bool-cases ((i + 1) % nr_tasks == c)) [
      | inl e ↦ rw e (inl refl)
      | inr e ↦ rw (e, idle) (scan-Idle n task c ((i + 1) % nr_tasks) h)
    ]

module _ {p : Platform} (w : World p) (h : Idle w.task) where
  wake_one-Idle : (i : ℕ) → wake_one i w ≡ ok tt w
  unfolding wake_one
  wake_one-Idle i = elim (Option-cases (w.task i)) [
    | inl o ↦ rw (o, wake_one) refl
    | inr (t, o) ↦ rw (o, wake_one) (rw ((h i t o).1) refl)
  ]

  -- The first loop wakes nobody, and does not read the clock.
  wake_from-Idle : (n i : ℕ) → wake_from n i w ≡ ok tt w
  unfolding wake_from
  wake_from-Idle zero i = refl
  wake_from-Idle (suc n) i = rw (wake_one-Idle i) (wake_from-Idle n (i + 1))

  module _ (t : Task) (here : w.task w.current ≡ some t) where
    repeat-Idle : (rounds c : ℕ) → repeat rounds c w ≡ out_of_fuel
    unfolding repeat settle
    repeat-Idle zero c = refl
    repeat-Idle (suc rounds) c =
        rw (wake_from-Idle nr_tasks 0) (elim (scan-Idle nr_tasks w.task c c h) [
          | inl e ↦ rw (e, here, deref) (rw ((h w.current t here).0) (repeat-Idle rounds c))
          | inr e ↦ rw e refl
        ])

    -- With the current coroutine waiting or ended, and nobody else running or asleep, `pick` goes
    -- round its label `repeat` for ever: no number of rounds is enough for it to return. It does
    -- not even wait for events.
    pub pick-Stuck : (rounds : ℕ) → pick rounds w ≡ out_of_fuel
    unfolding pick
    pick-Stuck rounds = rw (here, deref) (repeat-Idle rounds t.id)
