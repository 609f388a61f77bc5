-- ===== src/Sched/Changed.antt =====
-- What one pass of the first loop of `pick` (src/sched.c) leaves behind: sleepers woken, and somebody
-- who runs.
use libco_lite.Base.{
  ℕ, zero, suc, ◌+◌, ◌^◌, ◌≤◌, ◌<◌, ◌≡◌, sym, ◌∙◌, ◌⊎◌, inl, inr, true, Option, some, arith, ltb,
  Bool-cases,
}
use libco_lite.Platform.{Platform}
use libco_lite.Thread.{nr_tasks, running, sleep, Task, World}
use libco_lite.Thread.Returns
use libco_lite.Thread.Returns.{Returns, returns, Keeps, kept, unfinished}
use libco_lite.Sched.{slot_running, wake_from}
use libco_lite.Sched.Wake.{reading, skip, skip-add, Within-word, reading-le, Woke, wake_all-Woke}

-- What may happen to a slot while the scheduler runs: nothing, or a sleeper is woken.
abbrev pub Change : Option Task → Option Task → Type 0
Change a b =
    (b ≡ a)
    ⊎ ((x : Task) × (a ≡ some x) × (x.status ≡ sleep) × (b ≡ some (record x { status = running })))

pub Change-trans : (a b c : Option Task) → Change a b → Change b c → Change a c
Change-trans a b c (inl e) (inl f) = inl (f ∙ e)
Change-trans a b c (inl e) (inr (x, f, s, g)) = inr (x, sym e ∙ f, s, g)
Change-trans a b c (inr (x, e, s, f)) (inl g) = inr (x, e, s, g ∙ f)
Change-trans a b c (inr (x, e, s, f)) (inr (y, g, r, k)) = absurd (ground arith)

-- From one world to another the scheduler has woken some sleepers and read the clock.
pub record Changed {p : Platform} (w v : World p) : Type 0 where
  pub rest : v.env ≡ record (w.env) { task = v.task }
  pub slots : (j : ℕ) → Change (w.task j) (v.task j)

module _ {p : Platform} where
  pub Woke-Changed : {lo hi : ℕ} {w v : World p} → Woke lo hi 0 nr_tasks w v → Changed w v
  Woke-Changed {w} {v} a = record {
    rest = a.rest;
    slots = λ j. elim (Bool-cases (ltb j nr_tasks)) [
      | inl i ↦ (a.inside j (omega arith) (ground arith)).change
      | inr o ↦ inl (a.outside j (inr (ground arith)))
    ];
  }

  pub Changed-trans : {w u v : World p} → Changed w u → Changed u v → Changed w v
  Changed-trans {w} {u} {v} a b = record {
    rest = rw (b.rest, a.rest);
    slots = λ j. Change-trans (w.task j) (u.task j) (v.task j) (a.slots j) (b.slots j);
  }

  -- A task that runs, or one that sleeps until a time which the clock is past for good after `m`
  -- more readings.
  pub data Ready (m : ℕ) (w : World p) : Type 0 where
    runs : (j : ℕ) → j < nr_tasks → slot_running w.task j ≡ true → Ready m w
    wakes :
        (j : ℕ) (x : Task)
        → j < nr_tasks
        → w.task j ≡ some x
        → x.status ≡ sleep
        → ((n : ℕ) → m ≤ n → x.wakeuptime < reading p (skip p n w.kernel))
        → Ready m w

  -- The table holds a running task.
  abbrev pub SomeRuns : World p → Type 0
  SomeRuns w = (j : ℕ) × (j < nr_tasks) × (slot_running w.task j ≡ true)

  -- Either some task runs now, or one will after fewer readings of the clock.
  abbrev pub Sooner : ℕ → World p → Type 0
  Sooner zero w = SomeRuns w
  Sooner (suc m) w = Ready m w

  pub wake_all-Sooner :
      (m : ℕ) (w : World p)
      → Ready m w
      → Returns (λ _ v. Changed w v × Sooner m v) (wake_from nr_tasks 0 w)
  wake_all-Sooner zero w (runs j h r) =
      Returns.weaken (wake_all-Woke w (Within-word p w.kernel))
        λ _ v a. let c = Woke-Changed a in (c, (j, h, ground (arith, c.slots j)))
  wake_all-Sooner (suc m) w (runs j h r) =
      Returns.weaken (wake_all-Woke w (Within-word p w.kernel))
        λ _ v a. let c = Woke-Changed a in (c, runs j h (ground (arith, c.slots j)))
  wake_all-Sooner zero w (wakes j x h f s late) =
      Returns.weaken
        (wake_all-Woke {lo = suc x.wakeuptime} {hi = 2 ^ 32} w
          (λ n. (late n (omega arith), reading-le p (skip p n w.kernel))))
        λ _ v a. (
          Woke-Changed a,
          (j, h, ground (arith, (a.inside j (omega arith) h).due x f s (omega arith))),
        )
  wake_all-Sooner (suc m) w (wakes j x h f s late) =
      Returns.weaken (wake_all-Woke w (Within-word p w.kernel)) λ _ v a.
        let c = Woke-Changed a in
        (
          c,
          elim (Bool-cases (slot_running v.task j)) [
            | inl r ↦ runs j h r
            | inr r ↦ wakes j x h (ground (arith, c.slots j)) s (λ n l.
                let late' = late (a.calls + n) (omega (arith, a.counted j x f s (omega arith) h)) in
                rw (a.kernel, skip-add p a.calls n w.kernel) late')
          ],
        )
