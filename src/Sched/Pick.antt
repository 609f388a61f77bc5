-- ===== src/Sched/Pick.antt =====
-- `pick` (src/sched.c): which task it returns, and when it returns.
use libco_lite.Base.{
  ℕ, zero, suc, ◌<◌, ◌≡◌, ◌≢◌, sym, ap, ◌∙◌, ◌⊎◌, inl, inr, true, false, some, arith, ◌==◌,
  Option-cases, Bool-cases,
}
use libco_lite.Platform.{Platform}
use libco_lite.Thread.{
  nr_tasks, is_running, Task, Table, ThreadEnv, World, Run, Cmd, ok, out_of_fuel, deref,
}
use libco_lite.Thread.Returns
use libco_lite.Thread.Returns.{Returns, returns, Keeps, kept, unfinished}
use libco_lite.Thread.Valid.{IsValid, occupied-same}
use libco_lite.Sched.{Found, next, round, slot_running, settle, repeat, pick}
use libco_lite.Sched.Wake.{Within-word, wake_all-Woke}
use libco_lite.Sched.Scan.{
  after, Scanned, first, nobody, scan_lem, steps_to, after-steps_to, steps_to-after,
}
use libco_lite.Sched.Changed.{Changed, Woke-Changed, Changed-trans, Ready, wake_all-Sooner}

slot_running-task :
    (task : Table) (i : ℕ) (t : Task) → task i ≡ some t → slot_running task i ≡ is_running t.status
slot_running-task task i t e = ground arith

-- `pick` has chosen slot `j`: it runs, and every slot from the one after the current task's round to
-- `j` does not. Where `j` is the current task's own slot, no other task runs.
pub record Picked {p : Platform} (w : World p) (j : ℕ) (v : World p) : Type 0 where
  pub changed : Changed w v
  pub in_range : j < nr_tasks
  pub chosen : slot_running v.task j ≡ true
  pub passed :
      (d : ℕ)
      → 0 < d
      → d < nr_tasks
      → (j ≡ w.current) ⊎ (d < steps_to w.current j)
      → slot_running v.task (after w.current d) ≡ false

module _ {p : Platform} where
  -- Waking sleepers keeps the environment well-formed.
  pub IsValid-Changed : {w v : World p} → IsValid w.env → Changed w v → IsValid v.env
  IsValid-Changed {w} {v} valid c = record {
    current_in = ground (arith, c.rest, valid.current_in);
    current_live = ground (arith, c.rest, valid.current_live, c.slots v.current);
    ids = λ i t e. elim (c.slots i) [
      | inl s ↦ valid.ids i t (sym s ∙ e)
      | inr (x, f, a, s) ↦ ground (arith, valid.ids i x f)
    ];
    in_range = λ i h. ground (arith, c.slots i, valid.in_range i h);
    counted =
        let same : v.task_count ≡ w.task_count = ap (λ (e : ThreadEnv p). e.task_count) c.rest in
        same
        ∙ valid.counted
        ∙ occupied-same nr_tasks w.task v.task (λ i. ground (arith, c.slots i));
  }

  Picked-trans : {w u v : World p} {j : ℕ} → Changed w u → Picked u j v → Picked w j v
  Picked-trans {w} {u} {v} {j} a b = record {
    changed = Changed-trans a b.changed;
    in_range = b.in_range;
    chosen = b.chosen;
    passed = λ d l h o. ground (arith, a.rest, b.passed d l h);
  }

  -- What the second loop finds in a table where some task runs.
  Picked-scan :
      (w v : World p) (f : Found)
      → w.current < nr_tasks
      → Changed w v
      → Scanned v.task w.current 0 f
      → ((j : ℕ) × (f ≡ next j) × Picked w j v)
        ⊎ ((f ≡ round) × ((j : ℕ) → j < nr_tasks → w.current ≢ j → slot_running v.task j ≡ false))
  Picked-scan w v f here c (first d l h r before e) = inl (
    after w.current d,
    e,
    record {
      changed = c;
      in_range = omega arith;
      chosen = r;
      passed = λ x a b o. before x a (steps_to-after w.current d x here l h o);
    },
  )
  Picked-scan w v f here c (nobody idle e) = inr (
    e,
    λ j h ne.
        let (back, pos, small) = after-steps_to w.current j here h ne in
        rw (← back) (idle (steps_to w.current j) pos small),
  )

  -- Behind the first loop the code returns a slot as `Picked` says, or finds no task that runs
  -- and goes back.
  pub settle-Picked :
      (R : Run p ℕ → Type 0) (w v : World p) (c : ℕ) (again : Cmd p ℕ)
      → w.current ≡ c
      → IsValid w.env
      → Changed w v
      → ((j : ℕ) → Picked w j v → R (ok j v))
      → (((j : ℕ) → j < nr_tasks → slot_running v.task j ≡ false) → R (again v))
      → R (settle c again v)
  unfolding settle
  settle-Picked R w v k again here_eq valid c done idle =
      let here = valid.current_in in
      rw (← here_eq) (elim (Picked-scan w v _ here c (scan_lem v.task w.current here)) [
        | inl (j, e, picked) ↦ rw e (done j picked)
        | inr (e, alone) ↦ rw e (
            let same : v.current ≡ w.current = ap (λ (e : ThreadEnv p). e.current) c.rest in
            elim (Option-cases (v.task v.current)) [
              | inl o ↦ absurd (ground (arith, c.slots w.current, valid.current_live))
              | inr (t, o) ↦
                  rw (o, deref)
                    (elim (Bool-cases (is_running t.status)) [
                      | inl r ↦ rw r (
                          done v.current (record {
                            changed = c;
                            in_range = omega arith;
                            chosen = slot_running-task v.task v.current t o ∙ r;
                            passed =
                                λ d l h x. alone (after w.current d) (omega arith) (omega arith);
                          }))
                      | inr r ↦ rw r (
                          idle (λ j h. elim (Bool-cases (v.current == j)) [
                            | inl e' ↦
                                slot_running-task v.task j t (ap v.task (ground arith) ∙ o) ∙ r
                            | inr e' ↦ alone j h (ground arith)
                          ]))
                    ])
            ])
      ])

  repeat-Picked :
      (m : ℕ) (w : World p) (c : ℕ)
      → w.current ≡ c
      → IsValid w.env
      → Ready m w
      → Returns (Picked w) (repeat (suc m) c w)
  unfolding repeat
  repeat-Picked zero w c here valid ready =
      Returns.bind (λ _. settle c (λ v. out_of_fuel)) (wake_all-Sooner zero w ready)
        λ _ v (ch, (j, h, r)).
          settle-Picked (Returns (Picked w)) w v c (λ v. out_of_fuel) here valid ch (λ j. returns)
            (λ idle. absurd (ground (arith, idle j h)))
  repeat-Picked (suc m) w c here valid ready =
      Returns.bind (λ _. settle c (repeat (suc m) c)) (wake_all-Sooner (suc m) w ready)
        λ _ v (ch, sooner).
          let same : v.current ≡ c = ap (λ (e : ThreadEnv p). e.current) ch.rest ∙ here in
          settle-Picked (Returns (Picked w)) w v c (repeat (suc m) c) here valid ch (λ j. returns)
            (λ idle.
              Returns.weaken (repeat-Picked m v c same (IsValid-Changed valid ch) sooner)
                (λ j u. Picked-trans ch))

  -- In a well-formed environment with a running task in the table, or with a sleeper whose time the
  -- clock has passed for good after `m` readings, `pick` returns within `m + 1` rounds. It has then
  -- woken sleepers only, and chosen the first running slot after the current task's, which is the
  -- current task's own if no other runs.
  pub pick-Picked :
      (m : ℕ) (w : World p) → IsValid w.env → Ready m w → Returns (Picked w) (pick (suc m) w)
  unfolding pick
  pick-Picked m w valid ready = elim (Option-cases (w.task w.current)) [
    | inl e ↦ absurd (ground (arith, valid.current_live))
    | inr (t, e) ↦
        rw (e, deref) (repeat-Picked m w t.id (sym (valid.ids w.current t e)) valid ready)
  ]

  repeat-Keeps :
      (rounds : ℕ) (w : World p) (c : ℕ)
      → w.current ≡ c
      → IsValid w.env
      → Keeps (Picked w) (repeat rounds c w)
  unfolding repeat
  repeat-Keeps zero w c here valid = unfinished
  repeat-Keeps (suc rounds) w c here valid =
      Returns.after (λ _. settle c (repeat rounds c)) (wake_all-Woke w (Within-word p w.kernel))
        λ _ v a.
          let ch = Woke-Changed a in
          let same : v.current ≡ c = ap (λ (e : ThreadEnv p). e.current) ch.rest ∙ here in
          settle-Picked (Keeps (Picked w)) w v c (repeat rounds c) here valid ch (λ j. kept)
            (λ idle.
              Returns.relax (repeat-Keeps rounds v c same (IsValid-Changed valid ch))
                (λ j u. Picked-trans ch))

  -- In a well-formed environment `pick` never faults, whatever the rounds; if it returns, it has
  -- woken sleepers only and chosen the first running slot after the current task's, or that of the
  -- current task if no other runs.
  pub pick-Keeps : (rounds : ℕ) (w : World p) → IsValid w.env → Keeps (Picked w) (pick rounds w)
  unfolding pick
  pick-Keeps rounds w valid = elim (Option-cases (w.task w.current)) [
    | inl e ↦ absurd (ground (arith, valid.current_live))
    | inr (t, e) ↦ rw (e, deref) (repeat-Keeps rounds w t.id (sym (valid.ids w.current t e)) valid)
  ]
