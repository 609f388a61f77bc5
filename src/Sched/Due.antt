-- ===== src/Sched/Due.antt =====
-- Nobody wakes early (src/sched.c, `pick` and `co_sleep`): what the clock has shown when a sleeper
-- is set running.
use libco_lite.Base.{
  ℕ, zero, suc, ◌+◌, ◌<◌, ◌≡◌, refl, sym, subst, ap, ◌∙◌, ◌⊎◌, inl, inr, Option, some, arith, ◌==◌,
  ==_iff, ltb, update, update_self, update-ne, Option-cases, Bool-cases,
}
use libco_lite.Platform.{Platform}
use libco_lite.Thread.{
  nr_tasks, running, sleep, is_running, is_sleep, Frame, Task, World, Cmd, deref, modify,
}
use libco_lite.Thread.Returns.{Ends, Ends-ok, Ends-fault, Ends-bind}
use libco_lite.Sched.{
  Found, next, round, endless, scan, wake_one, wake_from, settle, repeat, pick, co_switch_to,
}
use libco_lite.Sched.Wake.{reading, skip, skip-add, getmstime-reading, is_sleep_iff}
use libco_lite.Sched.Sleep.{asleep}

module _ (p : Platform) where
  -- A reading past `time`, among the first `calls` from `k` on.
  abbrev pub Passed : (k : p.Kernel) (calls time : ℕ) → Type 0
  Passed k calls time = (n : ℕ) × (n < calls) × (time < reading p (skip p n k))

  -- A slot is as it was, or its sleeper has been woken, and the clock has passed its time.
  abbrev pub Woken : (k : p.Kernel) (calls : ℕ) → Option Task → Option Task → Type 0
  Woken k calls a b =
      (b ≡ a)
      ⊎ ((x : Task) × (a ≡ some x)
          × (x.status ≡ sleep)
          × (b ≡ some (record x { status = running }))
          × Passed k calls x.wakeuptime)

  Passed-add : (k : p.Kernel) (m n time : ℕ) → Passed k m time → Passed k (m + n) time
  Passed-add k m n time (i, h, late) = (i, omega arith, late)

  Passed-skip : (k : p.Kernel) (m n time : ℕ) → Passed (skip p m k) n time → Passed k (m + n) time
  Passed-skip k m n time (i, h, late) = (m + i, omega arith, rw (← skip-add p m i k) late)

  -- From `w` to `v` the clock has been read, the current coroutine is the same, and slots have changed as `Woken` says.
  pub record Punctual (w v : World p) : Type 0 where
    pub calls : ℕ
    pub clock : v.kernel ≡ skip p calls w.kernel
    pub same_current : v.current ≡ w.current
    pub slots : (j : ℕ) → Woken w.kernel calls (w.task j) (v.task j)

  Woken-trans :
      (k : p.Kernel) (m n : ℕ) (a b c : Option Task)
      → Woken k m a b
      → Woken (skip p m k) n b c
      → Woken k (m + n) a c
  Woken-trans k m n a b c (inl e) (inl f) = inl (f ∙ e)
  Woken-trans k m n a b c (inl e) (inr (x, f, s, g, late)) =
      inr (x, sym e ∙ f, s, g, Passed-skip k m n x.wakeuptime late)
  Woken-trans k m n a b c (inr (x, e, s, f, late)) (inl g) =
      inr (x, e, s, g ∙ f, Passed-add k m n x.wakeuptime late)
  Woken-trans k m n a b c (inr (x, e, s, f, late)) (inr (y, g, r, h, later)) = absurd (ground arith)

  Punctual-refl : (w : World p) → Punctual w w
  unfolding skip
  Punctual-refl w = record { calls = 0; clock = refl; same_current = refl; slots = λ j. inl refl }

  Punctual-trans : (w u v : World p) → Punctual w u → Punctual u v → Punctual w v
  Punctual-trans w u v a b = record {
    calls = a.calls + b.calls;
    clock = rw (b.clock, a.clock) (skip-add p a.calls b.calls w.kernel);
    same_current = b.same_current ∙ a.same_current;
    slots = λ j.
        Woken-trans w.kernel a.calls b.calls (w.task j) (u.task j) (v.task j) (a.slots j)
          (subst (λ k. Woken k b.calls (u.task j) (v.task j)) a.clock (b.slots j));
  }

  wake_one-Punctual : (i : ℕ) (w : World p) → Ends (λ _ v. Punctual w v) (wake_one i w)
  unfolding wake_one skip
  wake_one-Punctual i w = elim (Option-cases (w.task i)) [
    | inl e ↦ rw (e, wake_one) (Ends-ok (λ _ v. Punctual w v) (Punctual-refl w))
    | inr (t, e) ↦ elim (Bool-cases (is_sleep t.status)) [
      | inr awake ↦ rw (e, wake_one, awake) (Ends-ok (λ _ v. Punctual w v) (Punctual-refl w))
      | inl asleep ↦
          rw (e, wake_one, asleep, getmstime-reading p w)
            (elim (Bool-cases (ltb t.wakeuptime (reading p w.kernel))) [
              | inr later ↦ rw later (
                  Ends-ok (λ _ v. Punctual w v)
                    (record {
                      calls = 1;
                      clock = refl;
                      same_current = refl;
                      slots = λ j. inl refl;
                    }))
              | inl past ↦
                  rw (past, e)
                    (Ends-ok (λ _ v. Punctual w v)
                      (record {
                        calls = 1;
                        clock = refl;
                        same_current = refl;
                        slots = λ j. elim (Bool-cases (i == j)) [
                          | inr ne ↦ inl (update-ne w.task i _ j (ground arith))
                          | inl same ↦
                              let ij : i ≡ j = ground arith in
                              inr (
                                t,
                                subst (λ x. w.task x ≡ some t) ij e,
                                is_sleep_iff _ asleep,
                                subst
                                    (λ x.
                                      update w.task i (some (record t { status = running })) x
                                      ≡ some (record t { status = running }))
                                    ij (update_self w.task i _),
                                (0, omega arith, ground arith),
                              )
                        ];
                      }))
            ])
    ]
  ]

  pub wake_from-Punctual : (n i : ℕ) (w : World p) → Ends (λ _ v. Punctual w v) (wake_from n i w)
  unfolding wake_from
  wake_from-Punctual zero i w = Ends-ok (λ _ v. Punctual w v) (Punctual-refl w)
  wake_from-Punctual (suc n) i w =
      Ends-bind (λ _ v. Punctual w v) (λ _ v. Punctual w v) (wake_one i w)
        (λ _. wake_from n (i + 1)) (wake_one-Punctual i w)
        λ _ u a r v e. Punctual-trans w u v a (wake_from-Punctual n (i + 1) u r v e)

  Found-cases : (f : Found) → ((j : ℕ) × (f ≡ next j)) ⊎ (f ≡ round) ⊎ (f ≡ endless)
  Found-cases (next j) = inl (j, refl)
  Found-cases round = inr (inl refl)
  Found-cases endless = inr (inr refl)

  pub settle-Punctual :
      (w : World p) (c : ℕ) (again : Cmd p ℕ)
      → Ends (λ _ v. Punctual w v) (again w)
      → Ends (λ _ v. Punctual w v) (settle c again w)
  unfolding settle
  settle-Punctual w c again h = elim (Found-cases (scan nr_tasks w.task c c)) [
    | inl (j, e) ↦ rw e (Ends-ok (λ _ v. Punctual w v) (Punctual-refl w))
    | inr (inl e) ↦ rw e (elim (Option-cases (w.task w.current)) [
      | inl o ↦ rw (o, deref) (Ends-fault (λ _ v. Punctual w v))
      | inr (t, o) ↦
          rw (o, deref)
            (elim (Bool-cases (is_running t.status)) [
              | inl r ↦ rw r (Ends-ok (λ _ v. Punctual w v) (Punctual-refl w))
              | inr r ↦ rw r h
            ])
    ])
    | inr (inr e) ↦ rw e (λ a v x. cc)
  ]

  pub repeat-Punctual :
      (rounds c : ℕ) (w : World p) → Ends (λ _ v. Punctual w v) (repeat rounds c w)
  unfolding repeat
  repeat-Punctual zero c w = λ a v x. cc
  repeat-Punctual (suc rounds) c w =
      Ends-bind (λ _ v. Punctual w v) (λ _ v. Punctual w v) (wake_from nr_tasks 0 w)
        (λ _. settle c (repeat rounds c)) (wake_from-Punctual nr_tasks 0 w)
        λ _ u a r v e.
          Punctual-trans w u v a
            (settle-Punctual u c (repeat rounds c) (repeat-Punctual rounds c u) r v e)

  -- Whatever the rounds, when `pick` has returned, it has woken only sleepers for whose time one of
  -- its readings of the clock was too late, and has changed no other slot.
  pub pick-Punctual : (rounds : ℕ) (w : World p) → Ends (λ _ v. Punctual w v) (pick rounds w)
  unfolding pick
  pick-Punctual rounds w = elim (Option-cases (w.task w.current)) [
    | inl o ↦ rw (o, deref) (Ends-fault (λ _ v. Punctual w v))
    | inr (t, o) ↦ rw (o, deref) (repeat-Punctual rounds t.id w)
  ]

  -- A switch leaves every status, and the kernel.
  pub co_switch_to-status :
      (j : ℕ) (site : Frame) (i : ℕ) (y : Task) (u : World p)
      → u.task i ≡ some y
      → Ends
          (λ f v. (x : Task) × (v.task i ≡ some x) × (x.status ≡ y.status) × (v.kernel ≡ u.kernel))
          (co_switch_to j site u)
  unfolding co_switch_to
  co_switch_to-status j site i y u h =
      let P = λ (f : Frame) (v : World p).
        (x : Task) × (v.task i ≡ some x) × (x.status ≡ y.status) × (v.kernel ≡ u.kernel) in
      elim (Bool-cases (u.current == j)) [
        | inl e ↦ rw e (Ends-ok P (y, h, refl, refl))
        | inr e ↦ rw e (elim (Option-cases (u.task u.current)) [
          | inl o ↦ rw (o, modify) (Ends-fault P)
          | inr (c, o) ↦
              let c' = record c { frame = site } in
              let written : (x : Task) × (update u.task u.current (some c') i ≡ some x)
                  × (x.status ≡ y.status)
                  × (u.kernel ≡ u.kernel) =
                elim (Bool-cases (u.current == i)) [
                  | inl z ↦ (
                    c',
                    ground arith,
                    ground (arith, o, h, ap (λ k. u.task k) ((==_iff u.current i).0 z)),
                    refl,
                  )
                  | inr z ↦ (y, ground arith, refl, refl)
                ] in
              rw (o, modify)
                (elim (Option-cases (update u.task u.current (some c') j)) [
                  | inl q ↦ rw (q, deref) (Ends-fault P)
                  | inr (t, q) ↦ rw (q, deref) (Ends-ok P written)
                ])
        ])
      ]

  -- From `k` to `v` the clock has been read some number of times, and the block in a slot sleeps
  -- still, or it runs and one of those readings was past `time`.
  abbrev pub Late : (k : p.Kernel) (time i : ℕ) → World p → Type 0
  Late k time i v =
      (calls : ℕ) × (v.kernel ≡ skip p calls k)
      × ((x : Task) × (v.task i ≡ some x)
          × ((x.status ≡ sleep) ⊎ ((x.status ≡ running) × Passed k calls time)))
