-- ===== src/Sched/Awake.antt =====
-- A sleeper whose time has come is woken by the next `pick` (src/sched.c).
use libco_lite.Base.{
  ℕ, zero, suc, ◌+◌, ◌≤◌, ◌<◌, ◌≡◌, ◌≢◌, refl, sym, ◌∙◌, ◌⊎◌, inl, inr, true, some, arith, ◌==◌,
  ltb, update_self, update-ne, Bool-cases, Option-cases,
}
use libco_lite.Platform.{Platform}
use libco_lite.Thread.{nr_tasks, running, sleep, is_sleep, Task, World, deref}
use libco_lite.Thread.Returns
use libco_lite.Thread.Returns.{Returns, returns, Returns-Ends, Ends, Ends-ok, Ends-fault, Ends-bind}
use libco_lite.Sched.{wake_one, wake_from, settle, repeat, pick}
use libco_lite.Sched.Wake.{reading, tick, skip, getmstime-reading, Within-word, wake_all-Woke}
use libco_lite.Thread.Valid.{IsValid}
use libco_lite.Sched.Pick.{Picked, settle-Picked}
use libco_lite.Sched.Changed.{Woke-Changed}
use libco_lite.Sched.Due.{Punctual, wake_from-Punctual, settle-Punctual, repeat-Punctual}

-- The block of a sleeper behind its wake-up.
abbrev pub awake : Task → Task
awake t = record t { status = running }

-- The next `n` readings of the clock are past the sleeper's time.
abbrev pub IsDue : (p : Platform) (n : ℕ) → Task → p.Kernel → Type 0
IsDue p n t k = (m : ℕ) → m < n → t.wakeuptime < reading p (skip p m k)

module _ {p : Platform} (j : ℕ) (t : Task) where
  -- It has been woken, and the current coroutine is the one of `w`.
  abbrev pub Wakened : (w v : World p) → Type 0
  Wakened w v = (v.task j ≡ some (awake t)) × (v.current ≡ w.current)

  Punctual-Wakened : (w u v : World p) → Wakened w u → Punctual p u v → Wakened w v
  Punctual-Wakened w u v (e, same) b = (
    elim (b.slots j) [ inl f ↦ f ∙ e | inr (x, f, s, g, late) ↦ absurd (ground arith) ],
    b.same_current ∙ same,
  )

  -- The body of the loop at another slot.
  record Aside (w u : World p) : Type 0 where
    slot : u.task j ≡ w.task j
    same_current : u.current ≡ w.current
    clock : (u.kernel ≡ w.kernel) ⊎ (u.kernel ≡ tick p w.kernel)

  wake_one-Aside : (i : ℕ) (w : World p) → i ≢ j → Ends (λ _ u. Aside w u) (wake_one i w)
  unfolding wake_one
  wake_one-Aside i w ne = elim (Option-cases (w.task i)) [
    | inl e ↦
        rw (e, wake_one)
          (Ends-ok (λ _ u. Aside w u)
            (record { slot = refl; same_current = refl; clock = inl refl }))
    | inr (x, e) ↦ elim (Bool-cases (is_sleep x.status)) [
      | inr s ↦
          rw (e, wake_one, s)
            (Ends-ok (λ _ u. Aside w u)
              (record { slot = refl; same_current = refl; clock = inl refl }))
      | inl s ↦
          rw (e, wake_one, s, getmstime-reading p w)
            (elim (Bool-cases (ltb x.wakeuptime (reading p w.kernel))) [
              | inr later ↦ rw later (
                  Ends-ok (λ _ u. Aside w u)
                    (record { slot = refl; same_current = refl; clock = inr refl }))
              | inl past ↦
                  rw (past, e)
                    (Ends-ok (λ _ u. Aside w u)
                      (record {
                        slot = update-ne w.task i _ j ne;
                        same_current = refl;
                        clock = inr refl;
                      }))
            ])
    ]
  ]

  module _ (asleep : t.status ≡ sleep) where
    -- And at its own.
    wake_one-Wakened :
        (w : World p)
        → w.task j ≡ some t
        → t.wakeuptime < reading p w.kernel
        → Ends (λ _ u. Wakened w u) (wake_one j w)
    unfolding wake_one
    wake_one-Wakened w e late =
        let s : is_sleep t.status ≡ true = rw asleep refl in
        let past : ltb t.wakeuptime (reading p w.kernel) ≡ true = ground arith in
        rw (e, wake_one, s, getmstime-reading p w)
          (rw (past, e)
            (Ends-ok (λ _ u. Wakened w u) (update_self w.task j (some (awake t)), refl)))

    IsDue-Aside :
        (n : ℕ) (w u : World p) → Aside w u → IsDue p (suc n) t w.kernel → IsDue p n t u.kernel
    unfolding skip
    IsDue-Aside n w u a due m lt = elim (a.clock) [
      | inl e ↦ rw e (due m (omega arith))
      | inr e ↦ rw e (due (suc m) (omega arith))
    ]

    wake_from-Wakened :
        (n i : ℕ) (w : World p)
        → w.task j ≡ some t
        → i ≤ j
        → j < i + n
        → IsDue p n t w.kernel
        → Ends (λ _ u. Wakened w u) (wake_from n i w)
    unfolding wake_from skip
    wake_from-Wakened zero i w e lo hi due = absurd (omega arith)
    wake_from-Wakened (suc n) i w e lo hi due = elim (Bool-cases (i == j)) [
      | inl same ↦
          let ij : i ≡ j = ground arith in
          Ends-bind (λ _ u. Wakened w u) (λ _ u. Wakened w u) (wake_one i w)
            (λ _. wake_from n (i + 1)) (rw ij (wake_one-Wakened w e (due 0 (omega arith))))
            λ _ u a r v f. Punctual-Wakened w u v a (wake_from-Punctual p n (i + 1) u r v f)
      | inr other ↦
          let ne : i ≢ j = ground arith in
          Ends-bind (λ _ u. Aside w u) (λ _ u. Wakened w u) (wake_one i w)
            (λ _. wake_from n (i + 1)) (wake_one-Aside i w ne)
            λ _ u a r v f.
              let (k, same) =
                wake_from-Wakened n (i + 1) u (a.slot ∙ e) (omega arith) (omega arith)
                  (IsDue-Aside n w u a due) r v f in
              (k, same ∙ a.same_current)
    ]

    repeat-Wakened :
        (rounds c : ℕ) (w : World p)
        → j < nr_tasks
        → w.task j ≡ some t
        → IsDue p nr_tasks t w.kernel
        → Ends (λ _ v. Wakened w v) (repeat rounds c w)
    unfolding repeat
    repeat-Wakened zero c w lt e due = λ a v x. cc
    repeat-Wakened (suc rounds) c w lt e due =
        Ends-bind (λ _ u. Wakened w u) (λ _ v. Wakened w v) (wake_from nr_tasks 0 w)
          (λ _. settle c (repeat rounds c))
          (wake_from-Wakened nr_tasks 0 w e (omega arith) (omega arith) due)
          λ _ u a r v f.
            Punctual-Wakened w u v a
              (settle-Punctual p u c (repeat rounds c) (repeat-Punctual p rounds c u) r v f)

    pub pick-Wakened :
        (rounds : ℕ) (w : World p)
        → j < nr_tasks
        → w.task j ≡ some t
        → IsDue p nr_tasks t w.kernel
        → Ends (λ _ v. Wakened w v) (pick rounds w)
    unfolding pick
    pick-Wakened rounds w lt e due = elim (Option-cases (w.task w.current)) [
      | inl n ↦ rw (n, deref) (Ends-fault (λ _ v. Wakened w v))
      | inr (x, n) ↦ rw (n, deref) (repeat-Wakened rounds x.id w lt e due)
    ]

    repeat-Picked :
        (rounds c : ℕ) (w : World p)
        → w.current ≡ c
        → IsValid w.env
        → j < nr_tasks
        → w.task j ≡ some t
        → IsDue p nr_tasks t w.kernel
        → Returns (Picked w) (repeat (suc rounds) c w)
    unfolding repeat
    repeat-Picked rounds c w here valid lt e due =
        Returns.bind (λ _. settle c (repeat rounds c))
          (Returns-Ends (wake_all-Woke w (Within-word p w.kernel))
            (wake_from-Wakened nr_tasks 0 w e (omega arith) (omega arith) due))
          λ _ v (a, (h, same)).
            settle-Picked (Returns (Picked w)) w v c (repeat rounds c) here valid (Woke-Changed a)
              (λ k. returns) (λ idle. absurd (ground (arith, idle j lt, h)))

    -- One round is enough.
    pub pick-due :
        (rounds : ℕ) (w : World p)
        → IsValid w.env
        → j < nr_tasks
        → w.task j ≡ some t
        → IsDue p nr_tasks t w.kernel
        → Returns (Picked w) (pick (suc rounds) w)
    unfolding pick
    pick-due rounds w valid lt e due = elim (Option-cases (w.task w.current)) [
      | inl n ↦ absurd (ground (arith, valid.current_live))
      | inr (x, n) ↦
          rw (n, deref) (repeat-Picked rounds x.id w (sym (valid.ids w.current x n)) valid lt e due)
    ]
