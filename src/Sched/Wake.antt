-- ===== src/Sched/Wake.antt =====
-- The first loop of `pick` (src/sched.c): which sleepers it wakes.
use libco_lite.Base.{
  ℕ, zero, suc, ◌+◌, ◌^◌, ◌≤◌, ◌<◌, ◌≡◌, refl, ◌∙◌, ◌⊎◌, inl, inr, true, Option, none, some, arith,
  ◌==◌, ltb, update_self, update-ne, is_some, Option-cases, Bool-cases,
}
use libco_lite.Platform.{Platform, Timeval}
use libco_lite.Thread.{
  nr_tasks, Status, running, sleep, wait, exit, is_sleep, Task, World, ok, put_task,
}
use libco_lite.Thread.Returns
use libco_lite.Thread.Returns.{Returns, returns}
use libco_lite.Sched.{ms_of, getmstime, wake_one, wake_from}

module _ (p : Platform) where
  -- What the clock shows to the next call of `getmstime`.
  unfoldable pub reading : p.Kernel → ℕ
  reading k = elim ((p.gettimeofday k).0) [ none ↦ 0 | some t ↦ ms_of t ]

  -- The kernel after that call, and after `n` such calls.
  unfoldable pub tick : p.Kernel → p.Kernel
  tick k = (p.gettimeofday k).1

  unfoldable pub skip : ℕ → p.Kernel → p.Kernel
  skip zero k = k
  skip (suc n) k = skip n (tick k)

  pub skip-add : (m n : ℕ) (k : p.Kernel) → skip n (skip m k) ≡ skip (m + n) k
  unfolding skip
  skip-add zero n k = let e : 0 + n ≡ n = omega arith in rw e
  skip-add (suc m) n k =
      let e : suc m + n ≡ suc (m + n) = omega arith in rw e (skip-add m n (tick k))

  -- Every reading from here on lies between two bounds.
  abbrev pub Within : ℕ → ℕ → p.Kernel → Type 0
  Within lo hi k = (n : ℕ) → (lo ≤ reading (skip n k)) × (reading (skip n k) ≤ hi)

  pub Within-skip : {lo hi : ℕ} (n : ℕ) (k : p.Kernel) → Within lo hi k → Within lo hi (skip n k)
  Within-skip n k h m = rw (skip-add n m k) (h (n + m))

  pub reading-le : (k : p.Kernel) → reading k ≤ 2 ^ 32
  unfolding reading ms_of
  reading-le k = elim (Option-cases (p.gettimeofday k).0) [
    | inl e ↦ rw (e, reading) (omega arith)
    | inr (t, e) ↦ rw (e, reading) (omega arith)
  ]

  -- Bounds that hold of any clock.
  pub Within-word : (k : p.Kernel) → Within 0 (2 ^ 32) k
  Within-word k n = (omega arith, reading-le (skip n k))

  pub getmstime-reading :
      (w : World p) → getmstime w ≡ ok (reading w.kernel) (record w { kernel = tick w.kernel })
  unfolding getmstime reading tick
  getmstime-reading w = elim (Option-cases (p.gettimeofday w.kernel).0) [
    | inl e ↦ absurd (broken e (p.clock_works w.kernel))
    | inr (t, e) ↦ rw (e, getmstime, reading)
  ]
    where
      broken : {o : Option Timeval} → o ≡ none → is_some o ≡ true → ⊥
      broken e h = ground arith

-- The effect of the loop on one slot, for clock readings from `lo` to `hi`: at most it wakes a
-- sleeper; it wakes one that is due before `lo`, and none that is due at `hi` or later.
pub record Wakes (lo hi : ℕ) (a b : Option Task) : Type 0 where
  pub change :
      (b ≡ a)
      ⊎ ((x : Task) × (a ≡ some x)
          × (x.status ≡ sleep)
          × (b ≡ some (record x { status = running })))
  pub due :
      (x : Task)
      → a ≡ some x
      → x.status ≡ sleep
      → x.wakeuptime < lo
      → b ≡ some (record x { status = running })
  pub early : (x : Task) → a ≡ some x → hi ≤ x.wakeuptime → b ≡ a

pub is_sleep_iff : (s : Status) → is_sleep s ≡ true → s ≡ sleep
is_sleep_iff running h = cc
is_sleep_iff sleep h = refl
is_sleep_iff wait h = cc
is_sleep_iff exit h = cc

pub record Woke {p : Platform} (lo hi i n : ℕ) (w v : World p) : Type 0 where
  pub rest : v.env ≡ record (w.env) { task = v.task }
  pub calls : ℕ
  pub kernel : v.kernel ≡ skip p calls w.kernel
  pub counted :
      (j : ℕ) (x : Task) → w.task j ≡ some x → x.status ≡ sleep → i ≤ j → j < i + n → 1 ≤ calls
  pub outside : (j : ℕ) → (j < i) ⊎ (i + n ≤ j) → v.task j ≡ w.task j
  pub inside : (j : ℕ) → i ≤ j → j < i + n → Wakes lo hi (w.task j) (v.task j)

module _ {p : Platform} {lo hi : ℕ} where
  -- A slot that stays as it is.
  Woke-same :
      (i : ℕ) (w : World p) (k : p.Kernel) (calls : ℕ)
      → k ≡ skip p calls w.kernel
      → ((x : Task) → w.task i ≡ some x → x.status ≡ sleep → x.wakeuptime < lo → ⊥)
      → ((x : Task) → w.task i ≡ some x → x.status ≡ sleep → 1 ≤ calls)
      → Woke lo hi i 1 w (record w { kernel = k })
  Woke-same i w k calls e kept called = record {
    rest = refl;
    calls = calls;
    kernel = e;
    counted = λ j x f s a b. let ij : i ≡ j = omega arith in called x (rw ij f) s;
    outside = λ j h. refl;
    inside = λ j a b. record {
      change = inl refl;
      due = λ x f s l. let ij : i ≡ j = omega arith in absurd (kept x (rw ij f) s l);
      early = λ x f l. refl;
    };
  }

  -- A sleeper in slot `i` that is woken by a reading of the clock.
  Woke-wake :
      (i : ℕ) (w : World p) (t : Task)
      → w.task i ≡ some t
      → t.status ≡ sleep
      → t.wakeuptime < hi
      → Woke lo hi i 1 w (
          put_task (record w { kernel = tick p w.kernel }) i (some (record t { status = running })))
  unfolding skip
  Woke-wake i w t f asleep past = record {
    rest = refl;
    calls = 1;
    kernel = refl;
    counted = λ j x f s a b. omega arith;
    outside = λ j h. update-ne w.task i _ j (ground arith);
    inside = λ j a b.
        let ij : i ≡ j = omega arith in
        rw (← ij) (record {
          change = inr (t, f, asleep, update_self w.task i _);
          due = λ x g s l.
              ground (arith, update_self w.task i (some (record t { status = running })));
          early = λ x g l. ground arith;
        });
  }

  wake_one-Woke :
      (i : ℕ) (w : World p)
      → Within p lo hi w.kernel
      → Returns (λ _ v. Woke lo hi i 1 w v) (wake_one i w)
  unfolding wake_one skip
  wake_one-Woke i w h = elim (Option-cases (w.task i)) [
    | inl e ↦
        rw (e, wake_one) (returns (Woke-same i w w.kernel 0 refl (λ x f s l. cc) (λ x f s. cc)))
    | inr (t, e) ↦ elim (Bool-cases (is_sleep t.status)) [
      | inr awake ↦
          rw (e, wake_one, awake)
            (returns
              (Woke-same i w w.kernel 0 refl (λ x f s l. ground arith) (λ x f s. ground arith)))
      | inl asleep ↦
          rw (e, wake_one, asleep, getmstime-reading p w)
            (elim (Bool-cases (ltb t.wakeuptime (reading p w.kernel))) [
              | inl past ↦
                  rw (past, e)
                    (returns (Woke-wake i w t e (is_sleep_iff _ asleep) (ground (arith, h 0))))
              | inr later ↦ rw later (
                  returns (
                    Woke-same i w (tick p w.kernel) 1 refl (λ x f s l. ground (arith, h 0))
                      (λ x f s. omega arith)))
            ])
    ]
  ]

  Woke-trans :
      (i n : ℕ) {w u v : World p}
      → Woke lo hi i 1 w u
      → Woke lo hi (i + 1) n u v
      → Woke lo hi i (suc n) w v
  Woke-trans i n {w} {u} {v} a b = record {
    rest = rw (b.rest, a.rest);
    calls = a.calls + b.calls;
    kernel = rw (b.kernel, a.kernel) (skip-add p a.calls b.calls w.kernel);
    counted = λ j x f s l h. elim (Bool-cases (i == j)) [
      | inl e ↦ let c : 1 ≤ a.calls = a.counted j x f s l (ground arith) in omega arith
      | inr e ↦
          let same : u.task j ≡ w.task j = a.outside j (ground arith) in
          let c : 1 ≤ b.calls = b.counted j x (same ∙ f) s (ground arith) (omega arith) in
          omega arith
    ];
    outside = λ j h. ground (arith, a.outside j, b.outside j);
    inside = λ j l h. elim (Bool-cases (i == j)) [
      | inl e ↦
          let same : v.task j ≡ u.task j = b.outside j (ground arith) in
          rw same (a.inside j l (ground arith))
      | inr e ↦
          let same : u.task j ≡ w.task j = a.outside j (ground arith) in
          rw (← same) (b.inside j (ground arith) (omega arith))
    ];
  }

  wake_from-Woke :
      (n i : ℕ) (w : World p)
      → Within p lo hi w.kernel
      → Returns (λ _ v. Woke lo hi i n w v) (wake_from n i w)
  unfolding wake_from skip
  wake_from-Woke zero i w h = returns (record {
    rest = refl;
    calls = 0;
    kernel = refl;
    counted = λ j x f s a b. absurd (omega arith);
    outside = λ j l. refl;
    inside = λ j l g. absurd (omega arith);
  })
  wake_from-Woke (suc n) i w h = Returns.bind _ (wake_one-Woke i w h) λ _ u a.
      Returns.weaken (wake_from-Woke n (i + 1) u (rw a.kernel (Within-skip p a.calls w.kernel h)))
        (λ _ v b. Woke-trans i n a b)

  -- The first loop of `pick`, where the readings of the clock are from `lo` to `hi`, returns. It has
  -- then set every sleeper due before `lo` running, none due at `hi` or later, no task that does not
  -- sleep, and has changed nothing else but the clock.
  pub wake_all-Woke :
      (w : World p)
      → Within p lo hi w.kernel
      → Returns (λ _ v. Woke lo hi 0 nr_tasks w v) (wake_from nr_tasks 0 w)
  wake_all-Woke w h = wake_from-Woke nr_tasks 0 w h
