-- ===== src/Sched/Scan.antt =====
-- The second loop of `pick` (src/sched.c): round the slots from the one after the current task's.
use libco_lite.Base.{
  ℕ, zero, suc, ◌+◌, ◌-◌, ◌%◌, ◌<◌, ◌≡◌, ◌≢◌, refl, ◌⊎◌, inl, inr, true, false, arith, ◌==◌,
  Bool-cases,
}
use libco_lite.Thread.{nr_tasks, Table}
use libco_lite.Sched.{Found, next, round, slot_running, scan}

-- The slot that is `d` steps after a slot, going round.
abbrev pub after : ℕ → ℕ → ℕ
after c d = (c + d) % nr_tasks

-- The outcome of the loop when the first `s` steps round from `c` are behind it.
pub data Scanned (task : Table) (c s : ℕ) (f : Found) : Type 0 where
  first :
      (d : ℕ)
      → s < d
      → d < nr_tasks
      → slot_running task (after c d) ≡ true
      → ((e : ℕ) → s < e → e < d → slot_running task (after c e) ≡ false)
      → f ≡ next (after c d)
      → Scanned task c s f
  nobody :
      ((e : ℕ) → s < e → e < nr_tasks → slot_running task (after c e) ≡ false)
      → f ≡ round
      → Scanned task c s f

Scanned-step :
    {task : Table} {c s : ℕ} {f : Found}
    → slot_running task (after c (s + 1)) ≡ false
    → Scanned task c (s + 1) f
    → Scanned task c s f
Scanned-step {task} {c} {s} idle (first d l h r before e) =
    first d (omega arith) h r
      (λ x a b. elim (Bool-cases (s + 1 == x)) [
        | inl i ↦ let ix : s + 1 ≡ x = ground arith in rw (← ix) idle
        | inr i ↦ before x (ground arith) b
      ])
      e
Scanned-step {task} {c} {s} idle (nobody none_runs e) =
    nobody
      (λ x a b. elim (Bool-cases (s + 1 == x)) [
        | inl i ↦ let ix : s + 1 ≡ x = ground arith in rw (← ix) idle
        | inr i ↦ none_runs x (ground arith) b
      ])
      e

scan-Scanned :
    (n : ℕ) (task : Table) (c i s : ℕ)
    → c < nr_tasks
    → i ≡ after c s
    → s + n ≡ nr_tasks
    → s < nr_tasks
    → Scanned task c s (scan n task c i)
unfolding scan
scan-Scanned zero task c i s hc hi hn hs = absurd (omega arith)
scan-Scanned (suc n) task c i s hc hi hn hs =
    let j : (i + 1) % nr_tasks ≡ after c (s + 1) = omega arith in
    rw j (elim (Bool-cases (after c (s + 1) == c)) [
      | inl back ↦ rw back (nobody (λ e a b. absurd (ground arith)) refl)
      | inr on ↦ rw on (elim (Bool-cases (slot_running task (after c (s + 1)))) [
        | inl r ↦
            rw r (first (s + 1) (omega arith) (ground arith) r (λ e a b. absurd (omega arith)) refl)
        | inr idle ↦ rw idle (
            Scanned-step idle (
              scan-Scanned n task c (after c (s + 1)) (s + 1) hc refl (omega arith) (ground arith)))
      ])
    ])

-- The second loop of `pick`, from a slot within the table, ends within one round: at the first
-- running slot after the current one, or back there if no other slot runs.
pub scan_lem : (task : Table) (c : ℕ) → c < nr_tasks → Scanned task c 0 (scan nr_tasks task c c)
scan_lem task c h = scan-Scanned nr_tasks task c c 0 h (omega arith) refl (omega arith)

-- Every other slot is some number of steps after a slot.
unfoldable pub steps_to : (c j : ℕ) → ℕ
steps_to c j = (j + nr_tasks - c) % nr_tasks

pub after-steps_to :
    (c j : ℕ)
    → c < nr_tasks
    → j < nr_tasks
    → c ≢ j
    → (after c (steps_to c j) ≡ j) × (0 < steps_to c j) × (steps_to c j < nr_tasks)
unfolding steps_to
after-steps_to c j hc hj ne = (omega arith, omega arith, omega arith)

-- A slot that is reached before another one.
pub steps_to-after :
    (c d x : ℕ)
    → c < nr_tasks
    → 0 < d
    → d < nr_tasks
    → (after c d ≡ c) ⊎ (x < steps_to c (after c d))
    → x < d
unfolding steps_to
steps_to-after c d x hc l h (inl e) = absurd (omega arith)
steps_to-after c d x hc l h (inr o) = omega arith
