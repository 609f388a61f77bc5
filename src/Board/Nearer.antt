-- ===== src/Board/Nearer.antt =====
-- The way of a coroutine that runs to its turn gets shorter with every switch (src/sched.c, `pick`).
use libco_lite.Base.{
  ℕ, ◌+◌, ◌≤◌, ◌<◌, ◌≡◌, ◌≢◌, refl, sym, ap, ◌∙◌, ◌⊎◌, inl, inr, true, arith, ◌==◌, ltb, Bool-cases,
}
use libco_lite.Platform.{Platform}
use libco_lite.Thread.{nr_tasks, World}
use libco_lite.Sched.Scan.{after, steps_to, after-steps_to}
use libco_lite.Coroutine.{Control, returns_int, returns_nothing, goes}
use libco_lite.System.{Reach, here, step, outside}
use libco_lite.Board.{
  Board, Quiet, spawns, reaps, marks, parks, serves, rouses, Quiets, none_yet, and_then, runs,
  Picks, Refines,
}

pub Quiet-current : {b c : Board} → Quiet b c → c.current ≡ b.current
Quiet-current (spawns i e f r w) = w.same_current
Quiet-current (reaps i e f x w) = w.same_current
Quiet-current (marks a e f w) = w.same_current
Quiet-current (parks fd e f s off c same q) = c
Quiet-current (serves fd i rest e f o s c q slots) = c
Quiet-current (rouses c q slots) = c

-- No move but its own stops a coroutine that runs.
Quiet-runs :
    {b c : Board} (j : ℕ)
    → Quiet b c
    → b.current ≢ j
    → runs (b.slots j) ≡ true
    → runs (c.slots j) ≡ true
Quiet-runs j (spawns i e f r w) ne h = ground (arith, w.written j)
Quiet-runs j (reaps i e f x w) ne h = ground (arith, w.written j)
Quiet-runs j (marks a e f w) ne h = ground (arith, w.written j)
Quiet-runs j (parks fd e f s off c same q) ne h = ap runs (same j) ∙ h
Quiet-runs j (serves fd i rest e f o s c q (inl same)) ne h = ap runs (same j) ∙ h
Quiet-runs j (serves fd i rest e f o s c q (inr woken)) ne h = ground (arith, woken j)
Quiet-runs j (rouses c q slots) ne h = ground (arith, slots j)

Quiets-runs :
    {b c : Board} (j : ℕ)
    → Quiets b c
    → b.current ≢ j
    → runs (b.slots j) ≡ true
    → (runs (c.slots j) ≡ true) × (c.current ≡ b.current)
Quiets-runs j none_yet ne h = (h, refl)
Quiets-runs j (and_then q m) ne h =
    let (r, same) = Quiets-runs j q ne h in
    (Quiet-runs j m (λ e. ne (sym same ∙ e)) r, Quiet-current m ∙ same)

-- The way from a slot that is passed before `j` is reached is shorter.
closer :
    (c j n : ℕ)
    → c < nr_tasks
    → j < nr_tasks
    → n < nr_tasks
    → n ≢ c
    → n ≢ j
    → steps_to c n ≤ steps_to c j
    → steps_to n j < steps_to c j
unfolding steps_to
closer c j n hc hj hn ne ne' h = omega arith

-- A switch gives the turn to a coroutine that runs, or to one from which the way to it is shorter.
Picks-closer :
    {b c : Board} (j : ℕ)
    → Picks b c
    → b.current < nr_tasks
    → j < nr_tasks
    → b.current ≢ j
    → runs (b.slots j) ≡ true
    → (c.current ≡ j) ⊎ (steps_to c.current j < steps_to b.current j)
Picks-closer {b} {c} j p hb hj ne r =
    let d = steps_to b.current j in
    let (back, pos, small) = after-steps_to b.current j hb hj ne in
    let up : runs (c.slots (after b.current d)) ≡ true =
      ap (λ i. runs (c.slots i)) back ∙ ap runs (p.same_slots j) ∙ r in
    elim (Bool-cases (c.current == j)) [
      | inl e ↦ inl (ground arith)
      | inr e ↦ elim (Bool-cases (c.current == b.current)) [
        | inl same ↦ absurd (let idle = p.passed d pos small (inl (ground arith)) in ground arith)
        | inr other ↦ elim (Bool-cases (ltb d (steps_to b.current c.current))) [
          | inl far ↦ absurd (let idle = p.passed d pos small (inr (ground arith)) in ground arith)
          | inr near ↦ inr (
              closer b.current j c.current hb hj p.in_range (ground arith) (ground arith)
                (ground arith))
        ]
      ]
    ]

-- How many switches a step makes.
abbrev pub turns : Control → ℕ
turns (returns_int n) = 0
turns returns_nothing = 0
turns (goes f) = 1

pub turns-le : (c : Control) → turns c ≤ 1
turns-le (returns_int n) = omega arith
turns-le returns_nothing = omega arith
turns-le (goes f) = omega arith

-- How many switches a run makes.
unfoldable pub switches :
    {p : Platform} {c : Control} {w : World p} {d : Control} {v : World p} → Reach c w d v → ℕ
switches here = 0
switches (step {e = e} r st) = turns e + switches r
switches (outside r k) = switches r

-- The way of `j` to its turn, by one step: it keeps running, and is current or nearer by a switch.
pub Refines-nearer :
    (c : Control) (a b : Board) (j : ℕ)
    → Refines c a b
    → a.current < nr_tasks
    → j < nr_tasks
    → a.current ≢ j
    → runs (a.slots j) ≡ true
    → (runs (b.slots j) ≡ true)
      × ((b.current ≡ j)
          ⊎ ((b.current ≢ j) × (turns c + steps_to b.current j ≤ steps_to a.current j)))
Refines-nearer (returns_int n) a b j q ha hj ne r =
    let (up, same) = Quiets-runs j q ne r in (up, inr (λ e. ne (sym same ∙ e), ap-le same))
  where
    ap-le : b.current ≡ a.current → 0 + steps_to b.current j ≤ steps_to a.current j
    ap-le same = omega (arith, ap (λ x. steps_to x j) same)
Refines-nearer returns_nothing a b j q ha hj ne r =
    let (up, same) = Quiets-runs j q ne r in
    (up, inr (λ e. ne (sym same ∙ e), omega (arith, ap (λ x. steps_to x j) same)))
Refines-nearer (goes f) a b j (d, q, p) ha hj ne r =
    let (up, same) = Quiets-runs j q ne r in
    (
      ap runs (p.same_slots j) ∙ up,
      elim (Bool-cases (b.current == j)) [
        | inl e ↦ inl (ground arith)
        | inr e ↦ elim (Picks-closer j p (rw same ha) hj (λ x. ne (sym same ∙ x)) up) [
          | inl x ↦ inl x
          | inr x ↦ inr (ground arith, omega (arith, x, ap (λ x. steps_to x j) same))
        ]
      ],
    )
