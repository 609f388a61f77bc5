-- ===== src/Board/Fair.antt =====
-- Nobody starves: a coroutine that runs gets its turn (src/sched.c, `pick`).
use libco_lite.Base.{
  ℕ, ◌+◌, ◌≤◌, ◌<◌, ◌≡◌, ◌≢◌, refl, ◌⊎◌, inl, inr, true, Option, some, arith, ltb, Bool-cases,
}
use libco_lite.Platform.{Platform}
use libco_lite.Thread.{nr_tasks, running, Task, World}
use libco_lite.Thread.Valid.{IsValid}
use libco_lite.Sched.Scan.{steps_to, after-steps_to}
use libco_lite.Coroutine.{Control, goes}
use libco_lite.System.{Reach, here, step, outside}
use libco_lite.System.Linked.{IsSafe}
use libco_lite.System.Safety.{Reach-IsSafe}
use libco_lite.System.Turn.{Turn}
use libco_lite.System.Turn.Steps.{Step-Turn}
use libco_lite.Board.{view, runs, shown}
use libco_lite.Board.Steps.{Step-Refines}
use libco_lite.Board.Nearer.{turns-le, switches, Refines-nearer}

-- On the way of a run, after at most `m` switches, `j` was current with its block as in `t`, and
-- control went on at the place that the block keeps.
pub record WasCurrent {p : Platform} (j : ℕ) (t : Task) (m : ℕ) (c : Control) (w : World p)
    (d : Control) (v : World p) : Type 0 where
  pub control : Control
  pub world : World p
  pub before : Reach c w control world
  pub behind : Reach control world d v
  pub turn : world.current ≡ j
  pub block : world.task j ≡ some t
  pub place : control ≡ goes t.frame
  pub soon : switches before ≤ m

pub block-lt :
    {p : Platform} (j : ℕ) (t : Task) (w : World p)
    → IsValid w.env
    → w.task j ≡ some t
    → j < nr_tasks
block-lt j t w v h = elim (Bool-cases (ltb j nr_tasks)) [
  | inl l ↦ ground arith
  | inr l ↦ absurd (ground (arith, v.in_range j))
]

block-runs :
    (t : Task) → t.status ≡ running → (o : Option Task) → o ≡ some t → runs (shown o) ≡ true
block-runs t up o e = rw (e, up) refl

module _ {p : Platform} (j : ℕ) (t : Task) (up : t.status ≡ running) where
  Reach-nearer :
      {c : Control} {w : World p} {d : Control} {v : World p}
      → IsSafe c w
      → w.task j ≡ some t
      → w.current ≢ j
      → (r : Reach c w d v)
      → ((v.task j ≡ some t)
          × (v.current ≢ j)
          × (switches r + steps_to v.current j ≤ steps_to w.current j))
        ⊎ WasCurrent j t (steps_to w.current j) c w d v
  unfolding switches
  Reach-nearer s o ne here = inl (o, ne, omega arith)
  Reach-nearer {c} {w} s o ne (step {e = e} {u} {v} r st) = elim (Reach-nearer s o ne r) [
    | inr was ↦ inr (record {
      control = was.control;
      world = was.world;
      before = was.before;
      behind = step was.behind st;
      turn = was.turn;
      block = was.block;
      place = was.place;
      soon = was.soon;
    })
    | inl (o', ne', near) ↦
        let safe = Reach-IsSafe s r in
        let valid = safe.live.linked.valid in
        let inside = block-lt j t u valid o' in
        let (_, out) =
          Refines-nearer e (view u) (view v) j (Step-Refines safe st) valid.current_in inside ne'
            (block-runs t up (u.task j) o') in
        let (kept, turn) = Step-Turn j t up safe (o', ne') st in
        elim turn [
          | inr (x, y) ↦ inr (record {
            control = e;
            world = v;
            before = step r st;
            behind = here;
            turn = x;
            block = kept;
            place = y;
            soon = omega (
              arith,
              near,
              turns-le e,
              (after-steps_to u.current j valid.current_in inside ne').1,
            );
          })
          | inl off ↦ elim out [
            | inl x ↦ absurd (off x)
            | inr (x, y) ↦ inl (kept, x, omega (arith, y, near))
          ]
        ]
  ]
  Reach-nearer s o ne (outside r k) = elim (Reach-nearer s o ne r) [
    | inr was ↦ inr (record {
      control = was.control;
      world = was.world;
      before = was.before;
      behind = outside was.behind k;
      turn = was.turn;
      block = was.block;
      place = was.place;
      soon = was.soon;
    })
    | inl near ↦ inl near
  ]

  -- Nobody starves. A coroutine that runs and is not current, in a run from a safe configuration with
  -- at least as many switches as there are slots from the current one round to its own: it is
  -- current at some point of the run, after at most that many switches, with its block as it was,
  -- and control there goes on at the place in the library where it had stopped.
  pub Reach-WasCurrent :
      {c : Control} {w : World p} {d : Control} {v : World p}
      → IsSafe c w
      → w.task j ≡ some t
      → w.current ≢ j
      → (r : Reach c w d v) → steps_to w.current j ≤ switches r
      → WasCurrent j t (steps_to w.current j) c w d v
  Reach-WasCurrent {d} {v} s o ne r many = elim (Reach-nearer s o ne r) [
    | inl (o', ne', near) ↦
        let valid = (Reach-IsSafe s r).live.linked.valid in
        absurd (
          omega
            (arith, (after-steps_to v.current j valid.current_in (block-lt j t v valid o') ne').1))
    | inr was ↦ was
  ]

  -- Behind a step after which it runs, current or not.
  pub Turn-WasCurrent :
      {c : Control} {w : World p} {d : Control} {v : World p}
      → IsSafe c w
      → Turn j t up c w
      → (r : Reach c w d v) → steps_to w.current j ≤ switches r
      → WasCurrent j t (steps_to w.current j) c w d v
  unfolding switches
  Turn-WasCurrent s (o, inl ne) r many = Reach-WasCurrent s o ne r many
  Turn-WasCurrent {c} {w} s (o, inr (on, at)) r many = record {
    control = c;
    world = w;
    before = here;
    behind = r;
    turn = on;
    block = o;
    place = at;
    soon = omega arith;
  }
