-- ===== src/Board/Refine.antt =====
-- `schedule` (src/sched.c) as moves on a board.
use libco_lite.Base.{
  ℕ, ◌<◌, ◌≡◌, refl, sym, subst, ap, ◌∙◌, ◌⊎◌, inl, inr, false, Option, none, some, arith, ◌==◌,
  Bool-cases,
}
use libco_lite.Platform.{Platform}
use libco_lite.Thread.{nr_tasks, running, sleep, Frame, Task, Table, ThreadEnv, World, Run, pure}
use libco_lite.Thread.Returns.{Ends, Ends-ok, Ends-bind, Ends-Keeps}
use libco_lite.Thread.Valid.{IsValid}
use libco_lite.Sched.{slot_running, schedule}
use libco_lite.Sched.Scan.{after, steps_to}
use libco_lite.Sched.Changed.{Change, Changed}
use libco_lite.Sched.Switched.{leave, Switched, schedule-Keeps}
use libco_lite.Coroutine.{goes}
use libco_lite.Board.{
  Board, entry, shown, view, Rouses, Quiet, rouses, Quiets, and_then, runs, Picks, Refines,
}

pub runs-shown :
    (o : Option Task)
    → runs (shown o) ≡ elim o [ none ↦ false | some t ↦ libco_lite.Thread.is_running t.status ]
runs-shown none = refl
runs-shown (some t) = refl

shown-Change : (a b : Option Task) → Change a b → Rouses (shown a) (shown b)
shown-Change a b (inl e) = inl (ap shown e)
shown-Change a b (inr (x, e, s, f)) = inr (entry x, ap shown e, s, ap shown f)

shown-leave : (site : Frame) (o : Option Task) → shown (leave site o) ≡ shown o
shown-leave site none = refl
shown-leave site (some t) = refl

module _ {p : Platform} where
  Changed-Quiet : {w u : World p} → Changed w u → Quiet (view w) (view u)
  Changed-Quiet {w} {u} c =
      rouses (ap (λ (e : ThreadEnv p). e.current) c.rest)
        (λ fd. ap (λ (e : ThreadEnv p). p.contents e.block_queue fd) c.rest)
        (λ j. shown-Change (w.task j) (u.task j) (c.slots j))

  -- The slots look the same behind the switch.
  Switched-slots :
      {w u v : World p} {site f : Frame}
      → Switched w u site f v
      → (j : ℕ) → shown (v.task j) ≡ shown (u.task j)
  Switched-slots {w} {u} {v} {site} s j = elim (Bool-cases (v.current == u.current)) [
    | inl e ↦ let (fs, vu) = s.stay (ground arith) in ap (λ (x : World p). shown (x.task j)) vu
    | inr e ↦
        let slots = ap (λ (x : ThreadEnv p). x.task j) (s.move (ground arith)).0 in
        elim (Bool-cases (u.current == j)) [
          | inl c ↦
              ap shown (slots ∙ rw c refl)
              ∙ shown-leave site (u.task u.current)
              ∙ ap (λ i. shown (u.task i)) (ground arith)
          | inr c ↦ ap shown (slots ∙ rw c refl)
        ]
  ]

  Switched-queues :
      {w u v : World p} {site f : Frame} → Switched w u site f v → v.block_queue ≡ u.block_queue
  Switched-queues {w} {u} {v} s = elim (Bool-cases (v.current == u.current)) [
    | inl e ↦ ap (λ (x : World p). x.block_queue) (s.stay (ground arith)).1
    | inr e ↦ ap (λ (x : ThreadEnv p). x.block_queue) (s.move (ground arith)).0
  ]

  Switched-Picks :
      {w u v : World p} {site f : Frame} → Switched w u site f v → Picks (view u) (view v)
  Switched-Picks {w} {u} {v} s =
      let slots = Switched-slots s in
      let picked = s.picked in
      let here : u.current ≡ w.current = ap (λ (e : ThreadEnv p). e.current) picked.changed.rest in
      record {
        same_slots = slots;
        same_queues = λ fd. ap (λ q. p.contents q fd) (Switched-queues s);
        in_range = picked.in_range;
        chosen = ap runs (slots v.current) ∙ runs-shown (u.task v.current) ∙ picked.chosen;
        passed = λ d a b o.
            let i = after u.current d in
            ap runs (slots i)
            ∙ runs-shown (u.task i)
            ∙ subst (λ c. slot_running u.task (after c d) ≡ false) (sym here)
                (picked.passed d a b
                  (subst (λ c. (v.current ≡ c) ⊎ (d < steps_to c v.current)) here o));
      }

  -- `schedule`, behind moves that have led from `b` to its call.
  pub schedule-Refines :
      (b : Board) (rounds : ℕ) (w : World p) (site : Frame)
      → Quiets b (view w)
      → IsValid w.env
      → Ends
          (λ c v. Refines c b (view v))
          (libco_lite.Thread.and_then (schedule rounds site w) (λ f. pure (goes f)))
  schedule-Refines b rounds w site q valid =
      Ends-bind (λ f v. Refines (goes f) b (view v)) (λ c v. Refines c b (view v))
        (schedule rounds site w) (λ f. pure (goes f))
        (Ends-Keeps _ (λ f v. Refines (goes f) b (view v)) (schedule rounds site w)
          (schedule-Keeps rounds w site valid)
          (λ f v (u, s). (view u, and_then q (Changed-Quiet s.picked.changed), Switched-Picks s)))
        λ f v r. Ends-ok (λ c v. Refines c b (view v)) r
