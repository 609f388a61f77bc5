-- ===== src/Sched/Schedule.antt =====
-- `co_switch_to` and `schedule` (src/sched.c): who runs next, and where.
use libco_lite.Base.{
  ℕ, ◌<◌, ◌≡◌, ◌≢◌, refl, sym, subst, ap, ◌∙◌, ◌⊎◌, inl, inr, Bool, true, false, Option, some,
  arith, ◌==◌, is_some, update, Option-cases, Bool-cases,
}
use mathlib.Core.Path.{subst₂}
use libco_lite.Platform.{Platform}
use libco_lite.Thread.{nr_tasks, running, sleep, Frame, Task, Table, ThreadEnv, World}
use libco_lite.Thread.Returns
use libco_lite.Thread.Returns.{Returns, returns, Keeps, kept}
use libco_lite.Thread.Valid.{IsValid, occupied-same}
use libco_lite.Sched.{slot_running, schedule}
use libco_lite.Sched.Pick.{Picked, IsValid-Changed}
use libco_lite.Sched.Changed.{Change}
use libco_lite.Sched.Switched.{leave, Switched, schedule-Keeps}

-- A task block after a call of `schedule`: woken perhaps, and with a new place to go on if it was
-- the current one.
pub record Aged (w_current : Bool) (site : Frame) (t t' : Task) : Type 0 where
  pub same : t' ≡ record t { status = t'.status; frame = t'.frame }
  pub status : (t'.status ≡ t.status) ⊎ ((t.status ≡ sleep) × (t'.status ≡ running))
  pub place : (t'.frame ≡ t.frame) ⊎ ((w_current ≡ true) × (t'.frame ≡ site))

-- The whole effect of `schedule`, called at `site`.
pub record Scheduled {p : Platform} (w : World p) (site frame : Frame) (v : World p) : Type 0 where
  pub valid : IsValid v.env
  pub runs : slot_running v.task v.current ≡ true
  pub queues : v.block_queue ≡ w.block_queue
  pub blocks :
      (j : ℕ) (t' : Task)
      → v.task j ≡ some t'
      → (t : Task) × (w.task j ≡ some t) × Aged (j == w.current) site t t'
  pub lives : (j : ℕ) → is_some (v.task j) ≡ is_some (w.task j)
  pub goes_on :
      ((frame ≡ site) × (v.current ≡ w.current))
      ⊎ ((t : Task) × (w.task v.current ≡ some t) × (t.frame ≡ frame))

Change-Aged :
    (b : Bool) (site : Frame) (x y : Option Task) (t' : Task)
    → Change x y
    → y ≡ some t'
    → (t : Task) × (x ≡ some t) × Aged b site t t'
Change-Aged b site x y t' (inl e) f =
    (t', sym e ∙ f, record { same = refl; status = inl refl; place = inl refl })
Change-Aged b site x y t' (inr (t, e, s, g)) f = (
  t,
  e,
  record { same = ground arith; status = inr (s, ground arith); place = inl (ground arith) },
)

Aged-leave :
    {b : Bool} {site : Frame} {t x t' : Task}
    → t' ≡ record x { frame = site }
    → b ≡ true
    → Aged b site t x
    → Aged b site t t'
Aged-leave e h a = record {
  same = ground (arith, a.same);
  status = ground (arith, a.status);
  place = inr (h, ground arith);
}

module _ {p : Platform} where
  leave-IsValid :
      (e : ThreadEnv p) (target : ℕ) (site : Frame)
      → IsValid e
      → target < nr_tasks
      → is_some (e.task target) ≡ true
      → IsValid (record e {
        current = target;
        task = update e.task e.current (leave site (e.task e.current));
      })
  leave-IsValid e target site v h live = record {
    current_in = h;
    current_live = ground arith;
    ids = λ i t f. elim (Option-cases (e.task i)) [
      | inl o ↦ absurd (ground arith)
      | inr (x, o) ↦ ground (arith, v.ids i x o)
    ];
    in_range = λ i l. ground (arith, v.in_range i l);
    counted = v.counted ∙ occupied-same nr_tasks e.task _ (λ i. ground arith);
  }

  Scheduled-stay :
      (w u : World p) (site : Frame)
      → IsValid w.env
      → Picked w u.current u
      → Scheduled w site site u
  Scheduled-stay w u site valid picked = record {
    valid = IsValid-Changed valid picked.changed;
    runs = picked.chosen;
    queues = ap (λ (e : ThreadEnv p). e.block_queue) picked.changed.rest;
    blocks = λ j t' e.
        Change-Aged (j == w.current) site (w.task j) (u.task j) t' (picked.changed.slots j) e;
    lives = λ j. ground (arith, picked.changed.slots j);
    goes_on = inl (refl, ap (λ (e : ThreadEnv p). e.current) picked.changed.rest);
  }

  Scheduled-move :
      (w u v : World p) (site f : Frame)
      → IsValid w.env
      → Picked w v.current u
      → v.current ≢ u.current
      → v.env ≡ record (u.env) {
        current = v.current;
        task = update u.task u.current (leave site (u.task u.current));
      }
      → (t : Task) → v.task v.current ≡ some t
      → t.frame ≡ f
      → Scheduled w site f v
  Scheduled-move w u v site f valid picked ne env_eq t found at =
      let c = picked.changed in
      let here : u.current ≡ w.current = ap (λ (e : ThreadEnv p). e.current) c.rest in
      let slots : v.task ≡ update u.task u.current (leave site (u.task u.current)) =
        ap (λ (e : ThreadEnv p). e.task) env_eq in
      let kept_slot : u.task v.current ≡ some t =
        ground (arith, ap (λ (x : Table). x v.current) slots) in
      record {
        valid =
            subst (λ x. IsValid x) (sym env_eq)
              (leave-IsValid u.env v.current site (IsValid-Changed valid c) picked.in_range
                (ground arith));
        runs = ground (arith, picked.chosen);
        queues =
            ap (λ (e : ThreadEnv p). e.block_queue) env_eq
            ∙ ap (λ (e : ThreadEnv p). e.block_queue) c.rest;
        blocks = λ j t' e. elim (Bool-cases (u.current == j)) [
          | inr o ↦
              Change-Aged (j == w.current) site (w.task j) (u.task j) t' (c.slots j)
                (ground (arith, ap (λ (x : Table). x j) slots))
          | inl o ↦ elim (Option-cases (u.task j)) [
            | inl q ↦ absurd (ground (arith, ap (λ (x : Table). x j) slots))
            | inr (x, q) ↦
                let (t0, e0, a) =
                  Change-Aged (j == w.current) site (w.task j) (u.task j) x (c.slots j) q in
                (
                  t0,
                  e0,
                  Aged-leave (ground (arith, ap (λ (x : Table). x j) slots)) (ground arith) a,
                )
          ]
        ];
        lives = λ j. ground (arith, c.slots j, ap (λ (x : Table). x j) slots);
        goes_on = inr (
            let (t0, e0, a) =
              Change-Aged false site (w.task v.current) (u.task v.current) t (c.slots v.current)
                kept_slot in
            (t0, e0, ground (arith, a.place)));
      }

  Switched-Scheduled :
      (w u v : World p) (site f : Frame)
      → IsValid w.env
      → Switched w u site f v
      → Scheduled w site f v
  Switched-Scheduled w u v site f valid s = elim (Bool-cases (v.current == u.current)) [
    | inl e ↦
        let (fs, vu) = s.stay (ground arith) in
        subst₂ (λ x y. Scheduled w site x y) (sym fs) (sym vu)
          (Scheduled-stay w u site valid (subst (λ x. Picked w x u) (ground arith) s.picked))
    | inr e ↦
        let (env_eq, (t, found, at)) = s.move (ground arith) in
        Scheduled-move w u v site f valid s.picked (ground arith) env_eq t found at
  ]

  -- `schedule` from a well-formed environment: well-formed after it, with a running current task,
  -- the block queues as they were, and no block changed but to wake its sleeper and to note `site`
  -- in the one that is left. Control goes on at `site` or where the new current task was left.
  pub schedule-Scheduled :
      (rounds : ℕ) (w : World p) (site : Frame)
      → IsValid w.env
      → Keeps (Scheduled w site) (schedule rounds site w)
  schedule-Scheduled rounds w site valid =
      Returns.relax (schedule-Keeps rounds w site valid)
        λ f v (u, s). Switched-Scheduled w u v site f valid s
