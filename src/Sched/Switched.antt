-- ===== src/Sched/Switched.antt =====
-- Where control goes at a call of `schedule` (src/sched.c), by way of the choice of `pick`.
use libco_lite.Base.{
  ℕ, suc, ◌≡◌, ◌≢◌, refl, sym, subst, inl, inr, Option, none, some, arith, ◌==◌, update,
  Option-cases, Bool-cases,
}
use libco_lite.Platform.{Platform}
use libco_lite.Thread.{Frame, Task, World, deref, modify}
use libco_lite.Thread.Returns
use libco_lite.Thread.Returns.{Returns, returns, Keeps, kept}
use libco_lite.Thread.Valid.{IsValid}
use libco_lite.Sched.{co_switch_to, schedule}
use libco_lite.Sched.Pick.{Picked, IsValid-Changed, pick-Picked, pick-Keeps}
use libco_lite.Sched.Changed.{Ready}

-- What `co_switch_to` leaves in a slot: the old current task keeps `site` as its place.
abbrev pub leave : Frame → Option Task → Option Task
leave site none = none
leave site (some t) = some (record t { frame = site })

-- Control has gone from `w`, at a call of `schedule` at `site`, to `frame` in `v`, by way of `u`,
-- the world in which `pick` chose `v.current`.
pub record Switched {p : Platform} (w u : World p) (site : Frame) (frame : Frame) (v : World p)
    : Type 0 where
  pub picked : Picked w v.current u
  pub stay : v.current ≡ u.current → (frame ≡ site) × (v ≡ u)
  pub move :
      v.current ≢ u.current
      → (v.env ≡ record (u.env) {
        current = v.current;
        task = update u.task u.current (leave site (u.task u.current));
      })
        × ((t : Task) × (v.task v.current ≡ some t) × (t.frame ≡ frame))

module _ {p : Platform} where
  pub co_switch_to-Switched :
      (w u : World p) (j : ℕ) (site : Frame)
      → IsValid w.env
      → Picked w j u
      → Returns (Switched w u site) (co_switch_to j site u)
  unfolding co_switch_to
  co_switch_to-Switched w u j site valid picked = elim (Bool-cases (u.current == j)) [
    | inl e ↦ rw e (
        returns (record {
          picked =
              let ej : u.current ≡ j = ground arith in subst (λ x. Picked w x u) (sym ej) picked;
          stay = λ h. (refl, refl);
          move = λ h. absurd (h refl);
        }))
    | inr e ↦ rw e (elim (Option-cases (u.task u.current)) [
      | inl o ↦
          absurd (let v' = IsValid-Changed valid picked.changed in ground (arith, v'.current_live))
      | inr (c, o) ↦
          rw (o, modify)
            (elim (Option-cases (u.task j)) [
              | inl q ↦ absurd (ground (arith, picked.chosen))
              | inr (t, q) ↦
                  let q' : update u.task u.current (some (record c { frame = site })) j ≡ some t =
                    ground arith in
                  rw (q', deref)
                    (returns (record {
                      picked = picked;
                      stay = λ h. absurd (ground arith);
                      move = λ h. (ground arith, (t, q', refl));
                    }))
            ])
    ])
  ]

  -- `schedule` returns, under the conditions of `pick`.
  pub schedule-Switched :
      (m : ℕ) (w : World p) (site : Frame)
      → IsValid w.env
      → Ready m w
      → Returns (λ f v. (u : World p) × Switched w u site f v) (schedule (suc m) site w)
  unfolding schedule
  schedule-Switched m w site valid ready =
      Returns.bind (λ j. co_switch_to j site) (pick-Picked m w valid ready)
        λ j u picked. Returns.weaken (co_switch_to-Switched w u j site valid picked) λ f v s. (u, s)

  -- It never faults, whatever the rounds.
  pub schedule-Keeps :
      (rounds : ℕ) (w : World p) (site : Frame)
      → IsValid w.env
      → Keeps (λ f v. (u : World p) × Switched w u site f v) (schedule rounds site w)
  unfolding schedule
  schedule-Keeps rounds w site valid =
      Returns.chain (λ j. co_switch_to j site) (pick-Keeps rounds w valid)
        λ j u picked.
          Returns.finish
            (Returns.weaken (co_switch_to-Switched w u j site valid picked) λ f v s. (u, s))
