-- ===== src/System/Linked.antt =====
-- The invariant of a thread's coroutines.
use libco_lite.Base.{
  ℕ, ◌≡◌, ◌≢◌, sym, subst, ◌∙◌, inl, inr, true, false, some, arith, ◌==◌, Bool-cases, Option-cases,
}
use libco_lite.Platform.{Platform, has, erase}
use libco_lite.Thread.{wait, exit, Frame, exiting, Task, ThreadEnv, World}
use libco_lite.Thread.Valid.{IsValid}
use libco_lite.Sched.Schedule.{Scheduled}
use libco_lite.Coroutine.{Control, goes}

-- The environment is well-formed. A block whose place is the end of `start` has ended. Who stands
-- on a block queue waits, and stands on one queue once.
pub record IsLinked {p : Platform} (e : ThreadEnv p) : Type 0 where
  pub valid : IsValid e
  pub ended : (j : ℕ) (t : Task) → e.task j ≡ some t → t.frame ≡ exiting → t.status ≡ exit
  pub queued :
      (fd j : ℕ)
      → has j (p.contents e.block_queue fd) ≡ true
      → (t : Task) × (e.task j ≡ some t) × (t.status ≡ wait)
  pub once :
      (fd g j : ℕ)
      → has j (p.contents e.block_queue fd) ≡ true
      → has j (p.contents e.block_queue g) ≡ true
      → fd ≡ g
  pub single : (fd j : ℕ) → has j (erase j (p.contents e.block_queue fd)) ≡ false

-- With control in the code of the current task, or about to be: that task has not ended and is on
-- no queue.
pub record IsLive {p : Platform} (e : ThreadEnv p) : Type 0 where
  pub linked : IsLinked e
  pub alive : (t : Task) → e.task e.current ≡ some t → t.status ≢ exit
  pub off : (fd : ℕ) → has e.current (p.contents e.block_queue fd) ≡ false

-- The invariant: and control never comes back to the end of `start`.
pub record IsSafe {p : Platform} (c : Control) (w : World p) : Type 0 where
  pub live : IsLive w.env
  pub returns : c ≢ goes exiting

module _ {p : Platform} where
  -- `schedule` establishes the invariant.
  pub Scheduled-IsSafe :
      (w v : World p) (site f : Frame)
      → IsLinked w.env
      → (site ≡ exiting → (t : Task) → w.task w.current ≡ some t → t.status ≡ exit)
      → Scheduled w site f v
      → IsSafe (goes f) v
  Scheduled-IsSafe w v site f l at_exit s = record {
    live = record {
      linked = record {
        valid = s.valid;
        ended = ended;
        queued = queued;
        once = λ fd g j a b. l.once fd g j (queue fd j a) (queue g j b);
        single = λ fd j.
            subst (λ q. has j (erase j (p.contents q fd)) ≡ false) (sym s.queues) (l.single fd j);
      };
      alive = λ t e x. ground (arith, s.runs);
      off = λ fd. elim (Bool-cases (has v.current (p.contents v.block_queue fd))) [
        | inr h ↦ h
        | inl h ↦ let (t, e, x) = queued fd v.current h in absurd (ground (arith, s.runs))
      ];
    };
    returns = λ e.
        let x : f ≡ exiting = cc in
        elim (Option-cases (v.task v.current)) [
          | inl o ↦ absurd (ground (arith, s.valid.current_live))
          | inr (t, o) ↦
              let (t0, e0, a) = s.blocks v.current t o in
              elim s.goes_on [
                | inl (k, c) ↦
                    let e1 : w.task w.current ≡ some t0 = subst (λ j. w.task j ≡ some t0) c e0 in
                    ground (arith, s.runs, a.status, at_exit (sym k ∙ x) t0 e1)
                | inr (t1, e1, k) ↦
                    ground (arith, s.runs, a.status, l.ended v.current t1 e1 (k ∙ x))
              ]
        ];
  }
    where
      queue :
          (fd j : ℕ)
          → has j (p.contents v.block_queue fd) ≡ true
          → has j (p.contents w.block_queue fd) ≡ true
      queue fd j h = subst (λ q. has j (p.contents q fd) ≡ true) s.queues h

      ended : (j : ℕ) (t : Task) → v.task j ≡ some t → t.frame ≡ exiting → t.status ≡ exit
      ended j t e x =
          let (t0, e0, a) = s.blocks j t e in
          elim a.place [
            | inl k ↦ ground (arith, a.status, l.ended j t0 e0 (sym k ∙ x))
            | inr (c, k) ↦ ground (arith, a.status, at_exit (sym k ∙ x) t0 (here j t0 c e0))
          ]
        where
          here :
              (j : ℕ) (t : Task)
              → (j == w.current) ≡ true
              → w.task j ≡ some t
              → w.task w.current ≡ some t
          here j t c e =
              let jc : j ≡ w.current = ground arith in subst (λ x. w.task x ≡ some t) jc e

      queued :
          (fd j : ℕ)
          → has j (p.contents v.block_queue fd) ≡ true
          → (t : Task) × (v.task j ≡ some t) × (t.status ≡ wait)
      queued fd j h =
          let (t, e, x) = l.queued fd j (queue fd j h) in
          elim (Option-cases (v.task j)) [
            | inl o ↦ absurd (ground (arith, s.lives j))
            | inr (t', o) ↦ let (t0, e0, a) = s.blocks j t' o in (t', o, ground (arith, a.status))
          ]
