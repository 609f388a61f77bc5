-- ===== src/Demos/Demo01/Evolves.antt =====
-- What the calls of examples/demo01.c change of a thread's coroutines.
use libco_lite.Base.{
  ℕ, ◌≡◌, ◌≢◌, refl, sym, ap, ◌∙◌, subst, inl, inr, Bool, true, false, none, some, arith, ◌==◌,
  update, update_self, Bool-cases,
}
use libco_lite.Platform.{Platform}
use libco_lite.Thread.{
  exit, Frame, entry, sleeping, joining, polling, waiting, exiting, Task, ThreadEnv, World, Run,
  pure, modify, deref, put_task,
}
use libco_lite.Thread.Returns.{Ends, Ends-ok, Ends-fault, Ends-exited, Ends-bind, Ends-Keeps}
use libco_lite.Thread.Valid.{IsValid, put-IsValid}
use libco_lite.Sched.{schedule, co_sleep}
use libco_lite.Sched.Schedule.{Aged, Scheduled, schedule-Scheduled}
use libco_lite.Sched.Wake.{reading}
use libco_lite.Sched.Sleep.{slept, asleep, co_sleep-cases}
use libco_lite.Coroutine.{Control, goes, co_join, release, finish}
use libco_lite.Coroutine.Join.{Joined, missing, freed, waits, co_join-Joined}
use libco_lite.System.{resume}

-- The places of coroutines that wait on no descriptor.
abbrev pub plain : Frame → Bool
plain entry = true
plain sleeping = true
plain (joining cid) = true
plain polling = false
plain (waiting call fd) = false
plain exiting = true

-- The same coroutine before and after: it has not ended in between.
pub record Akin (t t' : Task) : Type 0 where
  pub co_fn : t'.co_fn ≡ t.co_fn
  pub fds_idx : t'.fds_idx ≡ t.fds_idx
  pub exits : t'.status ≡ exit → t.status ≡ exit
  pub place : plain t.frame ≡ true → plain t'.frame ≡ true

pub Akin-refl : (t : Task) → Akin t t
Akin-refl t = record { co_fn = refl; fds_idx = refl; exits = λ e. e; place = λ e. e }

Akin-trans : {a b c : Task} → Akin a b → Akin b c → Akin a c
Akin-trans x y = record {
  co_fn = y.co_fn ∙ x.co_fn;
  fds_idx = y.fds_idx ∙ x.fds_idx;
  exits = λ e. x.exits (y.exits e);
  place = λ e. y.place (x.place e);
}

Aged-Akin :
    {b : Bool} {site : Frame} {t t' : Task} → plain site ≡ true → Aged b site t t' → Akin t t'
Aged-Akin {site} {t} {t'} h a = record {
  co_fn = ap (λ (x : Task). x.co_fn) a.same;
  fds_idx = ap (λ (x : Task). x.fds_idx) a.same;
  exits = λ e. ground (arith, a.status);
  place = λ e. elim a.place [ inl same ↦ ap plain same ∙ e | inr (here, same) ↦ ap plain same ∙ h ];
}

-- The block of a coroutine whose function has returned.
abbrev pub finished : Task → Task
finished t = record t { status = exit; fds_idx = 0 }

module _ {p : Platform} where
  -- Every coroutine in `v` is one of `w`.
  abbrev pub Evolves : (w v : World p) → Type 0
  Evolves w v =
      (j : ℕ) (t' : Task) → v.task j ≡ some t' → (t : Task) × (w.task j ≡ some t) × Akin t t'

  -- No coroutine's place is on a descriptor.
  abbrev pub Plain : World p → Type 0
  Plain w = (j : ℕ) (t : Task) → w.task j ≡ some t → plain t.frame ≡ true

  -- And control does not go there either.
  abbrev pub Fine : World p → Control → World p → Type 0
  Fine w c v = Evolves w v × ((f : Frame) → c ≡ goes f → plain f ≡ true)

  Evolves-trans : (w u v : World p) → Evolves w u → Evolves u v → Evolves w v
  Evolves-trans w u v a b j t' e =
      let (x, f, k) = b j t' e in let (y, g, l) = a j x f in (y, g, Akin-trans l k)

  Scheduled-Fine :
      (w v : World p) (site f : Frame)
      → plain site ≡ true
      → Plain w
      → Scheduled w site f v
      → Fine w (goes f) v
  Scheduled-Fine w v site f h places s = (
    λ j t' e. let (t, g, a) = s.blocks j t' e in (t, g, Aged-Akin h a),
    λ g e.
        let same : f ≡ g = cc in
        elim s.goes_on [
          | inl (at, c) ↦ ap plain (sym same ∙ at) ∙ h
          | inr (t, g', at) ↦ ap plain (sym same ∙ sym at) ∙ places v.current t g'
        ],
  )

  pub schedule-Fine :
      (rounds : ℕ) (w : World p) (site : Frame)
      → IsValid w.env
      → plain site ≡ true
      → Plain w
      → Ends (λ f v. Fine w (goes f) v) (schedule rounds site w)
  schedule-Fine rounds w site valid h places =
      Ends-Keeps (Scheduled w site) (λ f v. Fine w (goes f) v) (schedule rounds site w)
        (schedule-Scheduled rounds w site valid) λ f v s. Scheduled-Fine w v site f h places s

  -- The current coroutine's block is written.
  put-Evolves :
      (w u : World p) (t t' : Task)
      → w.task w.current ≡ some t
      → Akin t t'
      → ((j : ℕ) → u.task j ≡ update w.task w.current (some t') j)
      → Evolves w u
  put-Evolves w u t t' o a put j x e = elim (Bool-cases (w.current == j)) [
    | inl c ↦
        let cj : w.current ≡ j = ground arith in
        let same : t' ≡ x = ground (arith, put j) in
        (t, ap (λ i. w.task i) (sym cj) ∙ o, subst (Akin t) same a)
    | inr c ↦ (x, ground (arith, put j), Akin-refl x)
  ]

  Evolves-Plain : (w u : World p) → Evolves w u → Plain w → Plain u
  Evolves-Plain w u e h j t' f = let (t, g, a) = e j t' f in a.place (h j t g)

  pub co_sleep-Fine :
      (rounds seconds : ℕ) (w : World p) (t : Task)
      → IsValid w.env
      → Plain w
      → w.task w.current ≡ some t
      → Ends (λ f v. Fine w (goes f) v) (co_sleep rounds seconds w)
  co_sleep-Fine rounds seconds w t valid places o =
      let t' = slept (reading p w.kernel) seconds t in
      let u = asleep seconds t w in
      let a : Akin t t' = record {
        co_fn = refl;
        fds_idx = refl;
        exits = λ e. absurd (ground arith);
        place = λ e. e;
      } in
      let e = put-Evolves w u t t' o a (λ j. refl) in
      elim (co_sleep-cases rounds seconds w t o) [
        | inl over ↦ rw over (Ends-fault (λ f v. Fine w (goes f) v))
        | inr q ↦ rw q λ f v r.
            let (x, y) =
              schedule-Fine rounds u sleeping
                (put-IsValid w.env w.current t t' w.block_queue valid o refl) refl
                (Evolves-Plain w u e places) f v r in
            (Evolves-trans w u v e x, y)
      ]

  pub co_join-Fine :
      (rounds cid : ℕ) (w : World p)
      → IsValid w.env
      → Plain w
      → ((t : Task) → w.task w.current ≡ some t → t.status ≢ exit)
      → Ends (λ c v. Fine w c v) (co_join rounds cid w)
  co_join-Fine rounds cid w valid places alive =
      by_outcome (co_join-Joined rounds w cid valid alive)
    where
      by_outcome : {r : Run p Control} → Joined w cid r → Ends (λ c v. Fine w c v) r
      by_outcome (missing o e) = rw e (Ends-fault (λ c v. Fine w c v))
      by_outcome (freed t v o s e env_eq k valid) = rw e (
          Ends-ok (λ c v. Fine w c v)
            (
              λ j x f.
                  let put : v.task j ≡ update w.task cid none j =
                    ap (λ (y : ThreadEnv p). y.task j) env_eq in
                  (x, ground arith, Akin-refl x),
              λ f x. cc,
            ))
      by_outcome (waits t o s r) =
          Ends-Keeps _ (λ c v. Fine w c v) _ r
            λ c v (f, e, s). rw e (Scheduled-Fine w v (joining cid) f refl places s)

  pub resume-Fine :
      (rounds : ℕ) (f : Frame) (w : World p)
      → IsValid w.env
      → Plain w
      → ((t : Task) → w.task w.current ≡ some t → t.status ≢ exit)
      → plain f ≡ true
      → Ends (λ c v. Fine w c v) (resume rounds f w)
  unfolding resume
  resume-Fine rounds entry w valid places alive h =
      Ends-ok (λ c v. Fine w c v) (λ j x f. (x, f, Akin-refl x), λ f x. cc)
  resume-Fine rounds sleeping w valid places alive h =
      Ends-ok (λ c v. Fine w c v) (λ j x f. (x, f, Akin-refl x), λ f x. cc)
  resume-Fine rounds (joining cid) w valid places alive h =
      co_join-Fine rounds cid w valid places alive
  resume-Fine rounds polling w valid places alive h = absurd (ground arith)
  resume-Fine rounds (waiting call fd) w valid places alive h = absurd (ground arith)
  resume-Fine rounds exiting w valid places alive h = Ends-exited (λ c v. Fine w c v) 255

  -- `start` behind the return of a function that has waited on no descriptor.
  pub finish-Fine :
      (rounds : ℕ) (w : World p) (t : Task)
      → IsValid w.env
      → Plain w
      → w.task w.current ≡ some t
      → t.fds_idx ≡ 0
      → Ends (λ c v. Fine (put_task w w.current (some (finished t))) c v) (finish rounds w)
  unfolding finish release
  finish-Fine rounds w t valid places o z =
      let u = put_task w w.current (some (finished t)) in
      let still : Plain u = λ j x e. elim (Bool-cases (w.current == j)) [
        | inl c ↦ ground (arith, places w.current t o)
        | inr c ↦ places j x (ground arith)
      ] in
      rw (o, modify)
        (rw (update_self w.task w.current (some (record t { status = exit })), deref)
          (rw (z, release)
            (Ends-bind (λ f v. Fine u (goes f) v) (λ c v. Fine u c v) (schedule rounds exiting u)
              (λ f. pure (goes f))
              (schedule-Fine rounds u exiting
                (put-IsValid w.env w.current t (finished t) w.block_queue valid o refl) refl still)
              λ f v r. Ends-ok (λ c v. Fine u c v) r)))
