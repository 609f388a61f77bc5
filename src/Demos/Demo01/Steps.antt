-- ===== src/Demos/Demo01/Steps.antt =====
-- Each step of a thread of examples/demo01.c keeps the invariant of `Fits`.
use libco_lite.Base.{
  ℕ, ◌≡◌, ◌≢◌, refl, sym, ap, ◌∙◌, subst, inl, inr, none, some, Option, List, [], ◌∷◌, ◌++◌, arith,
  ◌==◌, update, Bool-cases, Option-cases, ℤ,
}
use libco_lite.Platform.{Platform}
use libco_lite.Thread.{Frame, Task, ThreadEnv, World, Run, ok, put_task}
use libco_lite.Coroutine.{Control, returns_int, goes, co_create, finish}
use libco_lite.Coroutine.Create
use libco_lite.Coroutine.Create.{born, Created, co_create-Created}
use libco_lite.System.Linked.{IsSafe}
use libco_lite.System.Safety.{Step-IsSafe}
use libco_lite.System.{InUser, with_int, with_nothing, Step, call, ends, perform, resume}
use libco_lite.System
use libco_lite.Demos.Demo01.{
  Message, Act, prints, co_creates, co_sleeps, co_joins, bodies, Thread, next, done, Does, says,
  creates, create_fails, sleeps, joins, returns, goes_on,
}
use libco_lite.Demos.Demo01.Evolves.{
  Akin-refl, Evolves, Plain, Fine, co_sleep-Fine, co_join-Fine, resume-Fine, finished, finish-Fine,
}
use libco_lite.Demos.Demo01.Fits.{said, Fits, Inv, Akin-Fits, fewer-Fits, said-Fits}

module _ {p : Platform} where
  -- The coroutines when the current one has an act less to do.
  popped :
      (h : Thread p) (a : Act) (rest : List Act)
      → Inv h
      → next h ≡ a ∷ rest
      → said (a ∷ rest) ≡ said rest
      → (j : ℕ) (t : Task) → h.world.task j ≡ some t
      → Fits j t (update h.script h.world.current rest j) (h.printed j)
  popped h a rest i n e j t o = elim (Bool-cases (h.world.current == j)) [
    | inl c ↦
        let cj : h.world.current ≡ j = ground arith in
        let whole : h.script j ≡ a ∷ rest = ap h.script (sym cj) ∙ n in
        let now : update h.script h.world.current rest j ≡ rest = ground arith in
        rw now (fewer-Fits e (subst (λ l. Fits j t l (h.printed j)) whole (i.each j t o)))
    | inr c ↦
        let now : update h.script h.world.current rest j ≡ h.script j = ground arith in
        rw now (i.each j t o)
  ]

  Inv-Plain : (h : Thread p) → Inv h → Plain h.world
  Inv-Plain h i j t o = let f = i.each j t o in f.place

  evolved :
      (w v : World p) (script : ℕ → List Act) (out : ℕ → List Message)
      → ((j : ℕ) (t : Task) → w.task j ≡ some t → Fits j t (script j) (out j))
      → Evolves w v
      → (j : ℕ) (t : Task) → v.task j ≡ some t
      → Fits j t (script j) (out j)
  evolved w v script out fits e j t' o = let (t, f, a) = e j t' o in Akin-Fits a (fits j t f)

  Here : World p → Type 0
  Here w = (t : Task) × (w.task w.current ≡ some t)

  here : (h : Thread p) → Inv h → Here h.world
  unfolding Here
  here h i = elim (Option-cases (h.world.task h.world.current)) [
    | inl o ↦ let l = i.safe.live.linked.valid.current_live in absurd (ground arith)
    | inr x ↦ x
  ]

  says-Inv :
      (h : Thread p) (m : Message) (rest : List Act)
      → Inv h
      → next h ≡ prints m ∷ rest
      → Inv (record (done h rest h.control h.world) {
        printed = update h.printed h.world.current (h.printed h.world.current ++ m ∷ []);
      })
  says-Inv h m rest i n = record {
    safe = i.safe;
    frame = i.frame;
    each = λ j t o. elim (Bool-cases (h.world.current == j)) [
      | inl c ↦
          let cj : h.world.current ≡ j = ground arith in
          let whole : h.script j ≡ prints m ∷ rest = ap h.script (sym cj) ∙ n in
          rw (c, ap h.printed cj)
            (said-Fits (subst (λ l. Fits j t l (h.printed j)) whole (i.each j t o)))
      | inr c ↦ rw c (i.each j t o)
    ];
  }

  -- What the library does leaves all as it should be, with an act less to do.
  popped-Inv :
      (h : Thread p) (a : Act) (rest : List Act) (c : Control) (v : World p)
      → Inv h
      → next h ≡ a ∷ rest
      → said (a ∷ rest) ≡ said rest
      → IsSafe c v
      → Fine h.world c v
      → Inv (done h rest c v)
  popped-Inv h a rest c v i n e s (ev, places) = record {
    safe = s;
    frame = places;
    each =
        evolved h.world v (update h.script h.world.current rest) h.printed (popped h a rest i n e)
          ev;
  }

  returns-Inv :
      (h : Thread p) (rounds : ℕ) (c : Control) (v : World p)
      → Inv h
      → InUser h.control
      → h.world.current ≢ 0
      → next h ≡ []
      → finish rounds h.world ≡ ok c v
      → Inv (record h { control = c; world = v })
  unfolding Here
  returns-Inv h rounds c v i u ne n e =
      let (t, o) = here h i in
      let f = i.each h.world.current t o in
      let z = f.unregistered in
      let (ev, places) =
        finish-Fine rounds h.world t i.safe.live.linked.valid (Inv-Plain h i) o z c v e in
      record {
        safe = Step-IsSafe (ends rounds t u ne o z e) i.safe;
        frame = places;
        each =
            evolved (put_task h.world h.world.current (some (finished t))) v h.script h.printed
              (λ j x r. elim (Bool-cases (h.world.current == j)) [
                | inl q ↦
                    let cj : h.world.current ≡ j = ground arith in
                    let same : finished t ≡ x = ground arith in
                    subst (λ y. Fits j y (h.script j) (h.printed j)) same
                      (subst (λ k. Fits k (finished t) (h.script k) (h.printed k)) cj
                        (record {
                          unregistered = refl;
                          place = f.place;
                          ended = λ y. n;
                          told = f.told;
                        }))
                | inr q ↦ i.each j x (ground arith)
              ])
              ev;
      }

  goes_on-Inv :
      (h : Thread p) (rounds : ℕ) (f : Frame) (c : Control) (v : World p)
      → Inv h
      → h.control ≡ goes f
      → resume rounds f h.world ≡ ok c v
      → Inv (record h { control = c; world = v })
  goes_on-Inv h rounds f c v i g e =
      let (ev, places) =
        resume-Fine rounds f h.world i.safe.live.linked.valid (Inv-Plain h i) i.safe.live.alive
          (i.frame f g) c v e in
      record {
        safe = Step-IsSafe (System.goes_on rounds f g e) i.safe;
        frame = places;
        each = evolved h.world v h.script h.printed i.each ev;
      }

  created :
      (w : World p) (co_fn arg : ℕ) (ret : ℤ) (id : ℕ) (v : World p) {r : Run p (ℤ × Option ℕ)}
      → Created w co_fn arg r
      → r ≡ ok (ret, some id) v
      → (j : ℕ) → v.task j ≡ update w.task id (some (born id co_fn arg)) j
  created w co_fn arg ret id v (Create.full all f) e = absurd cc
  created w co_fn arg ret id v (Create.no_memory c f) e = absurd cc
  created w co_fn arg ret id v (Create.made id' v' lt free first f env_eq valid) e =
      let same : v' ≡ v = cc in
      let same_id : id' ≡ id = cc in
      λ j.
        subst (λ k. v.task j ≡ update w.task k (some (born k co_fn arg)) j) same_id
          (subst (λ (u : World p). u.task j ≡ update w.task id' (some (born id' co_fn arg)) j) same
            (ap (λ (x : ThreadEnv p). x.task j) env_eq))

  not_created :
      (w : World p) (co_fn arg : ℕ) (ret : ℤ) (v : World p) {r : Run p (ℤ × Option ℕ)}
      → Created w co_fn arg r
      → r ≡ ok (ret, none) v
      → Fine w (returns_int ret) v
  not_created w co_fn arg ret v (Create.full all f) e =
      let same : w ≡ v = cc in (λ j t o. (t, rw same o, Akin-refl t), λ f x. cc)
  not_created w co_fn arg ret v (Create.no_memory c f) e = absurd cc
  not_created w co_fn arg ret v (Create.made id' v' lt free first f env_eq valid) e = absurd cc

  creates-Inv :
      (h : Thread p) (co_fn arg : ℕ) (rest : List Act) (ret : ℤ) (id : ℕ) (v : World p)
      → Inv h
      → InUser h.control
      → next h ≡ co_creates co_fn arg ∷ rest
      → co_create co_fn arg h.world ≡ ok (ret, some id) v
      → Inv (record (done h rest (returns_int ret) v) {
        script = update (update h.script h.world.current rest) id (bodies co_fn);
        printed = update h.printed id [];
      })
  unfolding perform said
  creates-Inv h co_fn arg rest ret id v i u n e = record {
    safe = Step-IsSafe (call 1 (System.creates co_fn arg) u tt (rw e)) i.safe;
    frame = λ f x. cc;
    each = λ j t o.
        let slots =
          created h.world co_fn arg ret id v
            (co_create-Created h.world co_fn arg i.safe.live.linked.valid) e j in
        elim (Bool-cases (id == j)) [
          | inl c ↦
              let same : born id co_fn arg ≡ t = ground arith in
              rw c (
                subst (λ x. Fits j x (bodies co_fn) []) same
                  (record { unregistered = refl; place = refl; ended = λ x. cc; told = λ x. refl }))
          | inr c ↦ rw c (popped h (co_creates co_fn arg) rest i n refl j t (ground arith))
        ];
  }

  pub Does-Inv : (h g : Thread p) → Does h g → Inv h → Inv g
  unfolding Here perform said
  Does-Inv h g (says m rest u n) i = says-Inv h m rest i n
  Does-Inv h g (creates co_fn arg rest ret id v u n e) i =
      creates-Inv h co_fn arg rest ret id v i u n e
  Does-Inv h g (create_fails co_fn arg rest ret v u n e) i =
      popped-Inv h (co_creates co_fn arg) rest (returns_int ret) v i n refl
        (Step-IsSafe (call 1 (System.creates co_fn arg) u tt (rw e)) i.safe)
        (not_created h.world co_fn arg ret v
          (co_create-Created h.world co_fn arg i.safe.live.linked.valid) e)
  Does-Inv h g (sleeps rounds seconds rest f v u n e) i =
      let (t, o) = here h i in
      popped-Inv h (co_sleeps seconds) rest (goes f) v i n refl
        (Step-IsSafe (call rounds (System.sleeps seconds) u tt (rw e)) i.safe)
        (co_sleep-Fine rounds seconds h.world t i.safe.live.linked.valid (Inv-Plain h i) o f v e)
  Does-Inv h g (joins rounds cid rest c v u n e) i =
      popped-Inv h (co_joins cid) rest c v i n refl
        (Step-IsSafe (call rounds (System.joins cid) u tt e) i.safe)
        (co_join-Fine rounds cid h.world i.safe.live.linked.valid (Inv-Plain h i) i.safe.live.alive
          c v e)
  Does-Inv h g (returns rounds c v u ne n e) i = returns-Inv h rounds c v i u ne n e
  Does-Inv h g (goes_on rounds f c v x e) i = goes_on-Inv h rounds f c v i x e
