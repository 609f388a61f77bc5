-- ===== src/Demos/Demo01/Joined.antt =====
-- What `co_join` promises the threads of examples/demo01.c.
use libco_lite.Base.{
  ℕ, ◌≡◌, ◌≢◌, refl, ◌∙◌, sym, subst, some, List, [], ◌++◌, arith, ◌==◌, append_nil, update,
  Bool-cases, inl, inr,
}
use libco_lite.Platform.{Platform}
use libco_lite.Thread.{zeroed, Task, World, Run, ok}
use libco_lite.Coroutine.{Control, returns_nothing, fresh_env, co_join}
use libco_lite.Coroutine.Environment.{fresh_env-IsValid}
use libco_lite.Coroutine.Join.{Joined, missing, freed, waits, co_join-Joined}
use libco_lite.Thread.Returns.{result}
use libco_lite.Demos.Demo01.{Act, bodies, Thread, Runs, still, and_then}
use libco_lite.Demos.Demo01.Fits.{said, Fits, Inv}
use libco_lite.Demos.Demo01.Steps.{Does-Inv}

first : (t : Task) → some zeroed ≡ some t → zeroed ≡ t
first t e = cc

module _ {p : Platform} where
  -- A thread that has just got its environment, with `acts` for its function to do.
  unfoldable pub begin : (epfd : ℕ) → p.Kernel → List Act → Thread p
  begin epfd kernel acts = record {
    control = returns_nothing;
    world = record { env = fresh_env epfd; kernel = kernel };
    script = update (λ _. []) 0 acts;
    printed = λ _. [];
  }

  begin-Inv : (epfd : ℕ) (kernel : p.Kernel) (acts : List Act) → Inv (begin epfd kernel acts)
  unfolding begin
  begin-Inv epfd kernel acts = record {
    safe = record {
      live = record {
        linked = record {
          valid = fresh_env-IsValid epfd;
          ended = λ j t e x. ground arith;
          queued = λ fd j h. absurd (ground (arith, p.contents_init fd));
          once = λ fd g j a b. absurd (ground (arith, p.contents_init fd));
          single = λ fd j. ground (arith, p.contents_init fd);
        };
        alive = λ t e x. ground arith;
        off = λ fd. ground (arith, p.contents_init fd);
      };
      returns = λ x. cc;
    };
    frame = λ f x. cc;
    each = λ j t o. elim (Bool-cases (0 == j)) [
      | inl e ↦
          let zero_j : 0 ≡ j = ground arith in
          subst (λ k. Fits k t (update (λ _. []) 0 acts k) []) zero_j
            (subst (λ x. Fits 0 x acts []) (first t (rw (sym zero_j) at o))
              (record {
                unregistered = refl;
                place = refl;
                ended = λ x. cc;
                told = λ n. absurd (n refl);
              }))
      | inr e ↦ absurd (ground arith)
    ];
  }

  Runs-Inv : {g h : Thread p} → Runs g h → Inv g → Inv h
  Runs-Inv still i = i
  Runs-Inv (and_then r d) i = Does-Inv _ _ d (Runs-Inv r i)

  -- On a thread of the program, from its first call on, whatever its own function does besides: when
  -- `co_join` of a coroutine returns, by whatever way control came to it, that coroutine has made all
  -- the calls of its function, and has printed all that the function prints, in order and once.
  pub Runs-joined :
      (epfd : ℕ) (kernel : p.Kernel) (acts : List Act) (h : Thread p) (rounds cid : ℕ) (v : World p)
      → Runs (begin epfd kernel acts) h
      → cid ≢ 0
      → co_join rounds cid h.world ≡ ok returns_nothing v
      → (t : Task) × (h.world.task cid ≡ some t)
        × (h.script cid ≡ [])
        × (h.printed cid ≡ said (bodies t.co_fn))
  unfolding said
  Runs-joined epfd kernel acts h rounds cid v r ne e =
      let i = Runs-Inv r (begin-Inv epfd kernel acts) in
      by_outcome i (co_join-Joined rounds h.world cid i.safe.live.linked.valid i.safe.live.alive) e
    where
      by_outcome :
          {r : Run p Control}
          → Inv h
          → Joined h.world cid r
          → r ≡ ok returns_nothing v
          → (t : Task) × (h.world.task cid ≡ some t)
            × (h.script cid ≡ [])
            × (h.printed cid ≡ said (bodies t.co_fn))
      by_outcome i (missing o f) e = absurd cc
      by_outcome i (freed t u o s f env_eq k valid) e =
          let fits = i.each cid t o in
          let nothing = fits.ended s in
          (
            t,
            o,
            nothing,
            sym (append_nil (h.printed cid))
                ∙ subst (λ acts. h.printed cid ++ said acts ≡ said (bodies t.co_fn)) nothing
                    (fits.told ne),
          )
      by_outcome i (waits t o s keeps) e = absurd (let (f, goes_f, s) = result _ keeps e in cc)
