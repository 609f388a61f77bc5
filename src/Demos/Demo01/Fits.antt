-- ===== src/Demos/Demo01/Fits.antt =====
-- What holds of a thread of examples/demo01.c all along: a coroutine ends with its function done, and
-- has printed what it has no longer to print.
use libco_lite.Base.{ℕ, ◌≡◌, ◌≢◌, refl, sym, ap, ◌∙◌, true, some, List, [], ◌∷◌, ◌++◌, arith}
use libco_lite.Platform.{Platform}
use libco_lite.Thread.{exit, Frame, Task}
use libco_lite.Coroutine.{goes}
use libco_lite.System.Linked.{IsSafe}
use libco_lite.Demos.Demo01.{Message, Act, prints, co_creates, co_sleeps, co_joins, bodies, Thread}
use libco_lite.Demos.Demo01.Evolves.{plain, Akin}

-- What is still to be printed.
unfoldable pub said : List Act → List Message
said [] = []
said (prints m ∷ acts) = m ∷ said acts
said (co_creates co_fn arg ∷ acts) = said acts
said (co_sleeps seconds ∷ acts) = said acts
said (co_joins cid ∷ acts) = said acts

-- A coroutine against what it has still to do and has printed. Slot 0 has the thread's own function.
pub record Fits (j : ℕ) (t : Task) (acts : List Act) (out : List Message) : Type 0 where
  pub unregistered : t.fds_idx ≡ 0
  pub place : plain t.frame ≡ true
  pub ended : t.status ≡ exit → acts ≡ []
  pub told : j ≢ 0 → out ++ said acts ≡ said (bodies t.co_fn)

pub record Inv {p : Platform} (h : Thread p) : Type 0 where
  pub safe : IsSafe h.control h.world
  pub frame : (f : Frame) → h.control ≡ goes f → plain f ≡ true
  pub each : (j : ℕ) (t : Task) → h.world.task j ≡ some t → Fits j t (h.script j) (h.printed j)

pub Akin-Fits :
    {j : ℕ} {t t' : Task} {acts : List Act} {out : List Message}
    → Akin t t'
    → Fits j t acts out
    → Fits j t' acts out
Akin-Fits a f = record {
  unregistered = a.fds_idx ∙ f.unregistered;
  place = a.place f.place;
  ended = λ e. f.ended (a.exits e);
  told = λ n. f.told n ∙ ap (λ k. said (bodies k)) (sym a.co_fn);
}

-- One act less to do, which is not a print.
pub fewer-Fits :
    {j : ℕ} {t : Task} {a : Act} {rest : List Act} {out : List Message}
    → said (a ∷ rest) ≡ said rest
    → Fits j t (a ∷ rest) out
    → Fits j t rest out
fewer-Fits {out} e f = record {
  unregistered = f.unregistered;
  place = f.place;
  ended = λ x. absurd (ground (arith, f.ended x));
  told = λ n. ap (λ l. out ++ l) (sym e) ∙ f.told n;
}

append-one :
    (out : List Message) (m : Message) (l : List Message) → (out ++ m ∷ []) ++ l ≡ out ++ m ∷ l
append-one [] m l = refl
append-one (x ∷ out) m l = ap (λ k. x ∷ k) (append-one out m l)

-- An act less to do, which is a print.
pub said-Fits :
    {j : ℕ} {t : Task} {m : Message} {rest : List Act} {out : List Message}
    → Fits j t (prints m ∷ rest) out
    → Fits j t rest (out ++ m ∷ [])
unfolding said
said-Fits {m} {rest} {out} f = record {
  unregistered = f.unregistered;
  place = f.place;
  ended = λ x. absurd (ground (arith, f.ended x));
  told = λ n. append-one out m (said rest) ∙ f.told n;
}
