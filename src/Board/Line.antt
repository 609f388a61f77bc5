-- ===== src/Board/Line.antt =====
-- First come, first served: the block queue of a descriptor is a line in which nobody overtakes
-- (src/cosyscall.c, `add_queue`; src/coeventloop.c).
use libco_lite.Base.{
  ℕ, ◌≡◌, refl, sym, ap, ◌∙◌, inl, inr, List, [], ◌∷◌, ◌++◌, arith, ◌==◌, Bool-cases, append_nil,
}
use mathlib.Core.List.{append_assoc}
use libco_lite.Platform.{Platform}
use libco_lite.Thread.{World}
use libco_lite.Coroutine.{Control, returns_int, returns_nothing, goes}
use libco_lite.System.{Reach, here, step, outside}
use libco_lite.System.Linked.{IsSafe}
use libco_lite.System.Safety.{Reach-IsSafe}
use libco_lite.Board.{
  Board, view, Quiet, spawns, reaps, marks, parks, serves, rouses, Quiets, none_yet, and_then,
  Refines,
}
use libco_lite.Board.Nearer.{Quiet-current}
use libco_lite.Board.Steps.{Step-Refines}

-- Who was current at the start of each step of a run, in the order of the steps.
unfoldable pub currents :
    {p : Platform} {c : Control} {w : World p} {d : Control} {v : World p} → Reach c w d v → List ℕ
currents here = []
currents (step {u} r st) = currents r ++ u.current ∷ []
currents (outside r k) = currents r

-- A list is drawn from another in its order; each place may be drawn any number of times.
pub data Drawn : List ℕ → List ℕ → Type 0 where
  empty : Drawn [] []
  skip : {xs : List ℕ} (ks : List ℕ) (k : ℕ) → Drawn xs ks → Drawn xs (ks ++ k ∷ [])
  draw : (xs ks : List ℕ) (k : ℕ) → Drawn xs (ks ++ k ∷ []) → Drawn (xs ++ k ∷ []) (ks ++ k ∷ [])

-- The queue is what was there first, less some of its head, with some of `ks` behind it in their
-- order.
pub record InOrder (first ks line : List ℕ) : Type 0 where
  pub gone : List ℕ
  pub arrivals : List ℕ
  pub drawn : Drawn arrivals ks
  pub split : first ++ arrivals ≡ gone ++ line

module _ (first : List ℕ) where
  same_line : (ks : List ℕ) {l m : List ℕ} → m ≡ l → InOrder first ks l → InOrder first ks m
  same_line ks e s = record {
    gone = s.gone;
    arrivals = s.arrivals;
    drawn = s.drawn;
    split = s.split ∙ ap (λ l. s.gone ++ l) (sym e);
  }

  -- The last of `ks` goes to the end of the line.
  longer :
      (ks : List ℕ) (k : ℕ) {l m : List ℕ}
      → m ≡ l ++ k ∷ []
      → InOrder first (ks ++ k ∷ []) l
      → InOrder first (ks ++ k ∷ []) m
  longer ks k {l} e s = record {
    gone = s.gone;
    arrivals = s.arrivals ++ k ∷ [];
    drawn = draw s.arrivals ks k s.drawn;
    split =
        sym (append_assoc first s.arrivals (k ∷ []))
        ∙ ap (λ x. x ++ k ∷ []) s.split
        ∙ append_assoc s.gone l (k ∷ [])
        ∙ ap (λ x. s.gone ++ x) (sym e);
  }

  -- The first leaves.
  shorter :
      (ks : List ℕ) (i : ℕ) {l m : List ℕ} → l ≡ i ∷ m → InOrder first ks l → InOrder first ks m
  shorter ks i {l} {m} e s = record {
    gone = s.gone ++ i ∷ [];
    arrivals = s.arrivals;
    drawn = s.drawn;
    split = s.split ∙ ap (λ x. s.gone ++ x) e ∙ sym (append_assoc s.gone (i ∷ []) m);
  }

module _ (fd : ℕ) (first : List ℕ) where
  abbrev Queued : List ℕ → Board → Type 0
  Queued ks b = InOrder first ks (b.queues fd)

  Quiet-Queued :
      (ks : List ℕ) {b c : Board}
      → Quiet b c
      → Queued (ks ++ b.current ∷ []) b
      → Queued (ks ++ b.current ∷ []) c
  Quiet-Queued ks {b} (spawns i e f r w) s =
      same_line first (ks ++ b.current ∷ []) (w.same_queues fd) s
  Quiet-Queued ks {b} (reaps i e f x w) s =
      same_line first (ks ++ b.current ∷ []) (w.same_queues fd) s
  Quiet-Queued ks {b} (marks a e f w) s =
      same_line first (ks ++ b.current ∷ []) (w.same_queues fd) s
  Quiet-Queued ks {b} (parks g e f x o same_current same q) s = elim (Bool-cases (g == fd)) [
    | inl z ↦ longer first ks b.current (ground (arith, q fd)) s
    | inr z ↦ same_line first (ks ++ b.current ∷ []) (ground (arith, q fd)) s
  ]
  Quiet-Queued ks {b} {c} (serves g i rest e f o x same_current q slots) s =
      elim (Bool-cases (g == fd)) [
        | inl z ↦
            let same : g ≡ fd = ground arith in
            let left : c.queues fd ≡ rest = ground (arith, q fd) in
            shorter first (ks ++ b.current ∷ []) i
              (sym (ap b.queues same) ∙ f ∙ ap (λ l. i ∷ l) (sym left)) s
        | inr z ↦ same_line first (ks ++ b.current ∷ []) (ground (arith, q fd)) s
      ]
  Quiet-Queued ks {b} (rouses same_current q slots) s =
      same_line first (ks ++ b.current ∷ []) (q fd) s

  Quiets-Queued :
      (ks : List ℕ) {b c : Board}
      → Quiets b c
      → Queued (ks ++ b.current ∷ []) b
      → Queued (ks ++ b.current ∷ []) c × (c.current ≡ b.current)
  Quiets-Queued ks none_yet s = (s, refl)
  Quiets-Queued ks {b} (and_then q m) s =
      let (s', same) = Quiets-Queued ks q s in
      (rw same at (Quiet-Queued ks m (rw same s')), Quiet-current m ∙ same)

  Refines-Queued :
      (k : Control) (ks : List ℕ) (b c : Board)
      → Refines k b c
      → Queued ks b
      → Queued (ks ++ b.current ∷ []) c
  Refines-Queued k ks b c r s = by_control k r
    where
      start : Queued (ks ++ b.current ∷ []) b
      start = record {
        gone = s.gone;
        arrivals = s.arrivals;
        drawn = skip ks b.current s.drawn;
        split = s.split;
      }

      by_control : (k : Control) → Refines k b c → Queued (ks ++ b.current ∷ []) c
      by_control (returns_int n) q = (Quiets-Queued ks q start).0
      by_control returns_nothing q = (Quiets-Queued ks q start).0
      by_control (goes f) (d, q, p) =
          same_line first (ks ++ b.current ∷ []) (p.same_queues fd) (Quiets-Queued ks q start).0

module _ {p : Platform} (fd : ℕ) where
  -- First come, first served. After a run from a safe configuration, the block queue of a descriptor
  -- is what it was at the start, less some coroutines from its head, and behind these coroutines that
  -- were current at the steps of the run, in the order of those steps.
  pub Reach-InOrder :
      {c : Control} {w : World p} {d : Control} {v : World p}
      → IsSafe c w
      → (r : Reach c w d v)
      → InOrder (p.contents w.block_queue fd) (currents r) (p.contents v.block_queue fd)
  unfolding currents
  Reach-InOrder {w} s here = record {
    gone = [];
    arrivals = [];
    drawn = empty;
    split = append_nil (p.contents w.block_queue fd);
  }
  Reach-InOrder {w} s (step {d} {e} {u} {v} r st) =
      Refines-Queued fd (p.contents w.block_queue fd) e (currents r) (view u) (view v)
        (Step-Refines (Reach-IsSafe s r) st) (Reach-InOrder s r)
  Reach-InOrder s (outside r k) = Reach-InOrder s r
