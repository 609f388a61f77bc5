-- ===== src/Thread/Returns.antt =====
-- Total correctness of a command: it ends normally, in a state that meets a postcondition.
use libco_lite.Base.{ℕ, ◌≡◌, refl}
use mathlib.Core.Path.{subst₂}
use libco_lite.Platform.{Platform}
use libco_lite.Thread.{World, Run, ok, exited, fault, out_of_fuel, and_then}

pub data Returns {p : Platform} {A : Type 0} (P : A → World p → Type 0) : Run p A → Type 0 where
  returns : {a : A} {w : World p} → P a w → Returns P (ok a w)

-- No fault and no exit, and a postcondition where the command ends.
pub data Keeps {p : Platform} {A : Type 0} (P : A → World p → Type 0) : Run p A → Type 0 where
  kept : {a : A} {w : World p} → P a w → Keeps P (ok a w)
  unfinished : Keeps P out_of_fuel

module _ {p : Platform} {A : Type 0} {P : A → World p → Type 0} where
  pub bind :
      {B : Type 0} {Q : B → World p → Type 0} {r : Run p A} (k : A → World p → Run p B)
      → Returns P r
      → ((a : A) (w : World p) → P a w → Returns Q (k a w))
      → Returns Q (and_then r k)
  bind k (returns h) next = next _ _ h

  pub weaken :
      {Q : A → World p → Type 0} {r : Run p A}
      → Returns P r
      → ((a : A) (w : World p) → P a w → Q a w)
      → Returns Q r
  weaken (returns h) f = returns (f _ _ h)

  pub after :
      {B : Type 0} {Q : B → World p → Type 0} {r : Run p A} (k : A → World p → Run p B)
      → Returns P r
      → ((a : A) (w : World p) → P a w → Keeps Q (k a w))
      → Keeps Q (and_then r k)
  after k (returns h) next = next _ _ h

  pub chain :
      {B : Type 0} {Q : B → World p → Type 0} {r : Run p A} (k : A → World p → Run p B)
      → Keeps P r
      → ((a : A) (w : World p) → P a w → Keeps Q (k a w))
      → Keeps Q (and_then r k)
  chain k (kept h) next = next _ _ h
  chain k unfinished next = unfinished

  pub finish : {r : Run p A} → Returns P r → Keeps P r
  finish (returns h) = kept h

  pub relax :
      {Q : A → World p → Type 0} {r : Run p A}
      → Keeps P r
      → ((a : A) (w : World p) → P a w → Q a w)
      → Keeps Q r
  relax (kept h) f = kept (f _ _ h)
  relax unfinished f = unfinished

  -- The postcondition of a command that has ended.
  pub result : (r : Run p A) {a : A} {w : World p} → Keeps P r → r ≡ ok a w → P a w
  result r h e = inside (rw e at h)
    where
      inside : {a : A} {w : World p} → Keeps P (ok a w) → P a w
      inside (kept h) = h

-- A postcondition of a command that may also fault or exit.
abbrev pub Ends : {p : Platform} {A : Type 0} → (A → World p → Type 0) → Run p A → Type 0
Ends {p} {A} P r = (a : A) (w : World p) → r ≡ ok a w → P a w

module _ {p : Platform} {A : Type 0} where
  pub Ends-ok : (P : A → World p → Type 0) {a : A} {w : World p} → P a w → Ends P (ok a w)
  Ends-ok P {a} {w} h b v e = let ea : a ≡ b = cc in let ew : w ≡ v = cc in subst₂ P ea ew h

  pub Ends-fault : (P : A → World p → Type 0) → Ends P fault
  Ends-fault P a w e = cc

  pub Ends-exited : (P : A → World p → Type 0) (n : ℕ) → Ends P (exited n)
  Ends-exited P n a w e = cc

  pub Ends-Keeps :
      (P : A → World p → Type 0) (Q : A → World p → Type 0) (r : Run p A)
      → Keeps P r
      → ((a : A) (w : World p) → P a w → Q a w)
      → Ends Q r
  Ends-Keeps P Q r h f a w e = f a w (result r h e)

  pub Ends-bind :
      {B : Type 0} (P : A → World p → Type 0) (Q : B → World p → Type 0) (r : Run p A)
      (k : A → World p → Run p B)
      → Ends P r
      → ((a : A) (w : World p) → P a w → Ends Q (k a w))
      → Ends Q (and_then r k)
  Ends-bind P Q (ok a w) k h next = next a w (h a w refl)
  Ends-bind P Q (exited n) k h next = λ b v e. cc
  Ends-bind P Q fault k h next = λ b v e. cc
  Ends-bind P Q out_of_fuel k h next = λ b v e. cc

  -- A command that returns, with all that holds of it where it ends.
  pub Returns-Ends :
      {P Q : A → World p → Type 0} {r : Run p A}
      → Returns P r
      → Ends Q r
      → Returns (λ a w. P a w × Q a w) r
  Returns-Ends (returns {a} {w} h) q = returns (h, q a w refl)
