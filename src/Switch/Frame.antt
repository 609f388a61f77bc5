-- ===== src/Switch/Frame.antt =====
-- What runs of pushes and of pops do (src/switch.S).
use libco_lite.Base.{
  ℕ, ◌+◌, ◌-◌, ◌*◌, ◌≤◌, ◌<◌, ◌≡◌, ◌⊎◌, inl, inr, subst, refl, ◌∙◌, true, List, [], ◌∷◌, ◌++◌,
  arith, ◌==◌, update_self, update-ne, length, Bool-cases,
}
use libco_lite.Platform.{has}
use libco_lite.Switch.{Machine, Instruction, pushq, popq, exec, run}

pub run-append : (is js : List Instruction) (m : Machine) → run (is ++ js) m ≡ run js (run is m)
unfolding run
run-append [] js m = refl
run-append (i ∷ is) js m = run-append is js (exec i m)

unfoldable pub pushes : List ℕ → List Instruction
pushes [] = []
pushes (r ∷ rs) = pushq r ∷ pushes rs

-- The pops that undo those pushes.
unfoldable pub pops : List ℕ → List Instruction
pops [] = []
pops (r ∷ rs) = pops rs ++ (popq r ∷ [])

-- The words below `top` are the registers of `rs`, in the order of their pushes.
abbrev pub Framed : (ℕ → ℕ) → (top : ℕ) → (ℕ → ℕ) → List ℕ → Type 0
Framed mem top f [] = Unit
Framed mem top f (r ∷ rs) = (mem (top - 8) ≡ f r) × Framed mem (top - 8) f rs

pub Framed-mem :
    (rs : List ℕ) (mem mem' : ℕ → ℕ) (top : ℕ) (f : ℕ → ℕ)
    → 8 * length rs ≤ top
    → ((j : ℕ) → top ≤ j + 8 * length rs → j < top → mem' j ≡ mem j)
    → Framed mem top f rs
    → Framed mem' top f rs
Framed-mem [] mem mem' top f h same fr = tt
Framed-mem (r ∷ rs) mem mem' top f h same fr = (
  same (top - 8) (omega arith) (omega arith) ∙ fr.0,
  Framed-mem rs mem mem' (top - 8) f (omega arith) (λ j a b. same j (omega arith) (omega arith))
      fr.1,
)

pub Framed-regs :
    (rs : List ℕ) (mem : ℕ → ℕ) (top : ℕ) (f g : ℕ → ℕ)
    → ((q : ℕ) → has q rs ≡ true → f q ≡ g q)
    → Framed mem top f rs
    → Framed mem top g rs
Framed-regs [] mem top f g same fr = tt
Framed-regs (r ∷ rs) mem top f g same fr = (
  fr.0 ∙ same r (ground arith),
  Framed-regs rs mem (top - 8) f g (λ q h. same q (ground arith)) fr.1,
)

-- A machine after pushes, against the one before.
pub record Pushed (rs : List ℕ) (m n : Machine) : Type 0 where
  pub depth : n.rsp + 8 * length rs ≡ m.rsp
  pub kept : (q : ℕ) → n.regs q ≡ m.regs q
  pub framed : Framed n.mem m.rsp m.regs rs
  pub outside : (j : ℕ) → (j < n.rsp) ⊎ (m.rsp ≤ j) → n.mem j ≡ m.mem j

pub run-pushes :
    (rs : List ℕ) (m : Machine) → 8 * length rs ≤ m.rsp → Pushed rs m (run (pushes rs) m)
unfolding run pushes
run-pushes [] m h = record {
  depth = omega arith;
  kept = λ q. refl;
  framed = tt;
  outside = λ j o. refl;
}
run-pushes (r ∷ rs) m h =
    let rest = run-pushes rs (exec (pushq r) m) (omega arith) in
    record {
      depth = let d = rest.depth in omega arith;
      kept = rest.kept;
      framed = (
        rest.outside (m.rsp - 8) (inr (omega arith)) ∙ update_self m.mem (m.rsp - 8) (m.regs r),
        rest.framed,
      );
      outside = λ j o.
          let d = rest.depth in
          rest.outside j (ground arith) ∙ update-ne m.mem (m.rsp - 8) (m.regs r) j (ground arith);
    }

-- A machine after the pops of a frame.
pub record Popped (rs : List ℕ) (f : ℕ → ℕ) (m n : Machine) : Type 0 where
  pub height : n.rsp ≡ m.rsp + 8 * length rs
  pub loaded : (q : ℕ) → has q rs ≡ true → n.regs q ≡ f q
  pub memory : n.mem ≡ m.mem

pub run-pops :
    (rs : List ℕ) (m : Machine) (f : ℕ → ℕ)
    → Framed m.mem (m.rsp + 8 * length rs) f rs
    → Popped rs f m (run (pops rs) m)
unfolding run pops
run-pops [] m f fr = record {
  height = omega arith;
  loaded = λ q h. absurd (ground arith);
  memory = refl;
}
run-pops (r ∷ rs) m f fr =
    let top = m.rsp + 8 * length (r ∷ rs) in
    let e : top - 8 ≡ m.rsp + 8 * length rs = omega arith in
    let inner = run-pops rs m f (subst (λ t. Framed m.mem t f rs) e fr.1) in
    let n = run (pops rs) m in
    let word : n.mem n.rsp ≡ f r = rw (inner.memory, inner.height, ← e) fr.0 in
    rw (run-append (pops rs) (popq r ∷ []) m) (record {
      height = let h = inner.height in omega arith;
      loaded = λ q h. elim (Bool-cases (r == q)) [
        | inl z ↦
            let rq : r ≡ q = ground arith in rw (← rq) (update_self n.regs r (n.mem n.rsp) ∙ word)
        | inr z ↦ update-ne n.regs r (n.mem n.rsp) q (ground arith) ∙ inner.loaded q (ground arith)
      ];
      memory = inner.memory;
    })
