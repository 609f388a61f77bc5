-- ===== src/Switch/Transfer.antt =====
-- What a call of `switch_to` does (src/switch.S): it leaves the caller suspended, and goes on where
-- the other coroutine was suspended; and the frame of `co_create` is that of a suspended coroutine.
use libco_lite.Base.{
  ℕ, ◌+◌, ◌-◌, ◌*◌, ◌≤◌, ◌<◌, ◌≡◌, ◌≢◌, ◌⊎◌, inr, subst, refl, sym, ap, ◌∙◌, true, List, [], ◌∷◌,
  ◌++◌, arith, update, update_self, update-ne, length,
}
use libco_lite.Platform.{has}
use libco_lite.Switch.{
  Machine, Instruction, rax, rcx, rdx, rbx, rbp, rsi, rdi, flags, pushq, movq, movq_rsp, store_rsp,
  load_rsp, ret, exec, run, switch_to,
}
use libco_lite.Switch.Frame.{
  run-append, pushes, pops, Framed, Framed-mem, Framed-regs, run-pushes, run-pops,
}

-- The registers pushed after rbp.
abbrev others : List ℕ
others = rdi ∷ rsi ∷ rbx ∷ rdx ∷ rcx ∷ rax ∷ flags ∷ 8 ∷ 9 ∷ 10 ∷ 11 ∷ 12 ∷ 13 ∷ 14 ∷ 15 ∷ []

-- All registers that are saved: every one but `rsp`.
abbrev pub saved : List ℕ
saved = rbp ∷ others

-- The block at `tsk` is suspended: its saved `esp` is 128 bytes below `sp`, its registers have the
-- values of `f`, and the return address is `back`.
pub record Suspended (mem : ℕ → ℕ) (tsk : ℕ) (f : ℕ → ℕ) (back sp : ℕ) : Type 0 where
  pub esp : mem (tsk + 8) + 128 ≡ sp
  pub frame : Framed mem sp f saved
  pub address : mem sp ≡ back

-- The instructions up to the change of stacks, and those after it.
abbrev leaving : List Instruction
leaving = pushq rbp ∷ movq_rsp rbp ∷ (pushes others ++ (movq rdi rax ∷ store_rsp 8 rax ∷ []))

abbrev entering : List Instruction
entering = movq rsi rax ∷ load_rsp 8 rax ∷ (pops saved ++ (ret ∷ []))

two_halves : switch_to ≡ leaving ++ entering
unfolding switch_to pushes pops
two_halves = refl

-- What the first half leaves behind.
record Left (m n : Machine) : Type 0 where
  state : Suspended n.mem (m.regs rdi) m.regs (m.mem m.rsp) m.rsp
  next : n.regs rsi ≡ m.regs rsi
  elsewhere : (j : ℕ) → (j + 128 < m.rsp) ⊎ (m.rsp ≤ j) → m.regs rdi + 8 ≢ j → n.mem j ≡ m.mem j

-- The place where the `esp` is saved is none of the stack's words in use.
abbrev pub Clear : (tsk sp : ℕ) → Type 0
Clear tsk sp = (tsk + 16 + 128 ≤ sp) ⊎ (sp ≤ tsk)

run-leaving : (m : Machine) → 128 ≤ m.rsp → Clear (m.regs rdi) m.rsp → Left m (run leaving m)
unfolding run
run-leaving m h clear =
    let m1 = exec (movq_rsp rbp) (exec (pushq rbp) m) in
    let p = run-pushes others m1 (omega arith) in
    let n = run (pushes others) m1 in
    let depth : n.rsp + 120 ≡ m.rsp - 8 = p.depth in
    let place = m.regs rdi + 8 in
    let pushed : (j : ℕ) → j + 128 < m.rsp ⊎ m.rsp ≤ j → n.mem j ≡ m.mem j = λ j o.
      p.outside j (ground arith) ∙ update-ne m.mem (m.rsp - 8) (m.regs rbp) j (ground arith) in
    rw (run-append (pushes others) (movq rdi rax ∷ store_rsp 8 rax ∷ []) m1, p.kept rdi)
      (record {
        state = record {
          esp = omega (arith, update_self n.mem place n.rsp);
          frame =
              Framed-mem saved n.mem (update n.mem place n.rsp) m.rsp m.regs h
                (λ j a b. update-ne n.mem place n.rsp j (ground arith))
                (
                  p.outside (m.rsp - 8) (inr (omega arith))
                      ∙ update_self m.mem (m.rsp - 8) (m.regs rbp),
                  Framed-regs others n.mem (m.rsp - 8) m1.regs m.regs
                      (λ q t. update-ne m.regs rbp (m.rsp - 8) q (ground arith)) p.framed,
                );
          address =
              update-ne n.mem place n.rsp m.rsp (ground arith) ∙ pushed m.rsp (inr (omega arith));
        };
        next = p.kept rsi;
        elsewhere = λ j o far. update-ne n.mem place n.rsp j far ∙ pushed j o;
      })

run-entering :
    (m : Machine) (f : ℕ → ℕ) (back sp : ℕ)
    → Suspended m.mem (m.regs rsi) f back sp
    → let n = run entering m in
      ((q : ℕ) → has q saved ≡ true → n.regs q ≡ f q)
      × (n.rip ≡ back)
      × (n.rsp ≡ sp + 8)
      × (n.mem ≡ m.mem)
unfolding run
run-entering m f back sp s =
    let n = exec (load_rsp 8 rax) (exec (movq rsi rax) m) in
    let e : n.rsp + 8 * length saved ≡ sp = omega (arith, s.esp) in
    let popped = run-pops saved n f (subst (λ t. Framed n.mem t f saved) (sym e) s.frame) in
    let at_ret : (run (pops saved) n).rsp ≡ sp = popped.height ∙ e in
    rw (run-append (pops saved) (ret ∷ []) n)
      (popped.loaded, rw (popped.memory, at_ret) s.address, ap (λ x. x + 8) at_ret, popped.memory)

pub Suspended-mem :
    (mem mem' : ℕ → ℕ) (tsk : ℕ) (f : ℕ → ℕ) (back sp : ℕ)
    → mem' (tsk + 8) ≡ mem (tsk + 8)
    → ((j : ℕ) → sp ≤ j + 128 → j ≤ sp → mem' j ≡ mem j)
    → Suspended mem tsk f back sp
    → Suspended mem' tsk f back sp
Suspended-mem mem mem' tsk f back sp e same s = record {
  esp = omega (arith, s.esp, e);
  frame =
      Framed-mem saved mem mem' sp f (omega (arith, s.esp))
        (λ j a b. same j (omega arith) (omega arith)) s.frame;
  address = same sp (omega arith) (omega arith) ∙ s.address;
}

-- The coroutines of the two arguments of `switch_to` are apart: two blocks, with room on the stack
-- of the first, and neither one's saved words on the stack of the other.
pub record Apart (cur next rsp sp : ℕ) : Type 0 where
  pub room : 128 ≤ rsp
  pub two : cur ≢ next
  pub stacks : (sp + 136 ≤ rsp) ⊎ (rsp + 128 ≤ sp)
  pub own : Clear cur rsp
  pub cur_clear : Clear cur sp
  pub next_clear : Clear next rsp

-- Control goes on as `f`, `back` and `sp` say, on a stack from which the return address is gone.
pub record Continues (f : ℕ → ℕ) (back sp : ℕ) (n : Machine) : Type 0 where
  pub registers : (q : ℕ) → has q saved ≡ true → n.regs q ≡ f q
  pub at : n.rip ≡ back
  pub stack : n.rsp ≡ sp + 8

-- `switch_to` from one coroutine to another that is suspended, the two of them apart, goes on with
-- the other's registers, flags and stack behind its call, and leaves the first one suspended with
-- the registers, flags and stack that it had at the call.
pub switch_to_lem :
    (m : Machine) (f : ℕ → ℕ) (back sp : ℕ)
    → Apart (m.regs rdi) (m.regs rsi) m.rsp sp
    → Suspended m.mem (m.regs rsi) f back sp
    → let n = run switch_to m in
      Continues f back sp n × Suspended n.mem (m.regs rdi) m.regs (m.mem m.rsp) m.rsp
switch_to_lem m f back sp a s =
    let left = run-leaving m a.room a.own in
    let n = run leaving m in
    let clear = a.next_clear in
    let apart = a.stacks in
    let own = a.cur_clear in
    let two = a.two in
    let next : Suspended n.mem (m.regs rsi) f back sp =
      Suspended-mem m.mem n.mem (m.regs rsi) f back sp
        (left.elsewhere (m.regs rsi + 8) (ground arith) (λ e. two (omega arith)))
        (λ j b t. left.elsewhere j (ground arith) (ground arith)) s in
    let (registers, at, stack, memory) =
      run-entering n f back sp (subst (λ r. Suspended n.mem r f back sp) (sym left.next) next) in
    rw (two_halves, run-append leaving entering m)
      (
        record { registers = registers; at = at; stack = stack },
        subst (λ mem. Suspended mem (m.regs rdi) m.regs (m.mem m.rsp) m.rsp) (sym memory)
            left.state,
      )

-- A coroutine that has called `switch_to`, and whose saved words are as that call left them, goes on
-- behind its call when another one switches back to it: with all its registers and flags, and on
-- its stack without the return address.
pub switch_to-switch_to :
    (m : Machine) (f : ℕ → ℕ) (back sp : ℕ) (later : Machine)
    → Apart (m.regs rdi) (m.regs rsi) m.rsp sp
    → Suspended m.mem (m.regs rsi) f back sp
    → later.regs rsi ≡ m.regs rdi
    → Apart (later.regs rdi) (later.regs rsi) later.rsp m.rsp
    → later.mem (m.regs rdi + 8) ≡ (run switch_to m).mem (m.regs rdi + 8)
    → ((j : ℕ) → m.rsp ≤ j + 128 → j ≤ m.rsp → later.mem j ≡ (run switch_to m).mem j)
    → Continues m.regs (m.mem m.rsp) m.rsp (run switch_to later)
switch_to-switch_to m f back sp later a s back_to b esp same =
    let kept =
      Suspended-mem (run switch_to m).mem later.mem (m.regs rdi) m.regs (m.mem m.rsp) m.rsp esp same
        (switch_to_lem m f back sp a s).1 in
    (switch_to_lem later m.regs (m.mem m.rsp) m.rsp b
      (subst (λ r. Suspended later.mem r m.regs (m.mem m.rsp) m.rsp) (sym back_to) kept)).0
