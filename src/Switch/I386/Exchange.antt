-- ===== src/Switch/I386/Exchange.antt =====
-- What `switch_to` does on i386 (src/switch.S): where it goes on, and with which registers.
use libco_lite.Base.{ℕ, ◌+◌, ◌-◌, ◌≤◌, ◌<◌, ◌≡◌, ◌≢◌, ◌⊎◌, refl, sym, ap, ◌∙◌, arith, subst, update}
use libco_lite.Switch.{Machine, flags}
use libco_lite.Switch.I386.{eax, ecx, edx, ebx, ebp, esi, edi, run, leave, enter, switch_to}

-- The words of a suspended coroutine, 32 bytes below `sp`, where its return address stands.
pub record Saved (mem : ℕ → ℕ) (tsk : ℕ) (f : ℕ → ℕ) (back sp : ℕ) : Type 0 where
  pub esp : mem (tsk + 8) + 32 ≡ sp
  pub flags_word : mem (sp - 32) ≡ f flags
  pub eax_word : mem (sp - 28) ≡ f eax
  pub ecx_word : mem (sp - 24) ≡ f ecx
  pub edx_word : mem (sp - 20) ≡ f edx
  pub ebx_word : mem (sp - 16) ≡ f ebx
  pub esi_word : mem (sp - 12) ≡ f esi
  pub edi_word : mem (sp - 8) ≡ f edi
  pub ebp_word : mem (sp - 4) ≡ f ebp
  pub address : mem sp ≡ back

-- The word where the `esp` of the block at `cur` is saved is none of the stack's words in use: the
-- saved ones, the return address and three words above it.
abbrev pub Clear : (cur sp : ℕ) → Type 0
Clear cur sp = (cur + 12 + 32 ≤ sp) ⊎ (sp + 16 ≤ cur + 8)

-- The memory behind the pushes.
abbrev stacked : Machine → ℕ → ℕ
stacked m =
    (update
      (update
        (update
          (update
            (update
              (update (update (update m.mem (m.rsp - 4) (m.regs ebp)) (m.rsp - 4 - 4) (m.regs edi))
                (m.rsp - 4 - 4 - 4) (m.regs esi))
              (m.rsp - 4 - 4 - 4 - 4) (m.regs ebx))
            (m.rsp - 4 - 4 - 4 - 4 - 4) (m.regs edx))
          (m.rsp - 4 - 4 - 4 - 4 - 4 - 4) (m.regs ecx))
        (m.rsp - 4 - 4 - 4 - 4 - 4 - 4 - 4) (m.regs eax))
      (m.rsp - 4 - 4 - 4 - 4 - 4 - 4 - 4 - 4) (m.regs flags))

-- And behind the first half, which saves `esp` in the block of the first argument.
abbrev left : Machine → ℕ → ℕ
left m = update (stacked m) (m.mem (m.rsp + 4) + 8) (m.rsp - 4 - 4 - 4 - 4 - 4 - 4 - 4 - 4)

-- The first argument is read from 8(%ebp).
first_argument : (m : Machine) → 32 ≤ m.rsp → stacked m (m.rsp - 4 + 8) ≡ m.mem (m.rsp + 4)
first_argument m h = ground arith

-- The word at 16(%ebp) is the one above the second argument.
third_word :
    (m : Machine)
    → 32 ≤ m.rsp
    → Clear (m.mem (m.rsp + 4)) m.rsp
    → left m (m.rsp - 4 + 16) ≡ m.mem (m.rsp + 12)
third_word m h clear = ground arith

run-leave :
    (m : Machine)
    → 32 ≤ m.rsp
    → Clear (m.mem (m.rsp + 4)) m.rsp
    → ((run leave m).mem ≡ left m) × ((run leave m).rsp ≡ left m (m.mem (m.rsp + 12) + 8))
unfolding leave
run-leave m h clear = rw (first_argument m h) (refl, rw (third_word m h clear))

left-Saved :
    (m : Machine)
    → 32 ≤ m.rsp
    → Clear (m.mem (m.rsp + 4)) m.rsp
    → Saved (left m) (m.mem (m.rsp + 4)) m.regs (m.mem m.rsp) m.rsp
left-Saved m h clear = record {
  esp = ground arith;
  flags_word = ground arith;
  eax_word = ground arith;
  ecx_word = ground arith;
  edx_word = ground arith;
  ebx_word = ground arith;
  esi_word = ground arith;
  edi_word = ground arith;
  ebp_word = ground arith;
  address = ground arith;
}

-- Control goes on as `f`, `back` and `sp` say, with ecx and edx exchanged, on a stack from which the
-- return address is gone.
pub record ContinuesExchanged (f : ℕ → ℕ) (back sp : ℕ) (n : Machine) : Type 0 where
  pub flags_is : n.regs flags ≡ f flags
  pub eax_is : n.regs eax ≡ f eax
  pub ecx_is : n.regs ecx ≡ f edx
  pub edx_is : n.regs edx ≡ f ecx
  pub ebx_is : n.regs ebx ≡ f ebx
  pub esi_is : n.regs esi ≡ f esi
  pub edi_is : n.regs edi ≡ f edi
  pub ebp_is : n.regs ebp ≡ f ebp
  pub at : n.rip ≡ back
  pub stack : n.rsp ≡ sp + 4

run-enter :
    (m : Machine) (tsk : ℕ) (f : ℕ → ℕ) (back sp : ℕ)
    → Saved m.mem tsk f back sp
    → m.rsp ≡ m.mem (tsk + 8)
    → ContinuesExchanged f back sp (run enter m) × ((run enter m).mem ≡ m.mem)
unfolding enter
run-enter m tsk f back sp s e =
    let low : m.rsp + 32 ≡ sp = ap (λ x. x + 32) e ∙ s.esp in
    (
      record {
        flags_is = ap m.mem (omega arith) ∙ s.flags_word;
        eax_is = ap m.mem (omega arith) ∙ s.eax_word;
        edx_is = ap m.mem (omega arith) ∙ s.ecx_word;
        ecx_is = ap m.mem (omega arith) ∙ s.edx_word;
        ebx_is = ap m.mem (omega arith) ∙ s.ebx_word;
        esi_is = ap m.mem (omega arith) ∙ s.esi_word;
        edi_is = ap m.mem (omega arith) ∙ s.edi_word;
        ebp_is = ap m.mem (omega arith) ∙ s.ebp_word;
        at = ap m.mem (omega arith) ∙ s.address;
        stack = omega arith;
      },
      refl,
    )

-- The stacks and blocks of the two coroutines are apart: the saved words of `next`, which end at
-- `sp`, and its block are none of the words that a call of `switch_to` writes.
pub record Apart (cur next rsp sp : ℕ) : Type 0 where
  pub room : 32 ≤ rsp
  pub saved_room : 32 ≤ sp
  pub own : Clear cur rsp
  pub two : cur ≢ next
  pub stacks : (sp + 36 ≤ rsp) ⊎ (rsp + 32 ≤ sp)
  pub cur_clear : (cur + 12 + 32 ≤ sp) ⊎ (sp < cur + 8)
  pub next_clear : (next + 12 + 32 ≤ rsp) ⊎ (rsp ≤ next + 8)

-- Where the first half writes nothing.
left-elsewhere :
    (m : Machine) (j : ℕ)
    → 32 ≤ m.rsp
    → (j + 32 < m.rsp) ⊎ (m.rsp ≤ j)
    → m.mem (m.rsp + 4) + 8 ≢ j
    → left m j ≡ m.mem j
left-elsewhere m j h o far = ground arith

pub Saved-mem :
    (mem mem' : ℕ → ℕ) (tsk : ℕ) (f : ℕ → ℕ) (back sp : ℕ)
    → 32 ≤ sp
    → mem' (tsk + 8) ≡ mem (tsk + 8)
    → ((j : ℕ) → sp ≤ j + 32 → j ≤ sp → mem' j ≡ mem j)
    → Saved mem tsk f back sp
    → Saved mem' tsk f back sp
Saved-mem mem mem' tsk f back sp room block same s =
    let at = λ (d : ℕ) (small : d ≤ 32). same (sp - d) (omega arith) (omega arith) in
    record {
      esp = omega (arith, block, s.esp);
      flags_word = at 32 (omega arith) ∙ s.flags_word;
      eax_word = at 28 (omega arith) ∙ s.eax_word;
      ecx_word = at 24 (omega arith) ∙ s.ecx_word;
      edx_word = at 20 (omega arith) ∙ s.edx_word;
      ebx_word = at 16 (omega arith) ∙ s.ebx_word;
      esi_word = at 12 (omega arith) ∙ s.esi_word;
      edi_word = at 8 (omega arith) ∙ s.edi_word;
      ebp_word = at 4 (omega arith) ∙ s.ebp_word;
      address = same sp (omega arith) (omega arith) ∙ s.address;
    }

left-kept :
    (m : Machine) (f : ℕ → ℕ) (back sp : ℕ)
    → Apart (m.mem (m.rsp + 4)) (m.mem (m.rsp + 12)) m.rsp sp
    → Saved m.mem (m.mem (m.rsp + 12)) f back sp
    → Saved (left m) (m.mem (m.rsp + 12)) f back sp
left-kept m f back sp a s =
    let room = a.room in
    let stacks = a.stacks in
    let clear = a.cur_clear in
    let next_clear = a.next_clear in
    let two = a.two in
    let next = m.mem (m.rsp + 12) in
    Saved-mem m.mem (left m) next f back sp a.saved_room
      (left-elsewhere m (next + 8) room (ground arith) (λ e. two (omega arith)))
      (λ j x y. left-elsewhere m j room (ground arith) (ground arith)) s

-- The i386 `switch_to`, when the word above its second argument is a block that is suspended and
-- apart from the first argument's: whatever the second argument is, it goes on with that block, behind
-- its call and with its stack, flags and registers but that ecx and edx are exchanged; the caller is
-- left suspended with its own.
pub switch_to-exchanged :
    (m : Machine) (f : ℕ → ℕ) (back sp : ℕ)
    → Apart (m.mem (m.rsp + 4)) (m.mem (m.rsp + 12)) m.rsp sp
    → Saved m.mem (m.mem (m.rsp + 12)) f back sp
    → ContinuesExchanged f back sp (switch_to m)
      × Saved (switch_to m).mem (m.mem (m.rsp + 4)) m.regs (m.mem m.rsp) m.rsp
unfolding switch_to
switch_to-exchanged m f back sp a s =
    let n = run leave m in
    let next = m.mem (m.rsp + 12) in
    let (memory, top) = run-leave m a.room a.own in
    let kept : Saved (left m) next f back sp = left-kept m f back sp a s in
    let (goes, same) =
      run-enter n next f back sp (subst (λ mem. Saved mem next f back sp) (sym memory) kept)
        (top ∙ ap (λ (g : ℕ → ℕ). g (next + 8)) (sym memory)) in
    (
      goes,
      subst (λ mem. Saved mem (m.mem (m.rsp + 4)) m.regs (m.mem m.rsp) m.rsp) (sym (same ∙ memory))
          (left-Saved m a.room a.own),
    )
