-- ===== src/Switch/I386/First.antt =====
-- The first switch to a new coroutine on i386 (src/switch.S, and `co_create` of src/coroutine.c).
use libco_lite.Base.{ℕ, ◌+◌, ◌-◌, ◌*◌, ◌≤◌, ◌≡◌, ◌∙◌, sym, ap, subst, arith, if◌then◌else◌, ◌==◌}
use libco_lite.Switch.{Machine, stack_size, flags}
use libco_lite.Switch.I386.{eax, ecx, edx, ebx, esi, edi, switch_to, initial_frame}
use libco_lite.Switch.I386.Exchange.{Saved, Saved-mem, Apart, switch_to-exchanged}

-- The values that `co_create` writes for the registers.
abbrev pub initial_regs : ℕ → ℕ
initial_regs r =
    if r == flags
    then 7
    else (if r == eax
        then 6
        else (if r == ecx
            then 5
            else (if r == edx
                then 4
                else (if r == ebx
                    then 3
                    else (if r == esi then 2 else (if r == edi then 1 else 0))))))

pub initial_frame-Saved :
    (tsk stack start : ℕ) (mem : ℕ → ℕ)
    → tsk + 12 ≤ stack
    → let frame = initial_frame tsk stack start mem in
      Saved frame tsk initial_regs start (stack + 4 * (stack_size - 3))
      × (frame (stack + 4 * (stack_size - 2)) ≡ 100)
      × (frame (stack + 4 * (stack_size - 1)) ≡ tsk)
unfolding initial_frame
initial_frame-Saved tsk stack start mem h = (
  record {
    esp = ground arith;
    flags_word = ground arith;
    eax_word = ground arith;
    ecx_word = ground arith;
    edx_word = ground arith;
    ebx_word = ground arith;
    esi_word = ground arith;
    edi_word = ground arith;
    ebp_word = ground arith;
    address = ground arith;
  },
  ground arith,
  ground arith,
)

-- On i386, when the word above the second argument of `switch_to` is a block that is as `co_create`
-- left it, and apart from the first argument's, the switch enters `start`, with 100 as the return
-- address and the block as the argument above it.
pub first_switch-enters :
    (m : Machine) (tsk stack start : ℕ) (mem : ℕ → ℕ)
    → tsk + 12 ≤ stack
    → m.mem (m.rsp + 12) ≡ tsk
    → Apart (m.mem (m.rsp + 4)) tsk m.rsp (stack + 4 * (stack_size - 3))
    → m.mem (tsk + 8) ≡ initial_frame tsk stack start mem (tsk + 8)
    → ((j : ℕ) → stack ≤ j → m.mem j ≡ initial_frame tsk stack start mem j)
    → let n = switch_to m in
      (n.rip ≡ start)
      × (n.rsp ≡ stack + 4 * (stack_size - 2))
      × (m.mem n.rsp ≡ 100)
      × (m.mem (n.rsp + 4) ≡ tsk)
first_switch-enters m tsk stack start mem h word a esp same =
    let sp = stack + 4 * (stack_size - 3) in
    let (fresh, hundred, argument) = initial_frame-Saved tsk stack start mem h in
    let s =
      Saved-mem (initial_frame tsk stack start mem) m.mem tsk initial_regs start sp (omega arith)
        esp (λ j x y. same j (omega arith)) fresh in
    let (goes, left) =
      switch_to-exchanged m initial_regs start sp
        (subst (λ k. Apart (m.mem (m.rsp + 4)) k m.rsp sp) (sym word) a)
        (subst (λ k. Saved m.mem k initial_regs start sp) (sym word) s) in
    let top : (switch_to m).rsp ≡ stack + 4 * (stack_size - 2) = omega (arith, goes.stack) in
    let above : (switch_to m).rsp + 4 ≡ stack + 4 * (stack_size - 1) = omega arith in
    (
      goes.at,
      top,
      ap m.mem top ∙ same (stack + 4 * (stack_size - 2)) (omega arith) ∙ hundred,
      ap m.mem above ∙ same (stack + 4 * (stack_size - 1)) (omega arith) ∙ argument,
    )
