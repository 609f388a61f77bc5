-- ===== src/Switch/Start.antt =====
-- The first switch to a coroutine that `co_create` has made (src/coroutine.c, src/switch.S).
use libco_lite.Base.{ℕ, ◌+◌, ◌-◌, ◌*◌, ◌≤◌, ◌≡◌, refl, ◌∙◌, if◌then◌else◌, arith, ◌==◌}
use libco_lite.Switch.{
  Machine, rax, rcx, rdx, rbx, rbp, rsi, rdi, flags, run, switch_to, stack_size, initial_frame,
}
use libco_lite.Switch.Transfer.{Suspended, Suspended-mem, Apart, switch_to_lem}

-- What `co_create` lets the registers be.
abbrev pub initial_regs : (tsk q : ℕ) → ℕ
initial_regs tsk q =
    if q == rbp
    then 0
    else (if q == rdi
        then tsk
        else (if q == rsi
            then 2
            else (if q == rbx
                then 3
                else (if q == rdx
                    then 4
                    else (if q == rcx
                        then 5
                        else (if q == rax then 6 else (if q == flags then 7 else q)))))))

-- The frame that `co_create` builds is that of a coroutine suspended at the entry of `start`, with
-- the block as its argument and 100 as the return address of `start`, whatever else is in memory.
pub initial_frame-Suspended :
    (tsk stack start : ℕ) (mem : ℕ → ℕ)
    → tsk + 16 ≤ stack
    → let frame = initial_frame tsk stack start mem in
      Suspended frame tsk (initial_regs tsk) start (stack + 8 * (stack_size - 2))
      × (frame (stack + 8 * (stack_size - 1)) ≡ 100)
unfolding initial_frame
initial_frame-Suspended tsk stack start mem h = (
  record {
    esp = ground arith;
    frame = (
      ground arith,
      (
        ground arith,
        (
          ground arith,
          (
            ground arith,
            (
              ground arith,
              (
                ground arith,
                (
                  ground arith,
                  (
                    ground arith,
                    (
                      ground arith,
                      (
                        ground arith,
                        (
                          ground arith,
                          (
                            ground arith,
                            (ground arith, (ground arith, (ground arith, (ground arith, tt)))),
                          ),
                        ),
                      ),
                    ),
                  ),
                ),
              ),
            ),
          ),
        ),
      ),
    );
    address = ground arith;
  },
  ground arith,
)

-- The first switch to a new coroutine, whose block and stack are as `co_create` left them, enters
-- `start` with the block as its argument and with 100 as the return address.
pub first_switch_lem :
    (m : Machine) (stack start : ℕ) (mem : ℕ → ℕ)
    → m.regs rsi + 16 ≤ stack
    → Apart (m.regs rdi) (m.regs rsi) m.rsp (stack + 8 * (stack_size - 2))
    → m.mem (m.regs rsi + 8) ≡ initial_frame (m.regs rsi) stack start mem (m.regs rsi + 8)
    → ((j : ℕ) → stack ≤ j → m.mem j ≡ initial_frame (m.regs rsi) stack start mem j)
    → let n = run switch_to m in
      (n.rip ≡ start)
      × (n.regs rdi ≡ m.regs rsi)
      × (n.rsp ≡ stack + 8 * (stack_size - 1))
      × (m.mem n.rsp ≡ 100)
first_switch_lem m stack start mem h a esp same =
    let tsk = m.regs rsi in
    let sp = stack + 8 * (stack_size - 2) in
    let (fresh, bottom) = initial_frame-Suspended tsk stack start mem h in
    let s =
      Suspended-mem (initial_frame tsk stack start mem) m.mem tsk (initial_regs tsk) start sp esp
        (λ j b t. same j (omega arith)) fresh in
    let goes = (switch_to_lem m (initial_regs tsk) start sp a s).0 in
    let top : (run switch_to m).rsp ≡ stack + 8 * (stack_size - 1) = omega (arith, goes.stack) in
    (
      goes.at,
      goes.registers rdi refl,
      top,
      rw top (same (stack + 8 * (stack_size - 1)) (omega arith) ∙ bottom),
    )
