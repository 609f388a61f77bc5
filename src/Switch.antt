-- ===== src/Switch.antt =====
-- src/switch.S for x86_64: the instructions of `switch_to` on a machine, and the stack frame that
-- `co_create` (src/coroutine.c) prepares for them. Registers go by their hardware numbers, with 16
-- for the flags and `rsp` apart; memory has one cell for each 8-byte word, at its byte address, and
-- all accesses are aligned.
pub mod Frame
pub mod Transfer
pub mod Start
pub mod I386
mod Examples
use libco_lite.Base.{ℕ, ◌+◌, ◌-◌, ◌*◌, List, [], ◌∷◌, update}

abbrev pub rax : ℕ
rax = 0

abbrev pub rcx : ℕ
rcx = 1

abbrev pub rdx : ℕ
rdx = 2

abbrev pub rbx : ℕ
rbx = 3

abbrev pub rbp : ℕ
rbp = 5

abbrev pub rsi : ℕ
rsi = 6

abbrev pub rdi : ℕ
rdi = 7

abbrev pub flags : ℕ
flags = 16

pub record Machine : Type 0 where
  pub regs : ℕ → ℕ
  pub rsp : ℕ
  pub rip : ℕ
  pub mem : ℕ → ℕ

pub data Instruction : Type 0 where
  -- `pushq %r` and `pushfq`
  pushq : ℕ → Instruction
  -- `popq %r` and `popfq`
  popq : ℕ → Instruction
  -- `movq %a, %b`
  movq : ℕ → ℕ → Instruction
  -- `movq %rsp, %b`
  movq_rsp : ℕ → Instruction
  -- `movq %rsp, d(%b)`
  store_rsp : ℕ → ℕ → Instruction
  -- `movq d(%b), %rsp`
  load_rsp : ℕ → ℕ → Instruction
  ret : Instruction

abbrev pub exec : Instruction → Machine → Machine
exec (pushq r) m = record m { rsp = m.rsp - 8; mem = update m.mem (m.rsp - 8) (m.regs r) }
exec (popq r) m = record m { regs = update m.regs r (m.mem m.rsp); rsp = m.rsp + 8 }
exec (movq a b) m = record m { regs = update m.regs b (m.regs a) }
exec (movq_rsp b) m = record m { regs = update m.regs b m.rsp }
exec (store_rsp d b) m = record m { mem = update m.mem (m.regs b + d) m.rsp }
exec (load_rsp d b) m = record m { rsp = m.mem (m.regs b + d) }
exec ret m = record m { rip = m.mem m.rsp; rsp = m.rsp + 8 }

unfoldable pub run : List Instruction → Machine → Machine
run [] m = m
run (i ∷ is) m = run is (exec i m)

-- The instructions between the label and the second `ret`.
unfoldable pub switch_to : List Instruction
switch_to =
    pushq rbp
    ∷ movq_rsp rbp
    ∷ pushq rdi
    ∷ pushq rsi
    ∷ pushq rbx
    ∷ pushq rdx
    ∷ pushq rcx
    ∷ pushq rax
    ∷ pushq flags
    ∷ pushq 8
    ∷ pushq 9
    ∷ pushq 10
    ∷ pushq 11
    ∷ pushq 12
    ∷ pushq 13
    ∷ pushq 14
    ∷ pushq 15
    ∷ movq rdi rax
    ∷ store_rsp 8 rax
    ∷ movq rsi rax
    ∷ load_rsp 8 rax
    ∷ popq 15
    ∷ popq 14
    ∷ popq 13
    ∷ popq 12
    ∷ popq 11
    ∷ popq 10
    ∷ popq 9
    ∷ popq 8
    ∷ popq flags
    ∷ popq rax
    ∷ popq rcx
    ∷ popq rdx
    ∷ popq rbx
    ∷ popq rsi
    ∷ popq rdi
    ∷ popq rbp
    ∷ ret
    ∷ []

-- STACK_SIZE, in words.
abbrev pub stack_size : ℕ
stack_size = 131072

-- `stack[i] = v`
abbrev pub put : (stack i v : ℕ) → (ℕ → ℕ) → ℕ → ℕ
put stack i v mem = update mem (stack + 8 * i) v

-- `tsk->esp` and the words of `tsk->stack` as `co_create` leaves them, for the block at address
-- `tsk` with its stack at `stack`.
unfoldable pub initial_frame : (tsk stack start : ℕ) → (ℕ → ℕ) → ℕ → ℕ
initial_frame tsk stack start mem = put stack (stack_size - 1) 100 (
    put stack (stack_size - 2) start (
      put stack (stack_size - 3) 0 (
        put stack (stack_size - 4) tsk (
          put stack (stack_size - 5) 2 (
            put stack (stack_size - 6) 3 (
              put stack (stack_size - 7) 4 (
                put stack (stack_size - 8) 5 (
                  put stack (stack_size - 9) 6 (
                    put stack (stack_size - 10) 7 (
                      put stack (stack_size - 11) 8 (
                        put stack (stack_size - 12) 9 (
                          put stack (stack_size - 13) 10 (
                            put stack (stack_size - 14) 11 (
                              put stack (stack_size - 15) 12 (
                                put stack (stack_size - 16) 13 (
                                  put stack (stack_size - 17) 14 (
                                    put stack (stack_size - 18) 15 (
                                      update mem (tsk + 8)
                                        (stack + 8 * (stack_size - 18))))))))))))))))))))
