-- ===== src/Switch/I386.antt =====
-- src/switch.S for i386, and the stack frame that `co_create` (src/coroutine.c) prepares for it.
-- The machine is that of `Switch`, with `rsp` for `esp`, 4-byte words, and arguments on the stack.
pub mod Exchange
pub mod First
mod Examples
use libco_lite.Base.{ℕ, ◌+◌, ◌-◌, ◌*◌, List, [], ◌∷◌, update}
use libco_lite.Switch.{Machine, flags, stack_size}

abbrev pub eax : ℕ
eax = 0

abbrev pub ecx : ℕ
ecx = 1

abbrev pub edx : ℕ
edx = 2

abbrev pub ebx : ℕ
ebx = 3

abbrev pub ebp : ℕ
ebp = 5

abbrev pub esi : ℕ
esi = 6

abbrev pub edi : ℕ
edi = 7

pub data Instruction : Type 0 where
  -- `pushl %r` and `pushfl`
  pushl : ℕ → Instruction
  -- `popl %r` and `popfl`
  popl : ℕ → Instruction
  -- `movl %esp, %b`
  movl_esp : ℕ → Instruction
  -- `movl d(%a), %b`
  load : (d a b : ℕ) → Instruction
  -- `movl %esp, d(%b)`
  store_esp : (d b : ℕ) → Instruction
  -- `movl d(%b), %esp`
  load_esp : (d b : ℕ) → Instruction
  ret : Instruction

abbrev pub exec : Instruction → Machine → Machine
exec (pushl r) m = record m { rsp = m.rsp - 4; mem = update m.mem (m.rsp - 4) (m.regs r) }
exec (popl r) m = record m { regs = update m.regs r (m.mem m.rsp); rsp = m.rsp + 4 }
exec (movl_esp b) m = record m { regs = update m.regs b m.rsp }
exec (load d a b) m = record m { regs = update m.regs b (m.mem (m.regs a + d)) }
exec (store_esp d b) m = record m { mem = update m.mem (m.regs b + d) m.rsp }
exec (load_esp d b) m = record m { rsp = m.mem (m.regs b + d) }
exec ret m = record m { rip = m.mem m.rsp; rsp = m.rsp + 4 }

abbrev pub run : List Instruction → Machine → Machine
run [] m = m
run (i ∷ is) m = run is (exec i m)

-- The instructions up to the change of stacks.
unfoldable pub leave : List Instruction
leave =
    pushl ebp
    ∷ movl_esp ebp
    ∷ pushl edi
    ∷ pushl esi
    ∷ pushl ebx
    ∷ pushl edx
    ∷ pushl ecx
    ∷ pushl eax
    ∷ pushl flags
    ∷ load 8 ebp eax
    ∷ store_esp 8 eax
    ∷ load 16 ebp eax
    ∷ load_esp 8 eax
    ∷ []

-- And those after it.
unfoldable pub enter : List Instruction
enter =
    popl flags
    ∷ popl eax
    ∷ popl edx
    ∷ popl ecx
    ∷ popl ebx
    ∷ popl esi
    ∷ popl edi
    ∷ popl ebp
    ∷ ret
    ∷ []

unfoldable pub switch_to : Machine → Machine
unfolding leave enter
switch_to m = run enter (run leave m)

-- `stack[i] = v`
abbrev pub put : (stack i v : ℕ) → (ℕ → ℕ) → ℕ → ℕ
put stack i v mem = update mem (stack + 4 * i) v

-- `tsk->esp` and the words of `tsk->stack` as `co_create` leaves them.
unfoldable pub initial_frame : (tsk stack start : ℕ) → (ℕ → ℕ) → ℕ → ℕ
initial_frame tsk stack start mem = put stack (stack_size - 1) tsk (
    put stack (stack_size - 2) 100 (
      put stack (stack_size - 3) start (
        put stack (stack_size - 4) 0 (
          put stack (stack_size - 5) 1 (
            put stack (stack_size - 6) 2 (
              put stack (stack_size - 7) 3 (
                put stack (stack_size - 8) 4 (
                  put stack (stack_size - 9) 5 (
                    put stack (stack_size - 10) 6 (
                      put stack (stack_size - 11) 7
                        (update mem (tsk + 8) (stack + 4 * (stack_size - 11)))))))))))))
