-- ===== src/Switch/Examples.antt =====
-- Switches between two coroutines at concrete addresses.
use libco_lite.Base.{ℕ, ◌+◌, ◌*◌, ◌-◌, ◌≡◌, refl, inl, inr, arith, update}
use libco_lite.Switch.{Machine, rsi, rdi, run, switch_to, stack_size, initial_frame}
use libco_lite.Switch.Transfer.{Suspended, Apart, Continues, switch_to_lem, switch_to-switch_to}
use libco_lite.Switch.Start.{initial_regs, initial_frame-Suspended, first_switch_lem}

-- The block at 10000 calls `switch_to` with the new block at 20000 as `next`.
abbrev calling : Machine
calling = record {
  regs = update (update (λ q. 40 + q) rdi 10000) rsi 20000;
  rsp = 5000;
  rip = 0;
  mem = initial_frame 20000 20100 77 (λ _. 9);
}

abbrev top : ℕ
top = 20100 + 8 * (stack_size - 2)

-- The new coroutine calls `switch_to` to go back.
abbrev returning : Machine
returning = record {
  regs = update (update (λ q. q) rdi 20000) rsi 10000;
  rsp = top + 8;
  rip = 0;
  mem = (run switch_to calling).mem;
}

there : Apart 10000 20000 5000 top
there = record {
  room = omega arith;
  two = λ e. absurd (omega arith);
  stacks = inr (omega arith);
  own = inr (omega arith);
  cur_clear = inl (omega arith);
  next_clear = inr (omega arith);
}

back : Apart 20000 10000 (top + 8) 5000
back = record {
  room = omega arith;
  two = λ e. absurd (omega arith);
  stacks = inl (omega arith);
  own = inl (omega arith);
  cur_clear = inr (omega arith);
  next_clear = inl (omega arith);
}

new : Suspended calling.mem 20000 (initial_regs 20000) 77 top
new = (initial_frame-Suspended 20000 20100 77 (λ _. 9) (omega arith)).0

switch_to_lem_example :
    let n = run switch_to calling in
    Continues (initial_regs 20000) 77 top n
    × Suspended n.mem 10000 calling.regs (calling.mem 5000) 5000
switch_to_lem_example = switch_to_lem calling (initial_regs 20000) 77 top there new

switch_to-switch_to_example :
    Continues calling.regs (calling.mem 5000) 5000 (run switch_to returning)
switch_to-switch_to_example =
    switch_to-switch_to calling (initial_regs 20000) 77 top returning there new refl back refl
      (λ j b t. refl)

first_switch_lem_example :
    let n = run switch_to calling in
    (n.rip ≡ 77)
    × (n.regs rdi ≡ 20000)
    × (n.rsp ≡ 20100 + 8 * (stack_size - 1))
    × (calling.mem n.rsp ≡ 100)
first_switch_lem_example =
    first_switch_lem calling 20100 77 (λ _. 9) (omega arith) there refl (λ j b. refl)
