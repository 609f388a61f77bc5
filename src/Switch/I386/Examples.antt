-- ===== src/Switch/I386/Examples.antt =====
-- A switch on i386 at concrete addresses.
use libco_lite.Base.{ℕ, ◌+◌, ◌*◌, ◌-◌, refl, inl, inr, arith, update}
use libco_lite.Switch.{Machine, stack_size}
use libco_lite.Switch.I386.{switch_to, initial_frame}
use libco_lite.Switch.I386.Exchange.{Saved, Apart, ContinuesExchanged, switch_to-exchanged}
use libco_lite.Switch.I386.First.{initial_regs}

-- The block at 10000 calls `switch_to` with a block at 30000; the word above is the new block 20000.
abbrev calling : Machine
calling = record {
  regs = λ q. 40 + q;
  rsp = 5000;
  rip = 0;
  mem =
      update (update (update (initial_frame 20000 20100 77 (λ _. 9)) 5004 10000) 5008 30000) 5012
        20000;
}

abbrev top : ℕ
top = 20100 + 4 * (stack_size - 3)

there : Apart 10000 20000 5000 top
there = record {
  room = omega arith;
  saved_room = omega arith;
  own = inr (omega arith);
  two = λ e. absurd (omega arith);
  stacks = inr (omega arith);
  cur_clear = inl (omega arith);
  next_clear = inr (omega arith);
}

new : Saved calling.mem 20000 initial_regs 77 top
unfolding initial_frame
new = record {
  esp = refl;
  flags_word = refl;
  eax_word = refl;
  ecx_word = refl;
  edx_word = refl;
  ebx_word = refl;
  esi_word = refl;
  edi_word = refl;
  ebp_word = refl;
  address = refl;
}

switch_to-exchanged_example :
    ContinuesExchanged initial_regs 77 top (switch_to calling)
    × Saved (switch_to calling).mem 10000 calling.regs (calling.mem 5000) 5000
switch_to-exchanged_example = switch_to-exchanged calling initial_regs 77 top there new
