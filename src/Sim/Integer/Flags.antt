-- ===== src/Sim/Integer/Flags.antt =====
-- isa/sim.c: proofs on the flags and registers that the integer instructions leave.
use estros.Common.{
  ℕ, ◌+◌, ◌/◌, ◌%◌, ◌^◌, ◌<◌, ◌≡◌, ◌≢◌, refl, false, test_bit, is_negative, ◌==◌, u32, arith,
  update_self, update-ne,
}
use estros.Common.Bits.{bit_and-zero}
use estros.Isa.{flags_bit_n, flags_bit_z, flags_bit_c}
use estros.Sim.State.{Sim, Inst, Outcome, cpue_continue, set_r, set_flags, add_pc}
use estros.Sim.Word.{cpu_i_add32}
use estros.Sim.Integer.{update_flags, alu_result, cpu_exec_cmp, cpu_exec_cmpkp}

-- The state after an arithmetic instruction whose result is `value`.
pub record IsAluResult {F : Type 0} (sim : Sim F) (dp value : ℕ) (result : Outcome F) : Type 0 where
  pub after : Sim F
  pub returns : result ≡ cpue_continue after
  pub pc : after.cpu.pc ≡ u32 (sim.cpu.pc + 4)
  pub destination : after.cpu.r dp ≡ value
  pub others : (i : ℕ) → i ≢ dp → after.cpu.r i ≡ sim.cpu.r i
  pub negative : test_bit (after.cpu.flags) flags_bit_n ≡ is_negative value
  pub zero_flag : test_bit (after.cpu.flags) flags_bit_z ≡ (value == 0)
  pub other_flags : after.cpu.flags / 4 ≡ sim.cpu.flags / 4

module _ {F : Type 0} where
  -- An arithmetic instruction stores its value in the destination and in no other register, moves on
  -- by four bytes, sets the flags N and Z as the value says and keeps the other flags.
  pub alu_result-IsAluResult :
      (sim : Sim F) (dp value : ℕ) → IsAluResult sim dp value (alu_result sim dp value)
  unfolding alu_result update_flags set_flags add_pc set_r
  alu_result-IsAluResult sim dp value = record {
    after = add_pc (update_flags (set_r sim dp value) ((set_r sim dp value).cpu.r dp)) 4;
    returns = refl;
    pc = refl;
    destination = update_self (sim.cpu.r) dp value;
    others = λ i ne. update-ne (sim.cpu.r) dp value i ne;
    negative = rw (update_self (sim.cpu.r) dp value) (ground arith);
    zero_flag = rw (update_self (sim.cpu.r) dp value) (ground arith);
    other_flags = rw (update_self (sim.cpu.r) dp value) (ground arith);
  }

  -- The addition of cmp, on operands of 32 bits, returns the sum modulo 2^32, leaves FLAGS_BIT_C clear whether or not the sum
  -- exceeds 32 bits, and keeps the other flags.
  pub cpu_i_add32_lem :
      (sim : Sim F) (a b : ℕ)
      → a < 2 ^ 32
      → b < 2 ^ 32
      → ((cpu_i_add32 sim a b).0 ≡ u32 (a + b))
        × (test_bit ((cpu_i_add32 sim a b).1.cpu.flags) flags_bit_c ≡ false)
        × ((cpu_i_add32 sim a b).1.cpu.flags % 4 ≡ sim.cpu.flags % 4)
        × ((cpu_i_add32 sim a b).1.cpu.flags / 8 ≡ sim.cpu.flags / 8)
  unfolding cpu_i_add32 set_flags
  cpu_i_add32_lem sim a b h k =
      rw bit_and-zero (omega arith, ground arith, ground arith, ground arith)

  -- cmp leaves FLAGS_BIT_C clear, for all operands; cmpkp stores the same flags in the same register
  -- and moves on likewise, but keeps the state's flags.
  pub cmp-cmpkp :
      (sim : Sim F) (id : Inst)
      → (s t : Sim F) × (cpu_exec_cmp sim id ≡ cpue_continue s)
        × (cpu_exec_cmpkp sim id ≡ cpue_continue t)
        × (test_bit (s.cpu.flags) flags_bit_c ≡ false)
        × (t.cpu.r ≡ s.cpu.r)
        × (t.cpu.pc ≡ s.cpu.pc)
        × (t.cpu.flags ≡ sim.cpu.flags)
  unfolding cpu_exec_cmp cpu_exec_cmpkp cpu_i_add32 set_flags set_r add_pc update_flags
  cmp-cmpkp sim id = (_, _, refl, refl, rw bit_and-zero (ground arith), refl, refl, refl)
