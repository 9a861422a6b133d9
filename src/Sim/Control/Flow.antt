-- ===== src/Sim/Control/Flow.antt =====
-- isa/sim.c: proofs on jumps, calls and branches.
use estros.Common.{
  ℕ, ◌+◌, ◌-◌, ◌/◌, ◌%◌, ◌^◌, ◌<◌, ◌≡◌, ◌⊎◌, inl, inr, Bool, true, false, not, ◌&&◌, ◌||◌, test_bit,
  sext8, u32, arith, refl, update_self, lt→ltb, if◌then◌else◌, low4,
}
use mathlib.Core.Bool.{xor}
use estros.Isa.{xm_abi_ra, flags_bit_n, flags_bit_z, flags_bit_c}
use estros.Sim.State.{
  Sim, Inst, cpue_continue, add_pc, set_pc, set_r, count_jump, count_taken, count_miss,
}
use estros.Sim.Control.{apply_cc, branch_test, cpu_exec_call, cpu_exec_ret, cpu_exec_common_b}

-- `letter` is required if its bit of the code is set.
abbrev holds_if : Bool → Bool → Bool
holds_if required flag = not required || flag

-- The condition code as the README describes it: the test and each flag that is named, and `!` negates
-- the whole.
pub apply_cc-eq-xor :
    (flags code : ℕ) (test : Bool)
    → apply_cc flags code test
      ≡ xor (test_bit code 0) (
          test
          && holds_if (test_bit code 1) (test_bit flags flags_bit_n)
          && holds_if (test_bit code 2) (test_bit flags flags_bit_z)
          && holds_if (test_bit code 3) (test_bit flags flags_bit_c))
unfolding apply_cc xor
apply_cc-eq-xor flags code test = ground arith

xor_true : (y : Bool) → xor true y ≡ not (xor false y)
unfolding xor
xor_true true = refl
xor_true false = refl

-- The next odd code is the negation.
apply_cc-suc :
    (flags code : ℕ) (test : Bool)
    → test_bit code 0 ≡ false
    → apply_cc flags (code + 1) test ≡ not (apply_cc flags code test)
apply_cc-suc flags code test even =
    let even0 : code / 1 % 2 ≡ 0 = ground arith in
    let bit0 : (code + 1) / 1 % 2 ≡ 1 = omega arith in
    let bit1 : (code + 1) / 2 % 2 ≡ code / 2 % 2 = omega arith in
    let bit2 : (code + 1) / 4 % 2 ≡ code / 4 % 2 = omega arith in
    let bit3 : (code + 1) / 8 % 2 ≡ code / 8 % 2 = omega arith in
    rw (apply_cc-eq-xor flags (code + 1) test, apply_cc-eq-xor flags code test)
      (rw (bit0, bit1, bit2, bit3, even0) (xor_true _))

module _ {F : Type 0} where
  -- A call through one of the 16 registers jumps to its target and leaves the target's address plus 4 in `$ra`, so that a `ret` goes
  -- back to the second instruction of the callee, wherever the call stood.
  pub ret-call :
      (sim : Sim F) (id ret_id : Inst)
      → id.b1 < 16
      → (s t : Sim F) × (cpu_exec_call sim id ≡ cpue_continue s)
        × (s.cpu.pc ≡ u32 (sim.cpu.r (id.b1) + sext8 (id.b2)))
        × (cpu_exec_ret s ret_id ≡ cpue_continue t)
        × (t.cpu.pc ≡ u32 (s.cpu.pc + 4))
  unfolding cpu_exec_call cpu_exec_ret count_jump set_pc set_r
  ret-call sim id ret_id h =
      let called = set_pc sim (u32 (sim.cpu.r (id.b1) + sext8 (id.b2))) in
      let s = count_jump (set_r called xm_abi_ra (u32 (called.cpu.pc + 4))) in
      let t = count_jump (set_pc s (s.cpu.r xm_abi_ra)) in
      (s, t, rw (lt→ltb _ _ h), refl, refl, update_self _ xm_abi_ra _)

  abbrev branch_state : Sim F → (rela : ℕ) → Bool → Sim F
  branch_state sim rela cond =
      if cond then count_taken (add_pc sim rela) else count_miss (add_pc sim 4)

  opposite :
      (sim : Sim F) (rela : ℕ) (cond : Bool)
      → (((branch_state sim rela cond).cpu.pc ≡ u32 (sim.cpu.pc + rela))
          × ((branch_state sim rela (not cond)).cpu.pc ≡ u32 (sim.cpu.pc + 4)))
        ⊎ (((branch_state sim rela cond).cpu.pc ≡ u32 (sim.cpu.pc + 4))
            × ((branch_state sim rela (not cond)).cpu.pc ≡ u32 (sim.cpu.pc + rela)))
  unfolding add_pc count_taken count_miss
  opposite sim rela true = inl (refl, refl)
  opposite sim rela false = inr (refl, refl)

  -- A branch whose condition code has no `!` goes to its target or to the next instruction, and the
  -- same branch with `!` to the other one of the two.
  pub branch_complement :
      (sim : Sim F) (b0 b1 b2 b3 : ℕ)
      → test_bit (b1 / 16) 0 ≡ false
      → (s t : Sim F) × (cpu_exec_common_b sim (record { b0 = b0; b1 = b1; b2 = b2; b3 = b3 })
          ≡ cpue_continue s)
        × (cpu_exec_common_b sim (record { b0 = b0; b1 = b1 + 16; b2 = b2; b3 = b3 })
            ≡ cpue_continue t)
        × ((s.cpu.pc ≡ u32 (sim.cpu.pc + sext8 b2)) × (t.cpu.pc ≡ u32 (sim.cpu.pc + 4))
            ⊎ (s.cpu.pc ≡ u32 (sim.cpu.pc + 4)) × (t.cpu.pc ≡ u32 (sim.cpu.pc + sext8 b2)))
  branch_complement sim b0 b1 b2 b3 even =
      let rela = sext8 b2 in
      let test = branch_test sim ((b3 + 2 ^ 32 - 0x50) % 16) (low4 b1) rela in
      let cond = apply_cc (sim.cpu.flags) (b1 / 16) test in
      (
        branch_state sim rela cond,
        branch_state sim rela (not cond),
        unfold cpu_exec_common_b in refl,
        second,
        opposite sim rela cond,
      )
    where
      next_code : (b1 + 16) / 16 ≡ b1 / 16 + 1
      next_code = omega arith

      same_register : (b1 + 16) % 16 ≡ b1 % 16
      same_register = omega arith

      second :
          cpu_exec_common_b sim (record { b0 = b0; b1 = b1 + 16; b2 = b2; b3 = b3 })
          ≡ cpue_continue (
              branch_state sim (sext8 b2) (
                not (
                  apply_cc
                    (sim.cpu.flags)
                    (b1 / 16)
                    (branch_test sim ((b3 + 2 ^ 32 - 0x50) % 16) (low4 b1) (sext8 b2)))))
      second =
          unfold cpu_exec_common_b in
          rw (next_code, same_register, apply_cc-suc (sim.cpu.flags) (b1 / 16) _ even) refl
