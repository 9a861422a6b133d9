-- ===== src/Sim/Control.antt =====
-- isa/sim.c, lines 946 to 1021: jumps, calls, branches and halt.
pub mod Flow
use estros.Common.{
  ℕ, ◌+◌, ◌-◌, ◌*◌, ◌/◌, ◌%◌, ◌^◌, Bool, true, not, ◌&&◌, bit_or, u32, low4, sext8, sext16,
  test_bit, ltb, ◌==◌, if◌then◌else◌,
}
use estros.Isa.{flags_bit_n, flags_bit_z, flags_bit_c, xm_abi_ra}
use estros.Sim.State.{
  Sim, Inst, Outcome, cpue_continue, cpue_halt, undefined, set_pc, set_r, add_pc, count_jump,
  count_taken, count_miss,
}

-- `(int32_t)x > n`.
abbrev signed_above : ℕ → ℕ → Bool
signed_above x n = ltb n x && ltb x (2 ^ 31)

-- The four lines that fold the flags into the condition; `code` is `id[1] >> 4`.
unfoldable pub apply_cc : (flags code : ℕ) → Bool → Bool
apply_cc flags code cond =
    let with_n = if test_bit code 1 then cond && test_bit flags flags_bit_n else cond in
    let with_z = if test_bit code 2 then with_n && test_bit flags flags_bit_z else with_n in
    let with_c = if test_bit code 3 then with_z && test_bit flags flags_bit_c else with_z in
    if test_bit code 0 then not with_c else with_c

module _ {F : Type 0} where
  unfoldable pub cpu_exec_jmp : Sim F → Inst → Outcome F
  cpu_exec_jmp sim id = cpue_continue (count_jump (set_pc sim (bit_or (id.b1 * 2 ^ 8) (id.b2))))

  unfoldable pub cpu_exec_jmprel : Sim F → Inst → Outcome F
  cpu_exec_jmprel sim id =
      cpue_continue (count_jump (add_pc sim (sext16 (bit_or (id.b1 * 2 ^ 8) (id.b2)))))

  -- `ra` is the whole byte: from 16 on, `sim->cpu.r[ra]` lies outside the register file.
  unfoldable pub cpu_exec_call : Sim F → Inst → Outcome F
  cpu_exec_call sim id =
      let ra = id.b1 in
      let called = set_pc sim (u32 (sim.cpu.r ra + sext8 (id.b2))) in
      if ltb ra 16
      then cpue_continue (count_jump (set_r called xm_abi_ra (u32 (called.cpu.pc + 4))))
      else undefined

  unfoldable pub cpu_exec_ret : Sim F → Inst → Outcome F
  cpu_exec_ret sim id = cpue_continue (count_jump (set_pc sim (sim.cpu.r xm_abi_ra)))

  -- The switch of cpu_exec_common_b, on `(id[3] - 0x50) & 0x0f`.
  unfoldable pub branch_test : Sim F → (kind ra rela : ℕ) → Bool
  branch_test sim kind ra rela =
      let x = sim.cpu.r ra in
      if kind == 0
      then x == 0
      else if kind == 1
      then true
      else if kind == 2
      then signed_above x 0
      else if kind == 3
      then ltb (sim.cpu.pc) x
      else if kind == 4
      then ltb (u32 (sim.cpu.pc + rela)) x
      else if kind == 5
      then x == 1
      else if kind == 6
      then signed_above x 1
      else if kind == 7
      then x == 0xffff_ffff
      else x == sim.cpu.r (kind - 8)

  -- The case 8 + k compares with `$tk`, whose register number is k.
  unfoldable pub cpu_exec_common_b : Sim F → Inst → Outcome F
  unfolding branch_test apply_cc
  cpu_exec_common_b sim id =
      let rela = sext8 (id.b2) in
      let kind = (id.b3 + 2 ^ 32 - 0x50) % 16 in
      let tested = branch_test sim kind (low4 (id.b1)) rela in
      let cond = apply_cc (sim.cpu.flags) (id.b1 / 16) tested in
      cpue_continue (if cond then count_taken (add_pc sim rela) else count_miss (add_pc sim 4))

  unfoldable pub cpu_exec_halt : Sim F → Inst → Outcome F
  cpu_exec_halt sim id = cpue_halt sim
