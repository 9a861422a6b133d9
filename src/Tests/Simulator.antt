-- ===== src/Tests/Simulator.antt =====
-- The theorems on the simulator's words, instructions, dispatch and steps at concrete inputs.
use estros.Common.{[], ◌∷◌, some, List, update}
use estros.Sim.State.{cpue_halt}
use estros.Sim.Step.{load_rom}
use estros.Sim.Step.End.{step_beyond_end}
use estros.Common.{ℕ, ◌≡◌, ◌≢◌, ◌⊎◌, refl, not, ◌&&◌, ◌||◌}
use estros.Common.{sext8, test_bit}
use mathlib.Core.Bool.{xor}
use estros.Isa.{inst_table, Format, Mnemonic, flags_bit_n, flags_bit_z, flags_bit_c}
use estros.Common.{u32, arith, ◌+◌, ◌/◌, ◌%◌, true, inr, false}
use estros.Sim.State.{Sim, cpue_continue, set_r}
use estros.Sim.Word.{cpu_i_add32}
use estros.Sim.Integer.{cpu_decode_r4x2i8_ifhbs, alu_result, cpu_exec_imul, cpu_exec_mul}
use estros.Sim.Integer.Imul.{imul-eq-mul}
use estros.Sim.Integer.Flags.{IsAluResult, alu_result-IsAluResult, cpu_i_add32_lem}
use estros.Sim.Control.{apply_cc, cpu_exec_call, cpu_exec_ret, cpu_exec_common_b}
use estros.Sim.Control.Flow.{apply_cc-eq-xor, ret-call, branch_complement}
use estros.Sim.Dispatch.{find_inst, Decoded}
use estros.Sim.Dispatch.Reached.{found_by_opcode}
use estros.Sim.Dispatch.Shadowed.{is_shadowed, shadowed_never_found}
use estros.Sim.Main.{Files, read_arguments}
use estros.Common.Strings.{codes}
use estros.Sim.Step.{cpu_step}
use estros.Tests.Data.{whole_ops, machine, machine-IsValid, add_seven, add_seven-IsInst, jump_back}

-- Every name is that of a file of four bytes.
abbrev one_file : Files
one_file name = some (0x00 ∷ 0x00 ∷ 0x00 ∷ 0xff ∷ [])

abbrev arguments : List (List ℕ)
arguments = codes "-quiet" ∷ codes "-ticks" ∷ codes "2" ∷ codes "-a1" ∷ codes "-7" ∷ codes "x" ∷ []

arguments_example :
    let s = read_arguments one_file arguments (record { sim = machine; max_ticks = 25 }) in
    (s.max_ticks ≡ 2) × (s.sim.opt ≡ 1) × (s.sim.cpu.r 9 ≡ 0xfffffff9) × (s.sim.rom 3 ≡ 0xff)
unfolding read_arguments load_rom set_r update
arguments_example = (refl, refl, refl, refl)

found_by_opcode_example : find_inst inst_table add_seven ≡ Decoded.found Mnemonic.add
unfolding is_shadowed inst_table
found_by_opcode_example =
    found_by_opcode add_seven 0
      (record { inst = Mnemonic.add; name = "add"; format = Format.r4r4i8o8_ifhbs; op = 0 }) (refl)
      refl (inr (refl, refl))

shadowed_never_found_example :
    find_inst inst_table (record { b0 = 1; b1 = 0; b2 = 0; b3 = 0 }) ≢ Decoded.found Mnemonic.fadd3
unfolding is_shadowed
shadowed_never_found_example =
    shadowed_never_found (record { b0 = 1; b1 = 0; b2 = 0; b3 = 0 }) Mnemonic.fadd3 (omega arith)
      refl

imul-eq-mul_example : cpu_exec_imul machine add_seven ≡ cpu_exec_mul machine add_seven
unfolding cpu_decode_r4x2i8_ifhbs
imul-eq-mul_example =
    imul-eq-mul machine add_seven machine-IsValid add_seven-IsInst (unfold xor in refl)

alu_result-IsAluResult_example :
    IsAluResult machine 1 0xffff_fff0 (alu_result machine 1 0xffff_fff0)
alu_result-IsAluResult_example = alu_result-IsAluResult machine 1 0xffff_fff0

cpu_i_add32_lem_example :
    ((cpu_i_add32 machine 0xffff_ffff 2).0 ≡ u32 (0xffff_ffff + 2))
    × (test_bit ((cpu_i_add32 machine 0xffff_ffff 2).1.cpu.flags) flags_bit_c ≡ false)
    × ((cpu_i_add32 machine 0xffff_ffff 2).1.cpu.flags % 4 ≡ machine.cpu.flags % 4)
    × ((cpu_i_add32 machine 0xffff_ffff 2).1.cpu.flags / 8 ≡ machine.cpu.flags / 8)
cpu_i_add32_lem_example = cpu_i_add32_lem machine 0xffff_ffff 2 (omega arith) (omega arith)

apply_cc-eq-xor_example :
    apply_cc 2 5 true
    ≡ xor (test_bit 5 0) (
        true
        && (not (test_bit 5 1) || test_bit 2 flags_bit_n)
        && (not (test_bit 5 2) || test_bit 2 flags_bit_z)
        && (not (test_bit 5 3) || test_bit 2 flags_bit_c))
apply_cc-eq-xor_example = apply_cc-eq-xor 2 5 true

ret-call_example :
    (s t : Sim ℕ) × (cpu_exec_call machine jump_back ≡ cpue_continue s)
    × (s.cpu.pc ≡ u32 (0 + sext8 0xfc))
    × (cpu_exec_ret s add_seven ≡ cpue_continue t)
    × (t.cpu.pc ≡ u32 (s.cpu.pc + 4))
ret-call_example = ret-call machine jump_back add_seven (omega arith)

branch_complement_example :
    (s t : Sim ℕ) × (cpu_exec_common_b machine (record { b0 = 0; b1 = 0x41; b2 = 0xfc; b3 = 0x50 })
      ≡ cpue_continue s)
    × (cpu_exec_common_b machine (record { b0 = 0; b1 = 0x41 + 16; b2 = 0xfc; b3 = 0x50 })
        ≡ cpue_continue t)
    × ((s.cpu.pc ≡ u32 (0x8000 + sext8 0xfc)) × (t.cpu.pc ≡ u32 (0x8000 + 4))
        ⊎ (s.cpu.pc ≡ u32 (0x8000 + 4)) × (t.cpu.pc ≡ u32 (0x8000 + sext8 0xfc)))
branch_complement_example = branch_complement machine 0 0x41 0xfc 0x50 refl

-- The machine behind a program of one instruction.
abbrev past_end : Sim ℕ
past_end = record machine { cpu = record (machine.cpu) { pc = 0x8004 } }

step_beyond_end_example :
    (s : Sim ℕ) × (cpu_step whole_ops 64 (load_rom (0 ∷ 0x11 ∷ 7 ∷ 0x80 ∷ []) past_end)
      ≡ cpue_halt s)
    × (s.cpu ≡ past_end.cpu)
    × (s.ram ≡ past_end.ram)
step_beyond_end_example =
    step_beyond_end whole_ops 64 (0 ∷ 0x11 ∷ 7 ∷ 0x80 ∷ []) past_end (omega arith) (omega arith)
