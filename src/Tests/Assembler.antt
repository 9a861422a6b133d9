-- ===== src/Tests/Assembler.antt =====
-- Runs of the assembler, and its theorems at concrete inputs.
use estros.Isa.{Mnemonic}
use estros.Asm.Encode.Found.{found-encode}
use estros.Sim.Dispatch.{find_inst, Decoded}
use estros.Sim.Dispatch.Shadowed.{is_shadowed}
use estros.Common.{ℕ, ◌≡◌, ◌≢◌, refl, List, [], ◌∷◌, some, get_elem?, length}
use estros.Common.{sext8}
use estros.Common.Strings.{codes}
use estros.Isa.{inst_table, Format}
use estros.Asm.State.{ok, AsmLabel, AsmFixup, fixup_rel_o16s8, asm_initialise}
use estros.Asm.Encode.{encode}
use estros.Asm.Encode.RoundTrip.{inst_of, decode-encode, decode-encode_registers}
use estros.Asm.Assemble.{asm_find_label, assemble, asm_assemble, fixup_one}
use estros.Asm.Assemble.Fixup.{fixup_one_lem}
use estros.Asm.Assemble.Offsets.{Aligns, asm_assemble-Aligns}
use estros.Common.{u32, arith, ◌+◌, inr}
use estros.Sim.Integer.{cpu_decode_r4x2i8_ifhbs}
use estros.Sim.Block.{cpu_decode_r4x4}
use estros.Tests.Data.{machine, seven_operands, source}

assemble-source : assemble 8192 source ≡ ok (0 ∷ 0x11 ∷ 7 ∷ 0x80 ∷ 0 ∷ 0x11 ∷ 0xfc ∷ 0x50 ∷ [])
unfolding assemble inst_table
assemble-source = refl

asm_assemble-Aligns_example : Aligns (asm_assemble 8192 asm_initialise source)
asm_assemble-Aligns_example = asm_assemble-Aligns 8192 source

decode-encode_example :
    (cpu_decode_r4x2i8_ifhbs machine (inst_of (encode Format.r4r4i8o8_ifhbs 0 seven_operands))).b
    ≡ 7
decode-encode_example = (decode-encode machine seven_operands 0 (omega arith)).3

decode-encode_registers_example :
    cpu_decode_r4x4 machine (inst_of (encode Format.r4r4r4r4 0x20 seven_operands))
    ≡ record { dp = 1; a = 0; b = 0; c = 0 }
decode-encode_registers_example = (decode-encode_registers machine seven_operands 0x20).0

-- The branch at address 4 of `source`, to the label at its start.
abbrev start_label : AsmLabel
start_label = record { name = codes "start"; pc = 0 }

abbrev branch_fixup : AsmFixup
branch_fixup = record { name = codes "start"; type = fixup_rel_o16s8; pc = 4; offset = 4 }

abbrev unpatched : List ℕ
unpatched = 0 ∷ 0x11 ∷ 7 ∷ 0x80 ∷ 0 ∷ 0x11 ∷ 0 ∷ 0x50 ∷ []

fixup_one_lem_example :
    (fixed : List ℕ) × (b : ℕ) × (fixup_one (start_label ∷ []) branch_fixup unpatched ≡ ok fixed)
    × (get_elem? fixed 6 ≡ some b)
    × (u32 (4 + sext8 b) ≡ 0)
    × (length fixed ≡ 8)
    × ((j : ℕ) → j ≢ 6 → get_elem? fixed j ≡ get_elem? unpatched j)
fixup_one_lem_example =
    fixup_one_lem (start_label ∷ []) branch_fixup unpatched start_label refl
      (unfold asm_find_label in refl) (omega arith) (omega arith) (inr (omega arith)) (omega arith)

found-encode_example :
    find_inst inst_table (inst_of (encode Format.r4r4i8o8_ifhbs 0 seven_operands))
    ≡ Decoded.found Mnemonic.add
unfolding is_shadowed inst_table
found-encode_example =
    found-encode 0
      (record { inst = Mnemonic.add; name = "add"; format = Format.r4r4i8o8_ifhbs; op = 0 })
      seven_operands refl refl refl
