-- ===== src/Tests/Disassemble.antt =====
-- Runs of the disassembler, and its theorem at a concrete input.
use estros.Common.{ℕ, ◌≡◌, refl, List, [], ◌∷◌, ◌++◌, arith}
use estros.Common.Strings.{codes}
use estros.Isa.{inst_table}
use estros.Asm.State.{ok, ◌>>=◌}
use estros.Asm.Assemble.{assemble}
use estros.Dis.{dis_disassemble}
use estros.Dis.Entries.{is_operand_opcode}
use estros.Dis.Read.{Word}
use estros.Dis.RoundTrip.{bytes_of, assemble-dis_disassemble}

-- `sub $r0,$r9,$r8,0`, `cmpkp $r1,$r2,-4` and `memcpy $r1,$r2,$r3,$r4`.
abbrev three_words : List Word
three_words =
    record { b1 = 0x90; b2 = 0x08; b3 = 0x01 }
    ∷ record { b1 = 0x21; b2 = 0xfc; b3 = 0xa1 }
    ∷ record { b1 = 0x21; b2 = 0x43; b3 = 0x30 }
    ∷ []

assemble-dis_disassemble_example :
    (text : List ℕ) × (dis_disassemble (bytes_of three_words) ≡ ok text)
    × (assemble 8192 text ≡ ok (bytes_of three_words))
unfolding is_operand_opcode inst_table
assemble-dis_disassemble_example = assemble-dis_disassemble three_words (
  (omega arith, omega arith, omega arith, refl),
  (
    (omega arith, omega arith, omega arith, refl),
    ((omega arith, omega arith, omega arith, refl), tt),
  ),
)

disassembled-cmpkp :
    dis_disassemble (0 ∷ 0x21 ∷ 0xfc ∷ 0xa1 ∷ []) ≡ ok (9 ∷ codes "cmpkp   $r1,$r2,-4" ++ 10 ∷ [])
unfolding dis_disassemble inst_table
disassembled-cmpkp = refl

-- The bytes of `fadd3 $f1,$f2,$f3,$f4`: each is taken for a first byte, and no line is printed.
disassembled-fadd3 : dis_disassemble (1 ∷ 0x21 ∷ 0x43 ∷ 0 ∷ []) ≡ ok []
unfolding dis_disassemble inst_table
disassembled-fadd3 = refl

-- A branch on n: its condition is read back as none.
disassembled-branch :
    (dis_disassemble (0 ∷ 0x21 ∷ 4 ∷ 0x50 ∷ []) >>= λ text. assemble 8192 text)
    ≡ ok (0 ∷ 1 ∷ 4 ∷ 0x50 ∷ [])
unfolding dis_disassemble assemble inst_table
disassembled-branch = refl
