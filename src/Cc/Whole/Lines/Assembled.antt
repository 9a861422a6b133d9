-- ===== src/Cc/Whole/Lines/Assembled.antt =====
-- cc/asm.c and isa/asm.c: proofs on the bytes that the assembler makes of the lines that the compiler
-- prints for `int f(int x, int y) { return a op b; }`.
use estros.Common.{ℕ, ◌+◌, ◌*◌, ◌<◌, ◌≡◌, true, length, List, [], ◌∷◌, refl, arith, ◌∙◌, ap}
use estros.Isa.{inst_table}
use estros.Asm.State.{AsmState, ok, ◌>>=◌, asm_initialise}
use estros.Asm.Operand.{label_name_size}
use estros.Asm.Assemble.{assemble, asm_assemble, assemble_lines, asm_fixup}
use estros.Asm.Assemble.Labelled.{AreNot, is_special, assemble_lines-label}
use estros.Cc.Ast.{Binop}
use estros.Cc.Asm.Lower.{AsmLine}
use estros.Cc.Asm.Print.{asm_regname, cc_asm_finish}
use estros.Cc.Whole.{has_level, each_operation}
use estros.Cc.Whole.Lines.{instruction, function_lines}

-- The opcodes of isa/isa.h.
unfoldable pub opcode : Binop → ℕ
opcode Binop.add = 0
opcode Binop.sub = 1
opcode Binop.mul = 2
opcode Binop.div = 3
opcode Binop.bit_and = 6
opcode Binop.bit_xor = 7
opcode Binop.bit_or = 8
opcode Binop.lshift = 9
opcode Binop.rshift = 10
opcode _ = 0

-- The operation on A0 + i and A0 + j, into T0, and the return.
abbrev pub function_bytes : Binop → (i j : ℕ) → List ℕ
function_bytes op i j = 0 ∷ ((8 + i) * 16) ∷ (8 + j) ∷ opcode op ∷ 0 ∷ 0 ∷ 0 ∷ 0x43 ∷ []

module _ (name : List ℕ) where
  abbrev labelled : AsmState
  labelled = record { out = []; labels = record { name = name; pc = 0 } ∷ []; fixups = []; pc = 0 }

  abbrev body_lines : Binop → (i j : ℕ) → List AsmLine
  body_lines op i j =
      AsmLine.three_regs (instruction op) 16 (24 + i) (24 + j)
      ∷ AsmLine.ret
      ∷ AsmLine.section_data
      ∷ []

  abbrev Assembles : Binop → (i j : ℕ) → Type 0
  Assembles op i j =
      assemble_lines 8192 labelled [] (cc_asm_finish (body_lines op i j))
      ≡ ok (record labelled { out = function_bytes op i j; pc = 8 })

  abbrev AssemblesAll : Binop → Type 0
  AssemblesAll op = Assembles op 0 0 × Assembles op 0 1 × Assembles op 1 0 × Assembles op 1 1

  body_assembled :
      (op : Binop)
      → has_level op ≡ true
      → Assembles op 0 0 × Assembles op 0 1 × Assembles op 1 0 × Assembles op 1 1
  unfolding assemble_lines cc_asm_finish instruction opcode asm_regname inst_table
  body_assembled = each_operation AssemblesAll (
    (refl, refl, refl, refl),
    (refl, refl, refl, refl),
    (refl, refl, refl, refl),
    (refl, refl, refl, refl),
    (refl, refl, refl, refl),
    (refl, refl, refl, refl),
    (refl, refl, refl, refl),
    (refl, refl, refl, refl),
    (refl, refl, refl, refl),
  )

  abbrev pub IsAssembled : Binop → (i j : ℕ) → Type 0
  IsAssembled op i j =
      assemble 8192 (cc_asm_finish (function_lines name op i j)) ≡ ok (function_bytes op i j)

  label-IsAssembled :
      (op : Binop) (i j : ℕ)
      → AreNot is_special name
      → length name < label_name_size
      → Assembles op i j
      → IsAssembled op i j
  unfolding assemble asm_assemble asm_fixup asm_initialise cc_asm_finish assemble_lines inst_table
  label-IsAssembled op i j plain short h =
      ap (λ result. result >>= λ state. (asm_fixup state >>= λ fixed. ok fixed.out))
        (assemble_lines-label 8192 asm_initialise name (cc_asm_finish (body_lines op i j)) plain
            short (omega arith)
          ∙ h)

  pub lines-IsAssembled :
      (op : Binop)
      → has_level op ≡ true
      → AreNot is_special name
      → length name < label_name_size
      → IsAssembled op 0 0 × IsAssembled op 0 1 × IsAssembled op 1 0 × IsAssembled op 1 1
  lines-IsAssembled op h plain short =
      let (a, b, c, d) = body_assembled op h in
      (
        label-IsAssembled op 0 0 plain short a,
        label-IsAssembled op 0 1 plain short b,
        label-IsAssembled op 1 0 plain short c,
        label-IsAssembled op 1 1 plain short d,
      )
