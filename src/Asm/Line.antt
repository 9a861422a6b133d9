-- ===== src/Asm/Line.antt =====
-- isa/asm.c, lines 216 to 256: asm_process_line.
use estros.Common.{
  ℕ, zero, suc, ◌+◌, Bool, ◌||◌, none, some, List, [], ◌∷◌, ◌++◌, u32, ltb, ◌==◌, if◌then◌else◌,
  length,
}
use estros.Common.Strings.{tail_of, skip_space, before, from}
use estros.Isa.{inst_table}
use estros.Asm.Operand.{AsmOperand, no_operand, label_name_size, asm_parse_asm_operand}
use estros.Asm.State.{AsmState, Result, ok, undefined, ◌>>=◌}
use estros.Asm.Encode.{Operands, asm_firstpass}

-- The sets that strpbrk looks for: "#\r\n", ": \t" and " \t".
abbrev pub ends_line : ℕ → Bool
ends_line c = c == b'#' || c == 13 || c == 10

abbrev pub ends_label : ℕ → Bool
ends_label c = c == b':' || c == 32 || c == 9

abbrev pub is_blank : ℕ → Bool
is_blank c = c == 32 || c == 9

-- The operands between commas, of which at most `left` are taken.
unfoldable pub split_operands : (left : ℕ) → List ℕ → List (List ℕ)
unfolding before from tail_of
split_operands zero p = []
split_operands (suc left) p = elim (from (λ c. c == b',') p) [
  | none ↦ p ∷ []
  | some rest ↦ before (λ c. c == b',') p ∷ split_operands left (tail_of rest)
]

unfoldable pub parse_operand : List ℕ → Result AsmOperand
unfolding asm_parse_asm_operand
parse_operand p = elim (asm_parse_asm_operand p) [ none ↦ undefined | some op ↦ ok op ]

-- `final_op` has four places: a fifth operand is written outside it.
unfoldable pub parse_operands : List (List ℕ) → Result Operands
unfolding parse_operand
parse_operands [] =
    ok (record { op0 = no_operand; op1 = no_operand; op2 = no_operand; op3 = no_operand })
parse_operands (a ∷ []) = do
  op0 ← parse_operand a
  ok (record { op0 = op0; op1 = no_operand; op2 = no_operand; op3 = no_operand })
parse_operands (a ∷ b ∷ []) = do
  op0 ← parse_operand a
  op1 ← parse_operand b
  ok (record { op0 = op0; op1 = op1; op2 = no_operand; op3 = no_operand })
parse_operands (a ∷ b ∷ c ∷ []) = do
  op0 ← parse_operand a
  op1 ← parse_operand b
  op2 ← parse_operand c
  ok (record { op0 = op0; op1 = op1; op2 = op2; op3 = no_operand })
parse_operands (a ∷ b ∷ c ∷ d ∷ []) = do
  op0 ← parse_operand a
  op1 ← parse_operand b
  op2 ← parse_operand c
  op3 ← parse_operand d
  ok (record { op0 = op0; op1 = op1; op2 = op2; op3 = op3 })
parse_operands (a ∷ b ∷ c ∷ d ∷ e ∷ rest) = undefined

-- `state->pc += asm_firstpass(state, mem, final_op)`.
unfoldable pub add_instruction : AsmState → List ℕ → Operands → AsmState
unfolding asm_firstpass
add_instruction state mem o =
    let (count, after) = asm_firstpass inst_table state mem o in
    record after { pc = u32 (after.pc + count) }

-- A label of 16 bytes or more overflows its place.
unfoldable pub add_label : AsmState → List ℕ → Result AsmState
add_label state name =
    if ltb (length name) label_name_size
    then ok (record state { labels = state.labels ++ (record { name = name; pc = state.pc } ∷ []) })
    else undefined

-- A line that has a colon is a label, any other a mnemonic and its operands.
unfoldable pub process_text : AsmState → List ℕ → Result AsmState
unfolding add_instruction add_label split_operands parse_operands skip_space before from tail_of
process_text state p = elim (from (λ c. c == b':') p) [
  | some colon ↦ add_label state (before ends_label p)
  | none ↦ elim (from is_blank p) [
    | some rest ↦ do
      o ← parse_operands (split_operands 8 (skip_space (tail_of rest)))
      ok (add_instruction state (before is_blank p) o)
    | none ↦ do o ← parse_operands []; ok (add_instruction state p o)
  ]
]

unfoldable pub asm_process_line : AsmState → List ℕ → Result AsmState
unfolding process_text skip_space before
asm_process_line state line = elim (skip_space (before ends_line line)) [
  | [] ↦ ok state
  | c ∷ cs ↦ process_text state (c ∷ cs)
]
