-- ===== src/Asm/Operand.antt =====
-- isa/asm.c, lines 15 to 138: operands and their parsing. ASM_ERROR_IF only prints a message, and
-- the assembler goes on: the messages are left out.
use estros.Common.{
  ℕ, ◌+◌, ◌*◌, Bool, ◌&&◌, ◌||◌, Option, none, some, List, [], ◌∷◌, bit_or, u64, ltb, ◌==◌,
  if◌then◌else◌, length,
}
use estros.Common.Strings.{char_at, tail_of, isdigit, atoll}
use estros.Isa.{xm_abi_a0, xm_abi_ra, xm_abi_bp, xm_abi_sp, xm_abi_tp}

abbrev pub label_name_size : ℕ
label_name_size = 16

pub data OperandType : Type 0 where
  invalid reg float_reg vector_reg control_reg tile_reg imm label cond : OperandType

-- `struct asm_operand`. The union's `i` is a pattern of 64 bits; a label has its first eight bytes
-- there.
pub record AsmOperand : Type 0 where
  pub type : OperandType
  pub i : ℕ
  pub name : List ℕ

-- `{0}`.
abbrev pub no_operand : AsmOperand
no_operand = record { type = OperandType.invalid; i = 0; name = [] }

abbrev pub number : OperandType → ℕ → AsmOperand
number t n = record { type = t; i = u64 n; name = [] }

-- The name's bytes as a little-endian number.
unfoldable pub label_word : List ℕ → ℕ
label_word [] = 0
label_word (c ∷ cs) = c + 256 * label_word cs

-- `if (*p == c) op.data.i |= bits, ++p;`.
unfoldable pub cond_letter : (c bits : ℕ) → ℕ × List ℕ → ℕ × List ℕ
unfolding tail_of
cond_letter c bits (i, p) = if char_at p 0 == c then (bit_or i bits, tail_of p) else (i, p)

unfoldable pub parse_cond : List ℕ → ℕ
unfolding cond_letter
parse_cond p =
    (cond_letter b'e' 0x04 (
      cond_letter b'l' 0x08 (
        cond_letter b'g' (bit_or (bit_or 0x08 0x04) 0x01) (
          cond_letter b'c' 0x08
            (cond_letter b'z' 0x04 (cond_letter b'n' 0x02 (cond_letter b'!' 0x01 (0, p)))))))).0

-- `$` followed by one letter, or by two.
abbrev dollar1 : List ℕ → ℕ → Bool
dollar1 p c = char_at p 0 == b'$' && char_at p 1 == c

abbrev dollar2 : List ℕ → (c d : ℕ) → Bool
dollar2 p c d = dollar1 p c && char_at p 2 == d

-- `none` is the overflow of `op.data.name`, which C leaves undefined.
unfoldable pub asm_parse_asm_operand : List ℕ → Option AsmOperand
unfolding parse_cond label_word tail_of isdigit atoll
asm_parse_asm_operand p =
    let after1 = tail_of p in
    let after2 = tail_of after1 in
    let after3 = tail_of after2 in
    if dollar2 p b'c' b'r'
    then some (number OperandType.control_reg (atoll after3))
    else if dollar2 p b't' b'm'
    then some (number OperandType.tile_reg (atoll after3))
    else if char_at p 0 == b'?'
    then some (number OperandType.cond (parse_cond after1))
    else if dollar2 p b's' b'p'
    then some (number OperandType.reg xm_abi_sp)
    else if dollar2 p b'b' b'p'
    then some (number OperandType.reg xm_abi_bp)
    else if dollar2 p b't' b'p'
    then some (number OperandType.reg xm_abi_tp)
    else if dollar2 p b'r' b'a'
    then some (number OperandType.reg xm_abi_ra)
    else if dollar1 p b't'
    then some (number OperandType.reg (atoll after2))
    else if dollar1 p b'a'
    then some (number OperandType.reg (atoll after2 + xm_abi_a0))
    else if dollar1 p b'r'
    then some (number OperandType.reg (atoll after2))
    else if dollar1 p b'v'
    then some (number OperandType.vector_reg (atoll after2))
    else if dollar1 p b'f'
    then some (number OperandType.float_reg (atoll after2))
    else if isdigit (char_at p 0) || char_at p 0 == b'-'
    then some (number OperandType.imm (atoll p))
    else if ltb (length p) label_name_size
    then some (record { type = OperandType.label; i = u64 (label_word p); name = p })
    else none
