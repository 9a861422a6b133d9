-- ===== src/Cc/Asm/Print.antt =====
-- cc/asm.c: the text of the assembly, asm_regname and the formats of the calls of cc_asm_write. No
-- line reaches BUFSIZ bytes, since a name has at most 255.
use Prim.Native.String.{String}
use estros.Common.{ℕ, zero, suc, ◌*◌, ◌/◌, ◌%◌, List, [], ◌∷◌, ◌++◌, ◌==◌, if◌then◌else◌}
use estros.Common.Strings.{codes, digit, decimal_text}
use estros.Cc.Asm.Lower.{AsmLine}

unfoldable pub asm_regname : List String
asm_regname =
    "$f0" ∷ "$f1" ∷ "$f2" ∷ "$f3" ∷ "$f4" ∷ "$f5" ∷ "$f6" ∷ "$f7" ∷ "$f8" ∷ "$f9" ∷ "$f10" ∷ "$f11"
    ∷ "$f12" ∷ "$f13" ∷ "$f14" ∷ "$f15" ∷ "$t0" ∷ "$t1" ∷ "$t2" ∷ "$t3" ∷ "$t4" ∷ "$t5" ∷ "$t6"
    ∷ "$t7" ∷ "$a0" ∷ "$a1" ∷ "$a2" ∷ "$a3" ∷ "$ra" ∷ "$bp" ∷ "$sp" ∷ "$tp" ∷ []

abbrev nth_name : List String → ℕ → List ℕ
nth_name [] r = []
nth_name (s ∷ ss) zero = codes s
nth_name (s ∷ ss) (suc r) = nth_name ss r

-- `asm_regname[r]`, for a register that cc_asm_lower_func has looked up.
unfoldable pub register_text : ℕ → List ℕ
unfolding asm_regname
register_text r = nth_name asm_regname r

-- `%0*x`, with the digits that the type's size gives.
unfoldable pub hex_text : (digits value : ℕ) → List ℕ → List ℕ
hex_text zero value later = later
hex_text (suc digits) value later = hex_text digits (value / 16) (digit (value % 16) ∷ later)

-- The literals 0 and 0xff of the formats.
abbrev imm_text : ℕ → List ℕ
imm_text imm = if imm == 0 then codes "0" else codes "0xff"

abbrev unit_name : (bytes : ℕ) → List ℕ
unit_name bytes =
    if bytes == 8
    then codes ".quad"
    else (if bytes == 4
        then codes ".long"
        else (if bytes == 2 then codes ".word" else codes ".byte"))

-- A line without its newline. An id has 12 bits, and so at most four digits.
unfoldable pub print_line : AsmLine → List ℕ
unfolding register_text hex_text decimal_text
print_line AsmLine.section_text = codes ".section .text"
print_line AsmLine.section_data = codes ".section .data"
print_line AsmLine.ret = 9 ∷ codes "ret"
print_line (AsmLine.func_label name) = name ++ codes ":"
print_line (AsmLine.data_label id) = codes "D" ++ decimal_text 4 id (codes ":")
print_line (AsmLine.three_regs insn res arg0 arg1) =
    9 ∷ codes insn
    ++ codes " "
    ++ register_text res
    ++ codes ","
    ++ register_text arg0
    ++ codes ","
    ++ register_text arg1
print_line (AsmLine.three_regs_imm insn res arg0 arg1 imm) =
    9 ∷ codes insn
    ++ codes " "
    ++ register_text res
    ++ codes ","
    ++ register_text arg0
    ++ codes ","
    ++ imm_text imm
print_line (AsmLine.load_data insn res id) =
    9 ∷ codes insn ++ codes " " ++ register_text res ++ codes ",D" ++ decimal_text 4 id []
print_line (AsmLine.data_unit bytes value) =
    9 ∷ unit_name bytes ++ codes " " ++ hex_text (2 * bytes) value []

-- The lines, and the newline that cc_asm_finish adds.
unfoldable pub cc_asm_finish : List AsmLine → List ℕ
unfolding print_line
cc_asm_finish [] = 10 ∷ []
cc_asm_finish (l ∷ ls) = print_line l ++ 10 ∷ cc_asm_finish ls
