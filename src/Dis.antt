-- ===== src/Dis.antt =====
-- isa/dis.c: the disassembler. What is printed is a list of bytes; `char` is signed.
pub mod Operands
pub mod Line
pub mod Entries
pub mod Encoded
pub mod Read
pub mod Words
pub mod Printed
pub mod RoundTrip
use Prim.Native.String.{String}
use estros.Common.{
  ℕ, zero, suc, ◌+◌, ◌-◌, ◌%◌, Bool, List, [], ◌∷◌, ◌++◌, low4, high4, test_bit, ltb, ◌==◌,
  if◌then◌else◌,
}
use estros.Common.Strings.{codes, decimal_text}
use estros.Isa.{Format, Entry, inst_table}
use estros.Sim.State.{Inst}
use estros.Asm.State.{Result, ok, aborted, ◌>>=◌}

-- `%i` of a number below 16, and of a `char`.
abbrev pub number_text : ℕ → List ℕ → List ℕ
number_text n later = decimal_text 2 n later

unfoldable pub char_text : ℕ → List ℕ → List ℕ
unfolding decimal_text
char_text b later =
    if ltb b 128 then decimal_text 3 b later else b'-' ∷ decimal_text 3 (256 - b) later

-- `$r%i` and `$f%i`.
abbrev pub reg_text : (letter n : ℕ) → List ℕ → List ℕ
reg_text letter n later = b'$' ∷ letter ∷ number_text n later

-- Four registers with commas between them.
abbrev four_registers : (letter : ℕ) → Inst → List ℕ
four_registers letter ob = reg_text letter (low4 ob.b1) (
    b','
    ∷ reg_text letter (high4 ob.b1)
        (b',' ∷ reg_text letter (low4 ob.b2) (b',' ∷ reg_text letter (high4 ob.b2) [])))

abbrev flag_char : Bool → ℕ → ℕ
flag_char set letter = if set then letter else 32

-- `buf`.
unfoldable pub operand_text : Inst → Format → List ℕ
unfolding char_text decimal_text
operand_text ob Format.r4r4i8o8_ifhbs =
    if test_bit ob.b3 7
    then reg_text b'r' (low4 ob.b1) (b',' ∷ reg_text b'r' (high4 ob.b1) (b',' ∷ char_text ob.b2 []))
    else reg_text b'r' (low4 ob.b1) (
        b','
        ∷ reg_text b'r' (high4 ob.b1)
            (b',' ∷ reg_text b'r' (low4 ob.b2) (b',' ∷ number_text (high4 ob.b2) [])))
operand_text ob Format.r4u4ra8o8 =
    let cc = high4 ob.b1 in
    reg_text b'r' (low4 ob.b1) (
      b','
      ∷ char_text ob.b2 (
          b','
          ∷ b'?'
          ∷ flag_char (test_bit cc 0) b'!'
          ∷ flag_char (test_bit cc 1) b'n'
          ∷ flag_char (test_bit cc 2) b'z'
          ∷ flag_char (test_bit cc 3) b'c'
          ∷ []))
operand_text ob Format.r4r4r4r4 = four_registers b'r' ob
operand_text ob Format.f4f4f4f4 = four_registers b'f' ob
operand_text ob Format.u16o8 = []
operand_text ob _ = codes "<invalid>"

-- `%-8s`.
abbrev pub padded : (width : ℕ) → List ℕ → List ℕ → List ℕ
padded zero s later = s ++ later
padded (suc width) [] later = 32 ∷ padded width [] later
padded (suc width) (c ∷ s) later = c ∷ padded width s later

unfoldable pub dis_print_format : Inst → (name : String) → Format → List ℕ
unfolding operand_text
dis_print_format ob name f = 9 ∷ padded 8 (codes name) (operand_text ob f ++ 10 ∷ [])

-- The loop over the table: the first entry with the opcode.
unfoldable pub print_first : List Entry → Inst → List ℕ
unfolding dis_print_format
print_first [] ob = []
print_first (e ∷ es) ob =
    let rest = print_first es ob in
    if e.op == ob.b3 % 128 then dis_print_format ob e.name e.format else rest

-- The loop's test, for which the byte 0xff is EOF, and its body: what is printed from the byte behind
-- the first on, and from the fifth.
unfoldable pub dis_round : Inst → (after_one after_four : Result (List ℕ)) → Result (List ℕ)
unfolding print_first
dis_round ob after_one after_four =
    let kind = low4 ob.b0 in
    if ob.b0 == 0xff
    then ok []
    else (if kind == 0
        then (after_four >>= λ rest. ok (print_first inst_table ob ++ rest))
        else (if kind == 1
            then after_one
            else (if kind == 3 then after_one else (if kind == 4 then after_one else aborted))))

abbrev bytes_inst : (b0 b1 b2 b3 : ℕ) → Inst
bytes_inst b0 b1 b2 b3 = record { b0 = b0; b1 = b1; b2 = b2; b3 = b3 }

-- The bytes of the input; a read at its end gives EOF, 0xff.
unfoldable pub dis_disassemble : List ℕ → Result (List ℕ)
unfolding dis_round
dis_disassemble [] = ok []
dis_disassemble (b0 ∷ []) = dis_round (bytes_inst b0 0xff 0xff 0xff) (ok []) (ok [])
dis_disassemble (b0 ∷ b1 ∷ []) =
    dis_round (bytes_inst b0 b1 0xff 0xff) (dis_disassemble (b1 ∷ [])) (ok [])
dis_disassemble (b0 ∷ b1 ∷ b2 ∷ []) =
    dis_round (bytes_inst b0 b1 b2 0xff) (dis_disassemble (b1 ∷ b2 ∷ [])) (ok [])
dis_disassemble (b0 ∷ b1 ∷ b2 ∷ b3 ∷ rest) =
    dis_round (bytes_inst b0 b1 b2 b3) (dis_disassemble (b1 ∷ b2 ∷ b3 ∷ rest))
      (dis_disassemble rest)
