-- ===== src/Asm/Encode.antt =====
-- isa/asm.c, lines 140 to 214: asm_firstpass, which finds the mnemonic in the table, encodes the
-- instruction and notes the fixup of a label.
pub mod RoundTrip
pub mod Found
use estros.Common.{
  ℕ, ◌*◌, ◌%◌, ◌^◌, Bool, true, false, Option, none, some, List, [], ◌∷◌, ◌++◌, bit_or, u8, u32,
  if◌then◌else◌, length,
}
use estros.Common.Strings.{codes, str_eq}
use estros.Isa.{Format, Entry}
use estros.Asm.Operand.{OperandType, AsmOperand}
use estros.Asm.State.{AsmState, AsmFixup, fixup_rel_o16s8}

-- `op[0]` to `op[3]`.
pub record Operands : Type 0 where
  pub op0 : AsmOperand
  pub op1 : AsmOperand
  pub op2 : AsmOperand
  pub op3 : AsmOperand

abbrev pub is_imm : OperandType → Bool
is_imm OperandType.imm = true
is_imm _ = false

abbrev pub is_label : OperandType → Bool
is_label OperandType.label = true
is_label _ = false

-- `(a & 0x0f) | ((b & 0x0f) << 4)`.
abbrev pub nibbles : (a b : ℕ) → ℕ
nibbles a b = bit_or (a % 16) (b % 16 * 2 ^ 4)

-- `a & 0x0f | (b << 4)`, cut to a byte.
abbrev pub loose_nibbles : (a b : ℕ) → ℕ
loose_nibbles a b = u8 (bit_or (a % 16) (b * 2 ^ 4))

-- The bytes `ob[0]` to `ob[oc - 1]`; a format that asm_firstpass does not handle has none.
unfoldable pub encode : Format → (op : ℕ) → Operands → List ℕ
encode Format.r4r4i8o8_ifhbs op o =
    0
    ∷ nibbles (o.op0.i) (o.op1.i)
    ∷ (if is_imm (o.op2.type) then u8 (o.op2.i) else nibbles (o.op2.i) (o.op3.i))
    ∷ (if is_imm (o.op2.type) then bit_or (u8 op) 0x80 else u8 op)
    ∷ []
encode Format.u16o8 op o = 0 ∷ 0 ∷ 0 ∷ u8 op ∷ []
encode Format.r4u4ra8o8 op o = 0 ∷ loose_nibbles (o.op0.i) (o.op2.i) ∷ u8 (o.op1.i) ∷ u8 op ∷ []
encode Format.r4r4r4r4 op o =
    0 ∷ loose_nibbles (o.op0.i) (o.op1.i) ∷ loose_nibbles (o.op2.i) (o.op3.i) ∷ u8 op ∷ []
encode Format.f4f4f4f4 op o =
    1 ∷ loose_nibbles (o.op0.i) (o.op1.i) ∷ loose_nibbles (o.op2.i) (o.op3.i) ∷ u8 op ∷ []
encode _ op o = []

-- The fixups that the instruction adds, at the end of the list.
unfoldable pub new_fixups : Format → AsmState → Operands → List AsmFixup
new_fixups Format.r4u4ra8o8 state o =
    if is_label (o.op1.type)
    then record {
      name = o.op1.name;
      type = fixup_rel_o16s8;
      pc = state.pc;
      offset = u32 (length (state.out));
    }
      ∷ []
    else []
new_fixups _ state o = []

-- The first entry of the table whose name is the mnemonic.
unfoldable pub find_mnemonic : List Entry → List ℕ → Option Entry
unfolding str_eq
find_mnemonic [] name = none
find_mnemonic (e ∷ es) name =
    let rest = find_mnemonic es name in if str_eq name (codes (e.name)) then some e else rest

unfoldable pub emit : AsmState → Entry → Operands → ℕ × AsmState
unfolding encode new_fixups
emit state e o =
    let ob = encode (e.format) (e.op) o in
    (
      length ob,
      record state {
        out = state.out ++ ob;
        fixups = state.fixups ++ new_fixups (e.format) state o;
      },
    )

-- The number of bytes emitted, and the state. An unknown mnemonic emits nothing.
unfoldable pub asm_firstpass : List Entry → AsmState → (name : List ℕ) → Operands → ℕ × AsmState
unfolding emit find_mnemonic
asm_firstpass table state name o = elim (find_mnemonic table name) [
  | none ↦ (0, state)
  | some e ↦ emit state e o
]
