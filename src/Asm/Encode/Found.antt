-- ===== src/Asm/Encode/Found.antt =====
-- isa/asm.c, asm_firstpass, with isa/sim.c, cpu_match_inst: proofs on the opcode byte.
use estros.Common.{
  ℕ, ◌+◌, ◌≡◌, ◌⊎◌, inl, inr, refl, Bool, true, false, not, ◌&&◌, ◌||◌, some, get_elem?, ltb,
  ltb→lt, Bool-cases, arith,
}
use mathlib.Core.Bool.{false≢true, and-eq-true_iff}
use estros.Isa.{Format, Entry, is_ifhbs, inst_table, integer_insts, float_insts}
use estros.Asm.Encode.{Operands, is_imm, encode}
use estros.Asm.Encode.RoundTrip.{inst_of, high_bit}
use estros.Sim.Dispatch.{find_inst, found}
use estros.Sim.Dispatch.Shadowed.{searched, is_shadowed}
use estros.Sim.Dispatch.Reached.{all_entries, all_entries-get, found_by_opcode}

-- The formats that asm_firstpass encodes.
abbrev pub is_encoded : Format → Bool
is_encoded Format.r4r4i8o8_ifhbs = true
is_encoded Format.u16o8 = true
is_encoded Format.r4u4ra8o8 = true
is_encoded Format.r4r4r4r4 = true
is_encoded Format.f4f4f4f4 = true
is_encoded _ = false

-- The opcode fits its byte, and leaves the high bit to an integer entry.
abbrev opcode_fits : Entry → Bool
opcode_fits e = ltb (e.op) 256 && (not (is_ifhbs (e.format)) || ltb (e.op) 128)

fits_table : all_entries opcode_fits searched ≡ true
unfolding integer_insts float_insts
fits_table = refl

opcode-encode :
    (format : Format) (op : ℕ) (o : Operands)
    → is_encoded format ≡ true
    → ltb op 256 ≡ true
    → (not (is_ifhbs format) || ltb op 128) ≡ true
    → ((inst_of (encode format op o)).b3 ≡ op)
      ⊎ ((is_ifhbs format ≡ true) × ((inst_of (encode format op o)).b3 ≡ op + 128))
unfolding encode
opcode-encode Format.r4r4i8o8_ifhbs op o h byte low = elim (Bool-cases (is_imm (o.op2.type))) [
  | inl imm ↦ inr (refl, rw (imm, high_bit op (ltb→lt _ _ low)) (omega arith))
  | inr register ↦ inl (rw register (ground arith))
]
opcode-encode Format.u16o8 op o h byte low = inl (ground arith)
opcode-encode Format.r4u4ra8o8 op o h byte low = inl (ground arith)
opcode-encode Format.r4r4r4r4 op o h byte low = inl (ground arith)
opcode-encode Format.f4f4f4f4 op o h byte low = inl (ground arith)
opcode-encode _ op o h byte low = absurd (false≢true h)

-- For every entry of the table that is not shadowed and whose format asm_firstpass encodes, and for any
-- operands, the instruction that the simulator finds for the encoded bytes is that entry's.
pub found-encode :
    (i : ℕ) (e : Entry) (o : Operands)
    → get_elem? searched i ≡ some e
    → is_shadowed (e.inst) ≡ false
    → is_encoded (e.format) ≡ true
    → find_inst inst_table (inst_of (encode (e.format) (e.op) o)) ≡ found (e.inst)
found-encode i e o at clear encoded =
    let (byte, low) =
      (and-eq-true_iff _ _).0 (all_entries-get opcode_fits searched i e fits_table at) in
    found_by_opcode (inst_of (encode (e.format) (e.op) o)) i e at clear
      (opcode-encode (e.format) (e.op) o encoded byte low)
