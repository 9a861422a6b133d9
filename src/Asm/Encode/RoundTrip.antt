-- ===== src/Asm/Encode/RoundTrip.antt =====
-- isa/asm.c, asm_firstpass, with the decoding functions of isa/sim.c: proofs on the operands.
use estros.Common.{
  low4, high4, test_bit, false, ℕ, ◌+◌, ◌*◌, ◌%◌, ◌^◌, ◌<◌, ◌≡◌, refl, true, some, List, ◌∷◌,
  bit_or, u8, u32, arith, if◌then◌else◌, inl, inr, Bool-cases,
}
use estros.Common.Bits.{bit_or_low}
use estros.Isa.{Format, get_cb0_from_format}
use estros.Asm.Encode.{Operands, is_imm, nibbles, loose_nibbles, encode}
use estros.Sim.State.{Sim, Inst}
use estros.Sim.Dispatch.{cpu_match_inst, match_class}
use estros.Sim.Integer.{cpu_decode_r4x2i8_ifhbs}
use estros.Sim.Block.{cpu_decode_r4x4}
use estros.Sim.Float.{cpu_decode_f4x4}

-- The four bytes as the simulator fetches them.
abbrev pub inst_of : List ℕ → Inst
inst_of (b0 ∷ b1 ∷ b2 ∷ b3 ∷ bs) = record { b0 = b0; b1 = b1; b2 = b2; b3 = b3 }
inst_of _ = record { b0 = 0; b1 = 0; b2 = 0; b3 = 0 }

pub nibbles_value : (a b : ℕ) → nibbles a b ≡ b % 16 * 16 + a % 16
nibbles_value a b = bit_or_low 4 (b % 16) (a % 16) (omega arith)

pub loose_nibbles_value : (a b : ℕ) → loose_nibbles a b ≡ b % 16 * 16 + a % 16
loose_nibbles_value a b =
    let joined : bit_or (a % 16) (b * 2 ^ 4) ≡ b * 2 ^ 4 + a % 16 =
      bit_or_low 4 b (a % 16) (omega arith) in
    rw joined (omega arith)

low_nibble : (a b : ℕ) → low4 (nibbles a b) ≡ a % 16
low_nibble a b = rw (nibbles_value a b) (omega arith)

high_nibble : (a b : ℕ) → high4 (nibbles a b) ≡ b % 16
high_nibble a b = rw (nibbles_value a b) (omega arith)

low_loose : (a b : ℕ) → low4 (loose_nibbles a b) ≡ a % 16
low_loose a b = rw (loose_nibbles_value a b) (omega arith)

high_loose : (a b : ℕ) → high4 (loose_nibbles a b) ≡ b % 16
high_loose a b = rw (loose_nibbles_value a b) (omega arith)

pub high_bit : (op : ℕ) → op < 128 → bit_or (u8 op) 0x80 ≡ 128 + op
high_bit op h = let byte : u8 op ≡ op = omega arith in rw byte (bit_or_low 7 1 op h)

module _ {F : Type 0} (sim : Sim F) (o : Operands) where
  -- An integer instruction whose opcode is below 128, assembled from any operands, is matched by its
  -- own opcode, and its decoding has the registers of the operands, numbered modulo 16, and as second
  -- value the low byte of an immediate, or else the register plus the fourth operand modulo 16.
  pub decode-encode :
      (op : ℕ)
      → op < 128
      → (cpu_match_inst (inst_of (encode Format.r4r4i8o8_ifhbs op o)) Format.r4r4i8o8_ifhbs op
          ≡ some true)
        × ((cpu_decode_r4x2i8_ifhbs sim (inst_of (encode Format.r4r4i8o8_ifhbs op o))).dp
            ≡ o.op0.i % 16)
        × ((cpu_decode_r4x2i8_ifhbs sim (inst_of (encode Format.r4r4i8o8_ifhbs op o))).a
            ≡ sim.cpu.r (o.op1.i % 16))
        × ((cpu_decode_r4x2i8_ifhbs sim (inst_of (encode Format.r4r4i8o8_ifhbs op o))).b ≡ (
            if is_imm (o.op2.type)
            then u8 (o.op2.i)
            else u32 (sim.cpu.r (o.op2.i % 16) + o.op3.i % 16)))
  unfolding encode cpu_match_inst match_class get_cb0_from_format cpu_decode_r4x2i8_ifhbs
  decode-encode op h = elim (Bool-cases (is_imm (o.op2.type))) [
    | inl imm ↦
        let set : test_bit (128 + op) 7 ≡ true = ground arith in
        rw
          (imm, high_bit op h, set, low_nibble (o.op0.i) (o.op1.i), high_nibble (o.op0.i) (o.op1.i))
          (ground arith, refl, refl, refl)
    | inr register ↦
        let clear : test_bit (u8 op) 7 ≡ false = ground arith in
        rw
          (
            register,
            clear,
            low_nibble (o.op0.i) (o.op1.i),
            high_nibble (o.op0.i) (o.op1.i),
            low_nibble (o.op2.i) (o.op3.i),
            high_nibble (o.op2.i) (o.op3.i),
          )
          (ground arith, refl, refl, refl)
  ]

  -- A block instruction assembled from any operands is decoded to their registers, numbered modulo
  -- 16; so is a float instruction, of the float registers.
  pub decode-encode_registers :
      (op : ℕ)
      → (cpu_decode_r4x4 sim (inst_of (encode Format.r4r4r4r4 op o)) ≡ record {
        dp = o.op0.i % 16;
        a = sim.cpu.r (o.op1.i % 16);
        b = sim.cpu.r (o.op2.i % 16);
        c = sim.cpu.r (o.op3.i % 16);
      })
        × (cpu_decode_f4x4 sim (inst_of (encode Format.f4f4f4f4 op o)) ≡ record {
          dp = o.op0.i % 16;
          v0 = sim.cpu.f (o.op1.i % 16);
          v1 = sim.cpu.f (o.op2.i % 16);
          v2 = sim.cpu.f (o.op3.i % 16);
        })
  unfolding encode cpu_decode_r4x4 cpu_decode_f4x4
  decode-encode_registers op =
      rw
        (
          low_loose (o.op0.i) (o.op1.i),
          high_loose (o.op0.i) (o.op1.i),
          low_loose (o.op2.i) (o.op3.i),
          high_loose (o.op2.i) (o.op3.i),
        )
        (refl, refl)
