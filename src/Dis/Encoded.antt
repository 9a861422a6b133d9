-- ===== src/Dis/Encoded.antt =====
-- isa/dis.c and isa/asm.c: proofs that the operands of a printed instruction are encoded to its bytes.
use estros.Common.{
  ℕ, ◌%◌, ◌<◌, ◌≡◌, true, false, [], ◌∷◌, low4, high4, test_bit, u8, bit_or, refl, arith, ◌∙◌,
}
use estros.Isa.{Format}
use estros.Asm.Encode.{Operands, is_imm, encode, nibbles, loose_nibbles}
use estros.Asm.Encode.RoundTrip.{high_bit, nibbles_value, loose_nibbles_value}

bytes-eq :
    (a b c a' b' c' : ℕ) → a ≡ a' → b ≡ b' → c ≡ c' → (0 ∷ a ∷ b ∷ c ∷ []) ≡ (0 ∷ a' ∷ b' ∷ c' ∷ [])
bytes-eq a b c a' b' c' h k l = rw (h, k, l) refl

-- Two numbers with the halves of a byte.
nibbles-halves : (x y b : ℕ) → u8 x ≡ low4 b → u8 y ≡ high4 b → b < 256 → nibbles x y ≡ b
nibbles-halves x y b h k small = rw (nibbles_value x y) (omega arith)

loose_nibbles-halves :
    (x y b : ℕ) → u8 x ≡ low4 b → u8 y ≡ high4 b → b < 256 → loose_nibbles x y ≡ b
loose_nibbles-halves x y b h k small = rw (loose_nibbles_value x y) (omega arith)

module _ (o : Operands) (b1 b2 b3 : ℕ) (byte1 : b1 < 256) (byte2 : b2 < 256) (byte3 : b3 < 256)
    (first : u8 o.op0.i ≡ low4 b1) (second : u8 o.op1.i ≡ high4 b1) where
  pub encode_immediate :
      u8 o.op2.i ≡ b2
      → is_imm o.op2.type ≡ true
      → test_bit b3 7 ≡ true
      → encode Format.r4r4i8o8_ifhbs (b3 % 128) o ≡ (0 ∷ b1 ∷ b2 ∷ b3 ∷ [])
  unfolding encode
  encode_immediate third imm set =
      let code : bit_or (u8 (b3 % 128)) 0x80 ≡ b3 =
        high_bit (b3 % 128) (omega arith) ∙ ground arith in
      rw imm (bytes-eq _ _ _ _ _ _ (nibbles-halves _ _ b1 first second byte1) third code)

  pub encode_register :
      u8 o.op2.i ≡ low4 b2
      → u8 o.op3.i ≡ high4 b2
      → is_imm o.op2.type ≡ false
      → test_bit b3 7 ≡ false
      → encode Format.r4r4i8o8_ifhbs (b3 % 128) o ≡ (0 ∷ b1 ∷ b2 ∷ b3 ∷ [])
  unfolding encode
  encode_register third fourth imm clear =
      let code : u8 (b3 % 128) ≡ b3 = ground arith in
      rw imm (
        bytes-eq _ _ _ _ _ _ (nibbles-halves _ _ b1 first second byte1)
          (nibbles-halves _ _ b2 third fourth byte2) code)

  pub encode_registers :
      u8 o.op2.i ≡ low4 b2
      → u8 o.op3.i ≡ high4 b2
      → b3 < 128
      → encode Format.r4r4r4r4 (b3 % 128) o ≡ (0 ∷ b1 ∷ b2 ∷ b3 ∷ [])
  unfolding encode
  encode_registers third fourth small =
      let code : u8 (b3 % 128) ≡ b3 = omega arith in
      bytes-eq _ _ _ _ _ _ (loose_nibbles-halves _ _ b1 first second byte1)
        (loose_nibbles-halves _ _ b2 third fourth byte2) code
