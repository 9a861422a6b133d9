-- ===== src/Dis/Words.antt =====
-- isa/dis.c and isa/asm.c: proofs that the operands that are printed for an instruction are read back
-- to its bytes.
use mathlib.Core.Bool.{false≢true}
use estros.Common.{
  ℕ, ◌%◌, ◌<◌, ◌≡◌, Bool, true, false, List, [], ◌∷◌, ◌++◌, length-append, low4, high4, test_bit,
  ltb→lt, Bool-cases, inl, inr, refl, arith, ap, ◌∙◌,
}
use estros.Common.Strings.{skip_space, isspace}
use estros.Isa.{Format}
use estros.Asm.State.{AsmState}
use estros.Asm.Encode.{Operands, encode, new_fixups}
use estros.Dis.{operand_text, number_text, char_text}
use estros.Dis.Operands.{IsPiece, reg-IsPiece, small-IsPiece, char-IsPiece, reg_text-append}
use estros.Dis.Line.{joined}
use estros.Dis.Entries.{fits_format}
use estros.Dis.Encoded.{encode_immediate, encode_register, encode_registers}
use estros.Dis.Read.{Word, inst, IsRead, parse_three, parse_four, joined-IsRead, reg, two_registers}

low_small : (b : ℕ) → low4 b < 16
low_small b = omega arith

high_small : (b : ℕ) → b < 256 → high4 b < 16
high_small b h = omega arith

module _ (w : Word) (byte1 : w.b1 < 256) (byte2 : w.b2 < 256) (byte3 : w.b3 < 256) where
  abbrev d : IsPiece false (low4 w.b1) (reg (low4 w.b1))
  d = reg-IsPiece (low4 w.b1) (low_small w.b1)

  abbrev a : IsPiece false (high4 w.b1) (reg (high4 w.b1))
  a = reg-IsPiece (high4 w.b1) (high_small w.b1 byte1)

  abbrev b : IsPiece false (low4 w.b2) (reg (low4 w.b2))
  b = reg-IsPiece (low4 w.b2) (low_small w.b2)

  immediate-IsRead :
      test_bit w.b3 7 ≡ true
      → IsRead w Format.r4r4i8o8_ifhbs (operand_text (inst w) Format.r4r4i8o8_ifhbs)
  unfolding operand_text skip_space isspace new_fixups
  immediate-IsRead set =
      let i = char-IsPiece w.b2 byte2 in
      let p = reg (low4 w.b1) in
      let q = reg (high4 w.b1) in
      let r = char_text w.b2 [] in
      joined-IsRead w Format.r4r4i8o8_ifhbs (operand_text (inst w) Format.r4r4i8o8_ifhbs) p
        (q ∷ r ∷ []) _ (rw set (two_registers (low4 w.b1) (high4 w.b1) r))
        (d.printed, (a.printed, (i.printed, tt))) (omega arith) refl
        (omega (
          arith,
          length-append p (b',' ∷ (q ++ b',' ∷ r)),
          length-append q (b',' ∷ r),
          d.short,
          a.short,
          i.short,
        ))
        (parse_three p q r false false true _ _ _ d a i)
        (encode_immediate _ w.b1 w.b2 w.b3 byte1 byte2 byte3 d.same_value a.same_value i.same_value
          i.same_type set)
        (λ state. refl)

  -- Four operands, of which the last one is `s`.
  module _ (format : Format) (imm : Bool) (s : List ℕ) (l : IsPiece imm (high4 w.b2) s) where
    abbrev four_text : List ℕ
    four_text = joined (reg (low4 w.b1)) (reg (high4 w.b1) ∷ reg (low4 w.b2) ∷ s ∷ [])

    abbrev four_operands : Operands
    four_operands = record { op0 = d.operand; op1 = a.operand; op2 = b.operand; op3 = l.operand }

    four-IsRead :
        operand_text (inst w) format ≡ four_text
        → encode format (w.b3 % 128) four_operands ≡ (0 ∷ w.b1 ∷ w.b2 ∷ w.b3 ∷ [])
        → ((state : AsmState) → new_fixups format state four_operands ≡ [])
        → IsRead w format (operand_text (inst w) format)
    unfolding skip_space isspace
    four-IsRead is encoded fixups =
        let p = reg (low4 w.b1) in
        let q = reg (high4 w.b1) in
        let r = reg (low4 w.b2) in
        joined-IsRead w format (operand_text (inst w) format) p (q ∷ r ∷ s ∷ []) four_operands is
          (d.printed, (a.printed, (b.printed, (l.printed, tt)))) (omega arith) refl
          (omega (
            arith,
            length-append p (b',' ∷ (q ++ b',' ∷ (r ++ b',' ∷ s))),
            length-append q (b',' ∷ (r ++ b',' ∷ s)),
            length-append r (b',' ∷ s),
            d.short,
            a.short,
            b.short,
            l.short,
          ))
          (parse_four p q r s false false false imm _ _ _ _ d a b l) encoded fixups

  register-IsRead :
      test_bit w.b3 7 ≡ false
      → IsRead w Format.r4r4i8o8_ifhbs (operand_text (inst w) Format.r4r4i8o8_ifhbs)
  unfolding operand_text new_fixups
  register-IsRead clear =
      let l = small-IsPiece (high4 w.b2) (high_small w.b2 byte2) in
      let s = number_text (high4 w.b2) [] in
      four-IsRead Format.r4r4i8o8_ifhbs true s l
        (rw clear (
          two_registers (low4 w.b1) (high4 w.b1) _
          ∙ ap (λ t. reg (low4 w.b1) ++ b',' ∷ (reg (high4 w.b1) ++ b',' ∷ t))
              (reg_text-append b'r' (low4 w.b2) _)))
        (encode_register _ w.b1 w.b2 w.b3 byte1 byte2 byte3 d.same_value a.same_value b.same_value
          l.same_value b.same_type clear)
        (λ state. refl)

  registers-IsRead : w.b3 < 128 → IsRead w Format.r4r4r4r4 (operand_text (inst w) Format.r4r4r4r4)
  unfolding operand_text new_fixups
  registers-IsRead small =
      let l = reg-IsPiece (high4 w.b2) (high_small w.b2 byte2) in
      let s = reg (high4 w.b2) in
      four-IsRead Format.r4r4r4r4 false s l
        (two_registers (low4 w.b1) (high4 w.b1) _
          ∙ ap (λ t. reg (low4 w.b1) ++ b',' ∷ (reg (high4 w.b1) ++ b',' ∷ t))
              (reg_text-append b'r' (low4 w.b2) _))
        (encode_registers _ w.b1 w.b2 w.b3 byte1 byte2 byte3 d.same_value a.same_value b.same_value
          l.same_value small)
        (λ state. refl)

  -- The operands that are printed for an instruction are read back to its bytes.
  pub word-IsRead :
      (format : Format)
      → fits_format format w.b3 ≡ true
      → IsRead w format (operand_text (inst w) format)
  word-IsRead Format.r4r4i8o8_ifhbs fits = elim (Bool-cases (test_bit w.b3 7)) [
    | inl set ↦ immediate-IsRead set
    | inr clear ↦ register-IsRead clear
  ]
  word-IsRead Format.r4r4r4r4 fits = registers-IsRead (ltb→lt _ _ fits)
  word-IsRead _ fits = absurd (false≢true fits)
