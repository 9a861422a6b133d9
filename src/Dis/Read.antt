-- ===== src/Dis/Read.antt =====
-- isa/dis.c and isa/asm.c: proofs that the assembler gives back the bytes that were disassembled.
use estros.Common.{ℕ, ◌%◌, ◌<◌, ◌≡◌, Bool, true, List, [], ◌∷◌, ◌++◌, length, refl, arith, ap, ◌∙◌}
use estros.Common.Strings.{skip_space}
use estros.Isa.{Format}
use estros.Sim.State.{Inst}
use estros.Asm.Operand.{no_operand}
use estros.Asm.State.{AsmState, ok}
use estros.Asm.Encode.{Operands, encode, new_fixups}
use estros.Asm.Line.{split_operands, parse_operand, parse_operands}
use estros.Asm.Assemble.Labelled.{AreNot, is_special}
use estros.Dis.{reg_text}
use estros.Dis.Operands.{IsPiece, reg_text-append}
use estros.Dis.Line.{joined, ArePrinted, split_operands-joined, joined-plain}
use estros.Dis.Entries.{is_operand_opcode}

-- The bytes behind the first one, which is 0, of an instruction with operands.
pub record Word : Type 0 where
  pub b1 : ℕ
  pub b2 : ℕ
  pub b3 : ℕ

abbrev pub IsWord : Word → Type 0
IsWord w = (w.b1 < 256) × (w.b2 < 256) × (w.b3 < 256) × (is_operand_opcode w.b3 ≡ true)

abbrev pub inst : Word → Inst
inst w = record { b0 = 0; b1 = w.b1; b2 = w.b2; b3 = w.b3 }

-- What the assembler makes of the text of operands.
pub record IsRead (w : Word) (format : Format) (ops : List ℕ) : Type 0 where
  pub operands : Operands
  pub start : skip_space ops ≡ ops
  pub plain : AreNot is_special ops
  pub short : length ops < 32
  pub read : parse_operands (split_operands 8 ops) ≡ ok operands
  pub encoded : encode format (w.b3 % 128) operands ≡ (0 ∷ w.b1 ∷ w.b2 ∷ w.b3 ∷ [])
  pub no_fixups : (state : AsmState) → new_fixups format state operands ≡ []

pub parse_three :
    (p q r : List ℕ) (i j k : Bool) (x y z : ℕ) (pp : IsPiece i x p) (pq : IsPiece j y q)
    (pr : IsPiece k z r)
    → parse_operands (p ∷ q ∷ r ∷ [])
      ≡ ok (record { op0 = pp.operand; op1 = pq.operand; op2 = pr.operand; op3 = no_operand })
unfolding parse_operands parse_operand
parse_three p q r i j k x y z pp pq pr =
    rw (parse_operands, parse_operand, pp.parsed, pq.parsed, pr.parsed) refl

pub parse_four :
    (p q r s : List ℕ) (i j k l : Bool) (x y z u : ℕ) (pp : IsPiece i x p) (pq : IsPiece j y q)
    (pr : IsPiece k z r) (ps : IsPiece l u s)
    → parse_operands (p ∷ q ∷ r ∷ s ∷ [])
      ≡ ok (record { op0 = pp.operand; op1 = pq.operand; op2 = pr.operand; op3 = ps.operand })
unfolding parse_operands parse_operand
parse_four p q r s i j k l x y z u pp pq pr ps =
    rw (parse_operands, parse_operand, pp.parsed, pq.parsed, pr.parsed, ps.parsed) refl

pub joined-IsRead :
    (w : Word) (format : Format) (ops p : List ℕ) (ps : List (List ℕ)) (o : Operands)
    → ops ≡ joined p ps
    → ArePrinted (p ∷ ps)
    → length ps < 7
    → skip_space (joined p ps) ≡ joined p ps
    → length (joined p ps) < 32
    → parse_operands (p ∷ ps) ≡ ok o
    → encode format (w.b3 % 128) o ≡ (0 ∷ w.b1 ∷ w.b2 ∷ w.b3 ∷ [])
    → ((state : AsmState) → new_fixups format state o ≡ [])
    → IsRead w format ops
joined-IsRead w format ops p ps o is printed room start short parsed encoded fixups = record {
  operands = o;
  start = rw is start;
  plain = rw is (joined-plain p ps printed);
  short = rw is short;
  read = rw is (ap parse_operands (split_operands-joined 8 p ps printed (omega arith)) ∙ parsed);
  encoded = encoded;
  no_fixups = fixups;
}

abbrev pub reg : ℕ → List ℕ
reg n = reg_text b'r' n []

pub two_registers :
    (d a : ℕ) (last : List ℕ)
    → reg_text b'r' d (b',' ∷ reg_text b'r' a (b',' ∷ last))
      ≡ reg d ++ b',' ∷ (reg a ++ b',' ∷ last)
two_registers d a last =
    reg_text-append b'r' d _ ∙ ap (λ t. reg d ++ b',' ∷ t) (reg_text-append b'r' a _)
