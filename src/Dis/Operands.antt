-- ===== src/Dis/Operands.antt =====
-- isa/dis.c and isa/asm.c: proofs that the assembler reads the operands that the disassembler prints.
use mathlib.Core.Bool.{false≢true, and-eq-true_iff}
use estros.Common.{
  ℕ, zero, suc, ◌-◌, ◌/◌, ◌%◌, ◌<◌, ◌≡◌, ◌&&◌, ◌||◌, Bool, true, false, not, none, some, Option,
  List, [], ◌∷◌, ◌++◌, length, u8, ltb, ◌==◌, ltb→lt, ==_iff, all_from, all_from_each, refl, arith,
  ap, Bool-cases, inl, inr,
}
use estros.Common.Strings.{isdigit, digit, decimal_text, atoll}
use estros.Asm.Operand.{AsmOperand, asm_parse_asm_operand}
use estros.Asm.Encode.{is_imm}
use estros.Asm.Assemble.Labelled.{AreNot}
use estros.Dis.{char_text, reg_text, number_text}

-- The bytes of the operands.
unfoldable pub is_printed : ℕ → Bool
unfolding isdigit
is_printed c = c == b'$' || c == b'r' || c == b'-' || isdigit c

abbrev pub all_of : (ℕ → Bool) → List ℕ → Bool
all_of test [] = true
all_of test (c ∷ cs) = test c && all_of test cs

abbrev same_bool : Bool → Bool → Bool
same_bool true b = b
same_bool false b = not b

abbrev has_value : Option AsmOperand → (imm : Bool) → (value : ℕ) → Bool
has_value none imm value = false
has_value (some o) imm value = same_bool imm (is_imm o.type) && u8 o.i == value

unfoldable is_piece : (imm : Bool) → (value : ℕ) → List ℕ → Bool
unfolding is_printed asm_parse_asm_operand
is_piece imm value text =
    all_of is_printed text
    && (ltb (length text) 5 && has_value (asm_parse_asm_operand text) imm value)

-- A text between commas that is parsed to an operand with the value.
pub record IsPiece (imm : Bool) (value : ℕ) (text : List ℕ) : Type 0 where
  pub printed : AreNot (λ c. not (is_printed c)) text
  pub short : length text < 5
  pub operand : AsmOperand
  pub parsed : asm_parse_asm_operand text ≡ some operand
  pub same_type : is_imm operand.type ≡ imm
  pub same_value : u8 operand.i ≡ value

pub all_of-AreNot :
    (test : ℕ → Bool) (cs : List ℕ) → all_of test cs ≡ true → AreNot (λ c. not (test c)) cs
all_of-AreNot test [] h = tt
all_of-AreNot test (c ∷ cs) h =
    let (here, later) = (and-eq-true_iff _ _).0 h in (ap not here, all_of-AreNot test cs later)

same_bool-eq : (a b : Bool) → same_bool a b ≡ true → b ≡ a
same_bool-eq true b h = h
same_bool-eq false true h = absurd (false≢true h)
same_bool-eq false false h = refl

has_value-operand :
    (r : Option AsmOperand) (imm : Bool) (value : ℕ)
    → has_value r imm value ≡ true
    → (o : AsmOperand) × (r ≡ some o) × (is_imm o.type ≡ imm) × (u8 o.i ≡ value)
has_value-operand none imm value h = absurd (false≢true h)
has_value-operand (some o) imm value h =
    let (type, number) = (and-eq-true_iff _ _).0 h in
    (o, refl, same_bool-eq imm _ type, (==_iff _ _).0 number)

is_piece-IsPiece :
    (imm : Bool) (value : ℕ) (text : List ℕ)
    → is_piece imm value text ≡ true
    → IsPiece imm value text
unfolding is_piece
is_piece-IsPiece imm value text h =
    let (printed, rest) = (and-eq-true_iff _ _).0 h in
    let (short, valued) = (and-eq-true_iff _ _).0 rest in
    let (o, parsed, type, number) = has_value-operand _ imm value valued in
    record {
      printed = all_of-AreNot is_printed text printed;
      short = ltb→lt _ _ short;
      operand = o;
      parsed = parsed;
      same_type = type;
      same_value = number;
    }

-- The texts of the registers, of the small numbers and of the immediates, by evaluation.
pub reg-IsPiece : (n : ℕ) → n < 16 → IsPiece false n (reg_text b'r' n [])
unfolding is_piece all_from decimal_text atoll isdigit
reg-IsPiece n h =
    is_piece-IsPiece false n _
      (all_from_each 16 0 (λ n. is_piece false n (reg_text b'r' n [])) n (omega arith) h refl)

pub small-IsPiece : (n : ℕ) → n < 16 → IsPiece true n (number_text n [])
unfolding is_piece all_from decimal_text atoll isdigit
small-IsPiece n h =
    is_piece-IsPiece true n _
      (all_from_each 16 0 (λ n. is_piece true n (number_text n [])) n (omega arith) h refl)

pub char-IsPiece : (b : ℕ) → b < 256 → IsPiece true b (char_text b [])
unfolding is_piece all_from decimal_text atoll isdigit char_text
char-IsPiece b h =
    is_piece-IsPiece true b _
      (all_from_each 256 0 (λ b. is_piece true b (char_text b [])) b (omega arith) h refl)

-- A text in front of a text.
decimal_text-append :
    (left value : ℕ) (ds later : List ℕ)
    → decimal_text left value (ds ++ later) ≡ decimal_text left value ds ++ later
unfolding decimal_text
decimal_text-append zero value ds later = refl
decimal_text-append (suc left) value ds later = elim (Bool-cases (ltb value 10)) [
  | inl h ↦ rw (decimal_text, h) refl
  | inr h ↦
      rw (decimal_text, h) (decimal_text-append left (value / 10) (digit (value % 10) ∷ ds) later)
]

pub reg_text-append :
    (letter n : ℕ) (later : List ℕ) → reg_text letter n later ≡ reg_text letter n [] ++ later
reg_text-append letter n later = ap (λ ds. b'$' ∷ letter ∷ ds) (decimal_text-append 2 n [] later)

pub char_text-append : (b : ℕ) (later : List ℕ) → char_text b later ≡ char_text b [] ++ later
unfolding char_text
char_text-append b later = elim (Bool-cases (ltb b 128)) [
  | inl h ↦ rw (char_text, h) (decimal_text-append 3 b [] later)
  | inr h ↦ rw (char_text, h) (ap (λ ds. b'-' ∷ ds) (decimal_text-append 3 (256 - b) [] later))
]
