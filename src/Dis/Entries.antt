-- ===== src/Dis/Entries.antt =====
-- isa/isa.h, isa/dis.c and isa/asm.c: proofs on the entry that the disassembler finds for an opcode.
use mathlib.Core.Bool.{false≢true, and-eq-true_iff}
use estros.Common.{
  ℕ, ◌%◌, ◌<◌, ◌≡◌, ◌&&◌, ◌||◌, ◌==◌, Bool, true, false, not, Option, none, some, List, [], ◌∷◌,
  length, ltb, ltb→lt, ==_iff, all_from, all_from_each, Bool-cases, inl, inr, if◌then◌else◌, refl,
  sym, arith, ap, ◌∙◌,
}
use estros.Common.Strings.{codes, isspace}
use estros.Isa.{Format, Entry, inst_table}
use estros.Sim.State.{Inst}
use estros.Asm.Encode.{find_mnemonic}
use estros.Asm.Assemble.Labelled.{AreNot, AreNot-implies, is_special}
use estros.Dis.{dis_print_format, print_first}
use estros.Dis.Operands.{all_of, all_of-AreNot}

unfoldable pub first_entry : List Entry → (op : ℕ) → Option Entry
first_entry [] op = none
first_entry (e ∷ es) op = let rest = first_entry es op in if e.op == op then some e else rest

abbrev pub entry_text : Inst → Option Entry → List ℕ
entry_text ob none = []
entry_text ob (some e) = dis_print_format ob e.name e.format

pub print_first_entry :
    (es : List Entry) (ob : Inst) → print_first es ob ≡ entry_text ob (first_entry es (ob.b3 % 128))
unfolding print_first first_entry
print_first_entry [] ob = refl
print_first_entry (e ∷ es) ob = elim (Bool-cases (e.op == ob.b3 % 128)) [
  | inl h ↦ rw (print_first, first_entry, h) refl
  | inr h ↦ rw (print_first, first_entry, h) (print_first_entry es ob)
]

-- The formats of integer and block instructions; a block instruction's opcode has no high bit.
abbrev pub has_operands : Format → Bool
has_operands Format.r4r4i8o8_ifhbs = true
has_operands Format.r4r4r4r4 = true
has_operands _ = false

abbrev pub fits_format : Format → (b3 : ℕ) → Bool
fits_format Format.r4r4i8o8_ifhbs b3 = ltb b3 256
fits_format Format.r4r4r4r4 b3 = ltb b3 128
fits_format _ b3 = false

abbrev fits_entry : Option Entry → (b3 : ℕ) → Bool
fits_entry none b3 = false
fits_entry (some e) b3 = fits_format e.format b3

-- The opcode byte of an integer instruction, with either high bit, or of a block instruction.
unfoldable pub is_operand_opcode : (b3 : ℕ) → Bool
unfolding first_entry
is_operand_opcode b3 = fits_entry (first_entry inst_table (b3 % 128)) b3

abbrev pub same_format : Format → Format → Bool
same_format Format.r4r4i8o8_ifhbs Format.r4r4i8o8_ifhbs = true
same_format Format.r4r4r4r4 Format.r4r4r4r4 = true
same_format _ _ = false

abbrev found_same : Option Entry → Format → (op : ℕ) → Bool
found_same none format op = false
found_same (some e) format op = same_format format e.format && e.op == op

abbrev good_name : List ℕ → Bool
good_name [] = false
good_name name = all_of (λ c. not (is_special c)) name && ltb (length name) 8

abbrev good_entry : (op : ℕ) → Option Entry → Bool
good_entry op none = true
good_entry op (some e) =
    not (has_operands e.format)
    || (good_name (codes e.name)
        && found_same (find_mnemonic inst_table (codes e.name)) e.format op)

good_table : all_from 128 0 (λ op. good_entry op (first_entry inst_table op)) ≡ true
unfolding all_from first_entry inst_table find_mnemonic is_special isspace
good_table = refl

-- What the round trip uses of the entry that is found for an opcode byte.
pub record IsListed (b3 : ℕ) : Type 0 where
  pub entry : Entry
  pub is_first : first_entry inst_table (b3 % 128) ≡ some entry
  pub fits : fits_format entry.format b3 ≡ true
  pub initial : ℕ
  pub others : List ℕ
  pub is_name : codes entry.name ≡ initial ∷ others
  pub plain : AreNot is_special (initial ∷ others)
  pub short : length (initial ∷ others) < 8
  pub named : Entry
  pub is_named : find_mnemonic inst_table (initial ∷ others) ≡ some named
  pub same : same_format entry.format named.format ≡ true
  pub opcode : named.op ≡ b3 % 128

not_not : (b : Bool) → not (not b) ≡ b
not_not true = refl
not_not false = refl

fits-has_operands :
    (format : Format) (b3 : ℕ) → fits_format format b3 ≡ true → has_operands format ≡ true
fits-has_operands Format.r4r4i8o8_ifhbs b3 h = refl
fits-has_operands Format.r4r4r4r4 b3 h = refl
fits-has_operands _ b3 h = absurd (false≢true h)

found_same-named :
    (r : Option Entry) (format : Format) (op : ℕ)
    → found_same r format op ≡ true
    → (e : Entry) × (r ≡ some e) × (same_format format e.format ≡ true) × (e.op ≡ op)
found_same-named none format op h = absurd (false≢true h)
found_same-named (some e) format op h =
    let (same, code) = (and-eq-true_iff _ _).0 h in (e, refl, same, (==_iff _ _).0 code)

good-name :
    (name : List ℕ)
    → good_name name ≡ true
    → (c : ℕ) × (cs : List ℕ) × (name ≡ c ∷ cs) × AreNot is_special (c ∷ cs) × (length (c ∷ cs) < 8)
good-name [] h = absurd (false≢true h)
good-name (c ∷ cs) h =
    let (plain, short) = (and-eq-true_iff _ _).0 h in
    (
      c,
      cs,
      refl,
      AreNot-implies _ is_special (c ∷ cs) (λ d k. sym (not_not (is_special d)) ∙ k)
          (all_of-AreNot (λ d. not (is_special d)) (c ∷ cs) plain),
      ltb→lt _ _ short,
    )

or_right : (a b : Bool) → a ≡ true → (not a || b) ≡ true → b ≡ true
or_right true b h k = k
or_right false b h k = absurd (false≢true h)

listed :
    (b3 : ℕ) (r : Option Entry)
    → first_entry inst_table (b3 % 128) ≡ r
    → fits_entry r b3 ≡ true
    → good_entry (b3 % 128) r ≡ true
    → IsListed b3
listed b3 none is fits good = absurd (false≢true fits)
listed b3 (some e) is fits good =
    let checked : (good_name (codes e.name)
          && found_same (find_mnemonic inst_table (codes e.name)) e.format (b3 % 128))
        ≡ true =
      or_right (has_operands e.format) _ (fits-has_operands e.format b3 fits) good in
    let (name, same) = (and-eq-true_iff _ _).0 checked in
    let (c, cs, is_name, plain, short) = good-name (codes e.name) name in
    let (n, is_named, formats, code) = found_same-named _ e.format _ same in
    record {
      entry = e;
      is_first = is;
      fits = fits;
      initial = c;
      others = cs;
      is_name = is_name;
      plain = plain;
      short = short;
      named = n;
      is_named = ap (find_mnemonic inst_table) (sym is_name) ∙ is_named;
      same = formats;
      opcode = code;
    }

pub is_operand_opcode-IsListed : (b3 : ℕ) → is_operand_opcode b3 ≡ true → IsListed b3
unfolding is_operand_opcode
is_operand_opcode-IsListed b3 h = listed b3 _ refl h (
    all_from_each 128 0 (λ op. good_entry op (first_entry inst_table op)) (b3 % 128) (omega arith)
      (omega arith) good_table)
