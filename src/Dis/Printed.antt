-- ===== src/Dis/Printed.antt =====
-- isa/dis.c and isa/asm.c: proofs on the line of an instruction.
use mathlib.Core.Bool.{false≢true}
use estros.Common.{
  ℕ, ◌+◌, ◌%◌, ◌<◌, ◌≡◌, ◌==◌, Bool, true, false, some, List, [], ◌∷◌, ◌++◌, length, u32, refl,
  arith, ap, ◌∙◌,
}
use estros.Isa.{Format, Entry, inst_table}
use estros.Asm.State.{AsmState, ok}
use estros.Asm.Encode.{Operands, encode, find_mnemonic, emit, asm_firstpass, new_fixups}
use estros.Asm.Line.{add_instruction, asm_process_line}
use estros.Asm.Assemble.{c_line}
use estros.Asm.Assemble.Labelled.{AreNot, AreNot-implies, is_special, not_newline, not_zero}
use estros.Dis.{dis_print_format, operand_text, padded, print_first}
use estros.Dis.Line.{before_all, process_printed, padded-AreNot, length-padded, padded-append}
use estros.Dis.Entries.{
  IsListed, is_operand_opcode-IsListed, print_first_entry, entry_text, same_format,
}
use estros.Dis.Read.{Word, IsWord, inst, IsRead}
use estros.Dis.Words.{word-IsRead}

-- The assembler's state without labels and fixups.
abbrev pub plain_state : (out : List ℕ) → (pc : ℕ) → AsmState
plain_state out pc = record { out = out; labels = []; fixups = []; pc = pc }

abbrev pub word_bytes : Word → List ℕ
word_bytes w = 0 ∷ w.b1 ∷ w.b2 ∷ w.b3 ∷ []

-- The line of an instruction, without its newline.
pub record IsLine (w : Word) : Type 0 where
  pub line : List ℕ
  pub printed : print_first inst_table (inst w) ≡ line ++ 10 ∷ []
  pub one_line : AreNot (λ c. c == 10) line
  pub whole : c_line line ≡ line
  pub short : length line < 8191
  pub assembled :
      (out : List ℕ) (pc : ℕ)
      → asm_process_line (plain_state out pc) line
        ≡ ok (plain_state (out ++ word_bytes w) (u32 (pc + 4)))

same_format-eq : (f g : Format) → same_format f g ≡ true → g ≡ f
same_format-eq Format.r4r4i8o8_ifhbs Format.r4r4i8o8_ifhbs h = refl
same_format-eq Format.r4r4r4r4 Format.r4r4r4r4 h = refl
same_format-eq _ _ h = absurd (false≢true h)

instruction_added :
    (state : AsmState) (name : List ℕ) (o : Operands) (e : Entry)
    → find_mnemonic inst_table name ≡ some e
    → add_instruction state name o
      ≡ record (emit state e o).1 { pc = u32 ((emit state e o).1.pc + (emit state e o).0) }
unfolding add_instruction asm_firstpass
instruction_added state name o e h = rw (add_instruction, asm_firstpass, h) refl

instruction_emitted :
    (out bytes : List ℕ) (pc : ℕ) (o : Operands) (e : Entry) (f : Format) (op : ℕ)
    → e.format ≡ f
    → e.op ≡ op
    → encode f op o ≡ bytes
    → new_fixups f (plain_state out pc) o ≡ []
    → emit (plain_state out pc) e o ≡ (length bytes, plain_state (out ++ bytes) pc)
unfolding emit
instruction_emitted out bytes pc o e f op hf ho hb hn = rw (emit, hf, ho, hb, hn) refl

-- The line of an instruction.
abbrev line_text : (w : Word) → IsListed w.b3 → List ℕ
line_text w l = 9 ∷ padded 8 (l.initial ∷ l.others) (operand_text (inst w) l.entry.format)

line_printed :
    (w : Word) (l : IsListed w.b3) → print_first inst_table (inst w) ≡ line_text w l ++ 10 ∷ []
unfolding dis_print_format
line_printed w l =
    let ops = operand_text (inst w) l.entry.format in
    print_first_entry inst_table (inst w)
    ∙ ap (entry_text (inst w)) l.is_first
    ∙ ap (λ name. 9 ∷ padded 8 name (ops ++ 10 ∷ [])) l.is_name
    ∙ ap (λ rest. 9 ∷ rest) (padded-append 8 (l.initial ∷ l.others) ops (10 ∷ []))

line_assembled :
    (w : Word) (l : IsListed w.b3)
    (r : IsRead w l.entry.format (operand_text (inst w) l.entry.format)) (out : List ℕ) (pc : ℕ)
    → asm_process_line (plain_state out pc) (line_text w l)
      ≡ ok (plain_state (out ++ word_bytes w) (u32 (pc + 4)))
line_assembled w l r out pc =
    let state = plain_state out pc in
    let name = l.initial ∷ l.others in
    process_printed state l.initial l.others (operand_text (inst w) l.entry.format) r.operands
      l.plain r.plain r.start r.read l.short
    ∙ ap ok (
        instruction_added state name r.operands l.named l.is_named
        ∙ ap (λ emitted. record emitted.1 { pc = u32 (emitted.1.pc + emitted.0) })
            (instruction_emitted out (word_bytes w) pc r.operands l.named l.entry.format
              (w.b3 % 128) (same_format-eq _ _ l.same) l.opcode r.encoded (r.no_fixups state)))

line_short :
    (w : Word) (l : IsListed w.b3)
    (r : IsRead w l.entry.format (operand_text (inst w) l.entry.format))
    → length (line_text w l) < 8191
line_short w l r = omega (
  arith,
  length-padded 8 (l.initial ∷ l.others) (operand_text (inst w) l.entry.format),
  l.short,
  r.short,
)

line-AreNot :
    (w : Word) (l : IsListed w.b3)
    (r : IsRead w l.entry.format (operand_text (inst w) l.entry.format)) (test : ℕ → Bool)
    → ((c : ℕ) → is_special c ≡ false → test c ≡ false)
    → test 9 ≡ false
    → test 32 ≡ false
    → AreNot test (line_text w l)
line-AreNot w l r test h tab blank =
    let name = l.initial ∷ l.others in
    let ops = operand_text (inst w) l.entry.format in
    (
      tab,
      padded-AreNot test 8 name ops blank (AreNot-implies is_special test name h l.plain)
          (AreNot-implies is_special test ops h r.plain),
    )

pub word-IsLine : (w : Word) → IsWord w → IsLine w
word-IsLine w (byte1, byte2, byte3, opcode) =
    let l = is_operand_opcode-IsListed w.b3 opcode in
    let r = word-IsRead w byte1 byte2 byte3 l.entry.format l.fits in
    record {
      line = line_text w l;
      printed = line_printed w l;
      one_line = line-AreNot w l r (λ c. c == 10) not_newline refl refl;
      whole =
          before_all (λ c. c == 0) (line_text w l)
            (line-AreNot w l r (λ c. c == 0) not_zero refl refl);
      short = line_short w l r;
      assembled = line_assembled w l r;
    }
