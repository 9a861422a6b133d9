-- ===== src/Dis/RoundTrip.antt =====
-- isa/dis.c and isa/asm.c: proofs that the assembler gives back the bytes that were disassembled.
use estros.Common.{ℕ, ◌+◌, ◌≡◌, true, List, [], ◌∷◌, ◌++◌, length, u32, leb, refl, arith, ap, ◌∙◌}
use estros.Isa.{inst_table}
use estros.Asm.State.{Result, ok, ◌>>=◌, asm_initialise}
use estros.Asm.Assemble.{assemble, asm_assemble, asm_fixup, assemble_lines, last_line}
use estros.Asm.Assemble.Labelled.{assemble_lines-append, append_none, append_one}
use estros.Dis.{print_first, dis_round, dis_disassemble}
use estros.Dis.Read.{Word, IsWord, inst}
use estros.Dis.Printed.{plain_state, word_bytes, IsLine, word-IsLine}

-- The bytes of a sequence of instructions.
abbrev pub bytes_of : List Word → List ℕ
bytes_of [] = []
bytes_of (w ∷ ws) = 0 ∷ w.b1 ∷ w.b2 ∷ w.b3 ∷ bytes_of ws

abbrev pub AreWords : List Word → Type 0
AreWords [] = Unit
AreWords (w ∷ ws) = IsWord w × AreWords ws

append_assoc : (xs ys zs : List ℕ) → (xs ++ ys) ++ zs ≡ xs ++ (ys ++ zs)
append_assoc [] ys zs = refl
append_assoc (x ∷ xs) ys zs = ap (λ rest. x ∷ rest) (append_assoc xs ys zs)

first_line :
    (w : Word) (l : IsLine w) (out later : List ℕ) (pc : ℕ)
    → assemble_lines 8192 (plain_state out pc) [] (l.line ++ 10 ∷ later)
      ≡ assemble_lines 8192 (plain_state (out ++ word_bytes w) (u32 (pc + 4))) [] later
first_line w l out later pc =
    let fits : leb (length l.line + 1) 8192 ≡ true = ground (arith, l.short) in
    rw
      (
        assemble_lines-append 8192 (plain_state out pc) [] l.line later l.one_line,
        fits,
        l.whole,
        l.assembled out pc,
      )
      refl

round_word :
    (w : Word) (after_one : Result (List ℕ)) (rest : List ℕ)
    → dis_round (inst w) after_one (ok rest) ≡ ok (print_first inst_table (inst w) ++ rest)
unfolding dis_round
round_word w after_one rest = refl

-- What is printed for the instructions, and what the assembler makes of it.
record IsPrinted (ws : List Word) : Type 0 where
  text : List ℕ
  disassembled : dis_disassemble (bytes_of ws) ≡ ok text
  assembled :
      (out : List ℕ) (pc : ℕ)
      → (pc' : ℕ) × (assemble_lines 8192 (plain_state out pc) [] text
          ≡ ok (plain_state (out ++ bytes_of ws) pc'))

words-IsPrinted : (ws : List Word) → AreWords ws → IsPrinted ws
unfolding dis_disassemble assemble_lines last_line
words-IsPrinted [] h = record {
  text = [];
  disassembled = refl;
  assembled = λ out pc. (pc, rw (append_none out) refl);
}
words-IsPrinted (w ∷ ws) (is_word, are_words) =
    let l = word-IsLine w is_word in
    let rest = words-IsPrinted ws are_words in
    record {
      text = l.line ++ 10 ∷ rest.text;
      disassembled =
          ap (dis_round (inst w) (dis_disassemble (w.b1 ∷ w.b2 ∷ w.b3 ∷ bytes_of ws)))
            rest.disassembled
          ∙ round_word w (dis_disassemble (w.b1 ∷ w.b2 ∷ w.b3 ∷ bytes_of ws)) rest.text
          ∙ ap (λ line. ok (line ++ rest.text)) l.printed
          ∙ ap ok (append_one l.line 10 rest.text);
      assembled = λ out pc.
          let (pc', is) = rest.assembled (out ++ word_bytes w) (u32 (pc + 4)) in
          (
            pc',
            first_line w l out rest.text pc
                ∙ is
                ∙ ap (λ bytes. ok (plain_state bytes pc'))
                    (append_assoc out (word_bytes w) (bytes_of ws)),
          );
    }

-- The disassembler prints any sequence of integer and block instructions, each with 0 for its first
-- byte, an opcode of the table with either high bit for an integer one and any two bytes between, as a
-- text that the assembler turns back into the same bytes.
pub assemble-dis_disassemble :
    (ws : List Word)
    → AreWords ws
    → (text : List ℕ) × (dis_disassemble (bytes_of ws) ≡ ok text)
      × (assemble 8192 text ≡ ok (bytes_of ws))
unfolding assemble asm_assemble asm_initialise asm_fixup
assemble-dis_disassemble ws h =
    let p = words-IsPrinted ws h in
    let (pc', is) = p.assembled [] 0 in
    (
      p.text,
      p.disassembled,
      ap (λ result. result >>= λ state. (asm_fixup state >>= λ fixed. ok fixed.out)) is,
    )
