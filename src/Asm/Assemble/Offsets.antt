-- ===== src/Asm/Assemble/Offsets.antt =====
-- isa/asm.c, asm_assemble: proofs on the address, the length of the output and the fixups.
use estros.Common.{
  ℕ, ◌+◌, ◌≤◌, ◌≡◌, inl, inr, true, false, List, [], ◌∷◌, ◌++◌, u32, length, length-append, arith,
  ltb, leb, Bool-cases, Option-cases, List-cases, ◌==◌, if◌then◌else◌,
}
use estros.Common.{Bool}
use estros.Common.Strings.{before, from, skip_space, tail_of}
use estros.Isa.{Format, Entry, inst_table}
use estros.Asm.Operand.{label_name_size}
use estros.Asm.Encode.{is_label}
use estros.Asm.Line.{is_blank, ends_line, split_operands, parse_operands}
use estros.Asm.Assemble.{c_line}
use estros.Asm.State.{AsmState, AsmFixup, Result, ok, aborted, undefined, ◌>>=◌, asm_initialise}
use estros.Asm.Encode.{Operands, encode, new_fixups, emit, asm_firstpass, find_mnemonic}
use estros.Asm.Line.{add_instruction, add_label, process_text, asm_process_line}
use estros.Asm.Assemble.{last_line, assemble_lines, asm_assemble}

-- Each fixup was noted at its own offset and has a whole instruction in the `n` bytes of output.
abbrev pub AreInside : (n : ℕ) → List AsmFixup → Type 0
AreInside n [] = Unit
AreInside n (f ∷ fs) = (f.pc ≡ f.offset) × (f.offset + 4 ≤ n) × AreInside n fs

-- `pc` is the length of the output, in 32 bits, and the fixups lie inside it.
pub record IsAligned (state : AsmState) : Type 0 where
  pub pc : state.pc ≡ u32 (length (state.out))
  pub fixups : AreInside (length (state.out)) (state.fixups)

abbrev pub Aligns : Result AsmState → Type 0
Aligns (ok state) = IsAligned state
Aligns aborted = Unit
Aligns undefined = Unit

AreInside-le : (n m : ℕ) (fs : List AsmFixup) → n ≤ m → AreInside n fs → AreInside m fs
AreInside-le n m [] h p = tt
AreInside-le n m (f ∷ fs) h (same, fits, rest) = (same, omega arith, AreInside-le n m fs h rest)

AreInside-append :
    (n : ℕ) (fs gs : List AsmFixup) → AreInside n fs → AreInside n gs → AreInside n (fs ++ gs)
AreInside-append n [] gs p q = q
AreInside-append n (f ∷ fs) gs (same, fits, rest) q = (same, fits, AreInside-append n fs gs rest q)

>>=-Aligns :
    {A : Type 0} (r : Result A) (next : A → Result AsmState)
    → ((x : A) → Aligns (next x))
    → Aligns (r >>= next)
>>=-Aligns (ok x) next h = h x
>>=-Aligns aborted next h = tt
>>=-Aligns undefined next h = tt

new_fixups-AreInside :
    (format : Format) (op : ℕ) (state : AsmState) (o : Operands)
    → state.pc ≡ u32 (length (state.out))
    → AreInside (length (state.out ++ encode format op o)) (new_fixups format state o)
unfolding encode new_fixups
new_fixups-AreInside Format.r4u4ra8o8 op state o h = elim (Bool-cases (is_label (o.op1.type))) [
  | inl label ↦
      rw label (h, omega (arith, length-append (state.out) (encode Format.r4u4ra8o8 op o)), tt)
  | inr other ↦ rw other tt
]
new_fixups-AreInside _ op state o h = tt

emit-IsAligned :
    (state : AsmState) (e : Entry) (o : Operands)
    → IsAligned state
    → IsAligned
        (record (emit state e o).1 { pc = u32 ((emit state e o).1.pc + (emit state e o).0) })
unfolding emit
emit-IsAligned state e o v =
    let longer = length-append (state.out) (encode (e.format) (e.op) o) in
    record {
      pc = omega (arith, longer, v.pc);
      fixups =
          AreInside-append _ (state.fixups) (new_fixups (e.format) state o)
            (AreInside-le _ _ (state.fixups) (omega (arith, longer)) (v.fixups))
            (new_fixups-AreInside (e.format) (e.op) state o (v.pc));
    }

add_instruction-IsAligned :
    (state : AsmState) (name : List ℕ) (o : Operands)
    → IsAligned state
    → IsAligned (add_instruction state name o)
unfolding add_instruction asm_firstpass
add_instruction-IsAligned state name o v = elim (Option-cases (find_mnemonic inst_table name)) [
  | inl unknown ↦
      rw (asm_firstpass, unknown) (record { pc = omega (arith, v.pc); fixups = v.fixups })
  | inr (e, known) ↦ rw (asm_firstpass, known) (emit-IsAligned state e o v)
]

add_label-Aligns :
    (state : AsmState) (name : List ℕ) → IsAligned state → Aligns (add_label state name)
unfolding add_label
add_label-Aligns state name v = elim (Bool-cases (ltb (length name) label_name_size)) [
  | inl fits ↦ rw fits (record { pc = v.pc; fixups = v.fixups })
  | inr long ↦ rw long tt
]

process_text-Aligns :
    (state : AsmState) (p : List ℕ) → IsAligned state → Aligns (process_text state p)
unfolding process_text
process_text-Aligns state p v = elim (Option-cases (from (λ c. c == b':') p)) [
  | inr (colon, label) ↦ rw (process_text, label) (add_label-Aligns state _ v)
  | inl plain ↦ elim (Option-cases (from is_blank p)) [
    | inr (rest, operands) ↦
        rw (process_text, plain, operands)
          (>>=-Aligns (parse_operands (split_operands 8 (skip_space (tail_of rest)))) _
            (λ o. add_instruction-IsAligned state _ o v))
    | inl bare ↦
        rw (process_text, plain, bare)
          (>>=-Aligns (parse_operands []) (λ o. ok (add_instruction state p o))
            (λ o. add_instruction-IsAligned state p o v))
  ]
]

-- A line keeps it.
pub asm_process_line-Aligns :
    (state : AsmState) (line : List ℕ) → IsAligned state → Aligns (asm_process_line state line)
unfolding asm_process_line
asm_process_line-Aligns state line v = elim (List-cases (skip_space (before ends_line line))) [
  | inl empty ↦ rw (asm_process_line, empty) v
  | inr (c, cs, text) ↦ rw (asm_process_line, text) (process_text-Aligns state (c ∷ cs) v)
]

last_line-Aligns :
    (bufsiz : ℕ) (state : AsmState) (line : List ℕ)
    → IsAligned state
    → Aligns (last_line bufsiz state line)
unfolding last_line
last_line-Aligns bufsiz state [] v = v
last_line-Aligns bufsiz state (c ∷ cs) v = elim (Bool-cases (ltb (length (c ∷ cs) + 1) bufsiz)) [
  | inl fits ↦ rw fits (asm_process_line-Aligns state (c_line (c ∷ cs)) v)
  | inr long ↦ rw long tt
]

if-Aligns : (test : Bool) (r : Result AsmState) → Aligns r → Aligns (if test then r else undefined)
if-Aligns true r h = h
if-Aligns false r h = tt

bind-Aligns :
    (r : Result AsmState) (next : AsmState → Result AsmState)
    → Aligns r
    → ((s : AsmState) → IsAligned s → Aligns (next s))
    → Aligns (r >>= next)
bind-Aligns (ok s) next v h = h s v
bind-Aligns aborted next v h = tt
bind-Aligns undefined next v h = tt

assemble_lines-Aligns :
    (bufsiz : ℕ) (state : AsmState) (line input : List ℕ)
    → IsAligned state
    → Aligns (assemble_lines bufsiz state line input)
unfolding assemble_lines
assemble_lines-Aligns bufsiz state line [] v = last_line-Aligns bufsiz state line v
assemble_lines-Aligns bufsiz state line (c ∷ cs) v = elim (Bool-cases (c == 10)) [
  | inl newline ↦
      rw (Aligns, assemble_lines, newline)
        (bind-Aligns
          (if leb (length line + 1) bufsiz then asm_process_line state (c_line line) else undefined)
          _
          (if-Aligns _ (asm_process_line state (c_line line))
            (asm_process_line-Aligns state (c_line line) v))
          (λ s w. assemble_lines-Aligns bufsiz s [] cs w))
  | inr other ↦
      rw (Aligns, assemble_lines, other)
        (assemble_lines-Aligns bufsiz state (line ++ (c ∷ [])) cs v)
]

-- Whatever the text, a first pass that comes to its end leaves `pc` at the length of the output in 32
-- bits, and each fixup at its own address with the four bytes of its instruction inside the output, so
-- that asm_fixup patches no byte outside it.
pub asm_assemble-Aligns :
    (bufsiz : ℕ) (input : List ℕ) → Aligns (asm_assemble bufsiz asm_initialise input)
unfolding asm_assemble asm_initialise
asm_assemble-Aligns bufsiz input =
    assemble_lines-Aligns bufsiz asm_initialise [] input (record { pc = omega arith; fixups = tt })
