-- ===== src/Asm/Assemble.antt =====
-- isa/asm.c, lines 258 to 306: the loop over the lines, the search of a label and the fixups.
pub mod Labelled
pub mod Fixup
pub mod Offsets
use estros.Common.{
  ℕ, zero, suc, ◌+◌, ◌-◌, ◌^◌, true, false, List, [], ◌∷◌, ◌++◌, u8, u32, ltb, leb, ◌==◌,
  if◌then◌else◌, length,
}
use estros.Common.Strings.{str_eq, before}
use estros.Asm.State.{
  AsmState, AsmLabel, AsmFixup, fixup_none, fixup_rel_o16s8, Result, ok, aborted, undefined, ◌>>=◌,
  asm_initialise,
}
use estros.Asm.Line.{asm_process_line}

-- A line as `asm_process_line` sees it: up to its newline and to a byte 0, if the input has one.
abbrev pub c_line : List ℕ → List ℕ
c_line line = before (λ c. c == 0) line

-- What is left after the last newline is a line of its own, unless it is empty. The terminator is
-- written one place behind it.
unfoldable pub last_line : (bufsiz : ℕ) → AsmState → (line : List ℕ) → Result AsmState
unfolding asm_process_line
last_line bufsiz state [] = ok state
last_line bufsiz state (c ∷ cs) =
    if ltb (length (c ∷ cs) + 1) bufsiz then asm_process_line state (c_line (c ∷ cs)) else undefined

-- The lines of the input; `line` holds what is read of the present one. A line whose bytes and
-- newline exceed the buffer, of `bufsiz` bytes, overflows it.
unfoldable pub assemble_lines : (bufsiz : ℕ) → AsmState → (line input : List ℕ) → Result AsmState
unfolding asm_process_line last_line
assemble_lines bufsiz state line [] = last_line bufsiz state line
assemble_lines bufsiz state line (c ∷ cs) = elim (c == 10) [
  | true ↦ do
    state' ←
        if leb (length line + 1) bufsiz then asm_process_line state (c_line line) else undefined
    assemble_lines bufsiz state' [] cs
  | false ↦ assemble_lines bufsiz state (line ++ (c ∷ [])) cs
]

unfoldable pub asm_assemble : (bufsiz : ℕ) → AsmState → (input : List ℕ) → Result AsmState
unfolding assemble_lines
asm_assemble bufsiz state input = assemble_lines bufsiz state [] input

unfoldable pub asm_find_label : List AsmLabel → List ℕ → Result AsmLabel
unfolding str_eq
asm_find_label [] name = aborted
asm_find_label (l ∷ ls) name =
    let rest = asm_find_label ls name in if str_eq (l.name) name then ok l else rest

-- `out[i] = v`, for an `i` inside the output.
unfoldable pub patch : List ℕ → (i v : ℕ) → List ℕ
patch [] i v = []
patch (b ∷ bs) zero v = v ∷ bs
patch (b ∷ bs) (suc i) v = b ∷ patch bs i v

-- One round of asm_fixup. A distance that does not fit 8 bits is reported and stored cut off.
unfoldable pub fixup_one : List AsmLabel → AsmFixup → (out : List ℕ) → Result (List ℕ)
unfolding asm_find_label patch
fixup_one labels f out = do
  l ← asm_find_label labels (f.name)
  elim (f.type) [
    | fixup_rel_o16s8 ↦ ok (patch out (f.offset + 2) (u8 (u32 (l.pc + 2 ^ 32 - f.pc))))
    | fixup_none ↦ aborted
  ]

unfoldable pub fixup_all : List AsmLabel → List AsmFixup → (out : List ℕ) → Result (List ℕ)
unfolding fixup_one
fixup_all labels [] out = ok out
fixup_all labels (f ∷ fs) out = do out' ← fixup_one labels f out; fixup_all labels fs out'

unfoldable pub asm_fixup : AsmState → Result AsmState
unfolding fixup_all
asm_fixup state = do
  out ← fixup_all (state.labels) (state.fixups) (state.out)
  ok (record state { out = out })

-- The calls of main, from the text of the input to the bytes of the output.
unfoldable pub assemble : (bufsiz : ℕ) → (input : List ℕ) → Result (List ℕ)
unfolding asm_assemble asm_fixup asm_initialise
assemble bufsiz input = do
  state ← asm_assemble bufsiz asm_initialise input
  fixed ← asm_fixup state
  ok (fixed.out)
