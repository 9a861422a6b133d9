-- ===== src/Asm/Assemble/Labelled.antt =====
-- isa/asm.c: proofs on asm_assemble for a line in front of others, and for the line of a label.
use estros.Common.{
  ℕ, ◌+◌, ◌<◌, ◌≡◌, refl, Bool, true, false, List, [], ◌∷◌, ◌++◌, ◌||◌, length, length-append,
  lt→ltb, ltb, leb, ◌==◌, if◌then◌else◌, arith, ap,
}
use estros.Common.Strings.{before, from, skip_space, isspace}
use estros.Asm.Operand.{label_name_size}
use estros.Asm.State.{AsmState, undefined, ◌>>=◌}
use estros.Asm.Line.{ends_line, ends_label, add_label, process_text, asm_process_line}
use estros.Asm.Assemble.{c_line, assemble_lines}

-- No byte is one that the test looks for.
abbrev pub AreNot : (ℕ → Bool) → List ℕ → Type 0
AreNot test [] = Unit
AreNot test (c ∷ cs) = (test c ≡ false) × AreNot test cs

pub before-append :
    (test : ℕ → Bool) (cs later : List ℕ)
    → AreNot test cs
    → before test (cs ++ later) ≡ cs ++ before test later
unfolding before
before-append test [] later h = refl
before-append test (c ∷ cs) later h = rw (before, h.0, before-append test cs later h.1) refl

pub from-append :
    (test : ℕ → Bool) (cs later : List ℕ)
    → AreNot test cs
    → from test (cs ++ later) ≡ from test later
unfolding from
from-append test [] later h = refl
from-append test (c ∷ cs) later h = rw (from, h.0, from-append test cs later h.1) refl

pub append_one : (xs : List ℕ) (y : ℕ) (ys : List ℕ) → (xs ++ y ∷ []) ++ ys ≡ xs ++ y ∷ ys
append_one [] y ys = refl
append_one (x ∷ xs) y ys = ap (λ rest. x ∷ rest) (append_one xs y ys)

pub append_none : (xs : List ℕ) → xs ++ [] ≡ xs
append_none [] = refl
append_none (x ∷ xs) = ap (λ rest. x ∷ rest) (append_none xs)

-- A line and its newline, behind what is read of it.
pub assemble_lines-append :
    (bufsiz : ℕ) (state : AsmState) (line cs later : List ℕ)
    → AreNot (λ c. c == 10) cs
    → assemble_lines bufsiz state line (cs ++ 10 ∷ later) ≡ (
        (if leb (length (line ++ cs) + 1) bufsiz
          then asm_process_line state (c_line (line ++ cs))
          else undefined)
        >>= λ after. assemble_lines bufsiz after [] later)
unfolding assemble_lines
assemble_lines-append bufsiz state line [] later h = rw (append_none line) refl
assemble_lines-append bufsiz state line (c ∷ cs) later h =
    rw
      (
        assemble_lines,
        h.0,
        assemble_lines-append bufsiz state (line ++ c ∷ []) cs later h.1,
        append_one line c cs,
      )
      refl

-- The bytes that do not stand for themselves in the name of a label.
unfoldable pub is_special : ℕ → Bool
unfolding isspace
is_special c = c == 0 || c == b'#' || c == b':' || isspace c

pub AreNot-implies :
    (p q : ℕ → Bool) (cs : List ℕ)
    → ((c : ℕ) → p c ≡ false → q c ≡ false)
    → AreNot p cs
    → AreNot q cs
AreNot-implies p q [] h a = tt
AreNot-implies p q (c ∷ cs) h a = (h c a.0, AreNot-implies p q cs h a.1)

pub not_newline : (c : ℕ) → is_special c ≡ false → (c == 10) ≡ false
unfolding is_special isspace
not_newline c h = ground arith

pub not_ends_line : (c : ℕ) → is_special c ≡ false → ends_line c ≡ false
unfolding is_special isspace
not_ends_line c h = ground arith

not_ends_label : (c : ℕ) → is_special c ≡ false → ends_label c ≡ false
unfolding is_special isspace
not_ends_label c h = ground arith

pub not_colon : (c : ℕ) → is_special c ≡ false → (c == b':') ≡ false
unfolding is_special isspace
not_colon c h = ground arith

pub not_zero : (c : ℕ) → is_special c ≡ false → (c == 0) ≡ false
unfolding is_special isspace
not_zero c h = ground arith

pub not_space : (c : ℕ) → is_special c ≡ false → isspace c ≡ false
unfolding is_special isspace
not_space c h = ground arith

AreNot-colon : (cs : List ℕ) → AreNot is_special cs → AreNot (λ c. c == 10) (cs ++ b':' ∷ [])
AreNot-colon [] h = (refl, tt)
AreNot-colon (c ∷ cs) h = (not_newline c h.0, AreNot-colon cs h.1)

-- A name and a colon.
process_label :
    (state : AsmState) (name : List ℕ)
    → AreNot is_special name
    → process_text state (name ++ b':' ∷ []) ≡ add_label state name
unfolding process_text from before
process_label state name h =
    rw
      (
        process_text,
        from-append (λ c. c == b':') name (b':' ∷ []) (AreNot-implies _ _ name not_colon h),
        before-append ends_label name (b':' ∷ []) (AreNot-implies _ _ name not_ends_label h),
        append_none name,
      )
      refl

process_label_line :
    (state : AsmState) (name : List ℕ)
    → AreNot is_special name
    → asm_process_line state (name ++ b':' ∷ []) ≡ add_label state name
unfolding asm_process_line skip_space before
process_label_line state [] h = process_label state [] h
process_label_line state (c ∷ cs) h =
    rw
      (
        asm_process_line,
        before-append ends_line (c ∷ cs) (b':' ∷ []) (AreNot-implies _ _ (c ∷ cs) not_ends_line h),
        not_space c h.0,
      )
      (process_label state (c ∷ cs) h)

-- The line of a label whose name fits adds the label at the present address.
pub assemble_lines-label :
    (bufsiz : ℕ) (state : AsmState) (name later : List ℕ)
    → AreNot is_special name
    → length name < label_name_size
    → label_name_size < bufsiz
    → assemble_lines bufsiz state [] ((name ++ b':' ∷ []) ++ 10 ∷ later)
      ≡ assemble_lines bufsiz
          (record state { labels = state.labels ++ record { name = name; pc = state.pc } ∷ [] })
          []
          later
unfolding add_label before
assemble_lines-label bufsiz state name later h short room =
    let line = name ++ b':' ∷ [] in
    let whole : c_line line ≡ line =
      before-append (λ c. c == 0) name (b':' ∷ []) (AreNot-implies _ _ name not_zero h) in
    let fits : leb (length line + 1) bufsiz ≡ true =
      ground (arith, length-append name (b':' ∷ [])) in
    let small : ltb (length name) label_name_size ≡ true = lt→ltb _ _ short in
    let one_line : AreNot (λ c. c == 10) line = AreNot-colon name h in
    rw
      (
        assemble_lines-append bufsiz state [] line later one_line,
        fits,
        whole,
        process_label_line state name h,
        small,
      )
      refl
