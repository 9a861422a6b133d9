-- ===== src/Dis/Line.antt =====
-- isa/dis.c and isa/asm.c: proofs that the assembler reads a line that the disassembler prints.
use estros.Common.{
  ℕ, zero, suc, ◌+◌, ◌-◌, ◌<◌, ◌≤◌, length-append, ◌≡◌, ◌==◌, Bool, false, not, none, List, [], ◌∷◌,
  ◌++◌, length, refl, sym, arith, ap, ◌∙◌,
}
use estros.Common.Strings.{before, from, skip_space, isspace, isdigit, tail_of}
use estros.Asm.State.{AsmState, ok}
use estros.Asm.Encode.{Operands}
use estros.Asm.Line.{
  ends_line, is_blank, split_operands, parse_operands, add_instruction, process_text,
  asm_process_line,
}
use estros.Asm.Assemble.Labelled.{
  AreNot, AreNot-implies, is_special, before-append, from-append, append_none, not_ends_line,
  not_colon, not_space,
}
use estros.Dis.{padded}
use estros.Dis.Operands.{is_printed}

pub AreNot-append :
    (test : ℕ → Bool) (cs ds : List ℕ) → AreNot test cs → AreNot test ds → AreNot test (cs ++ ds)
AreNot-append test [] ds h k = k
AreNot-append test (c ∷ cs) ds h k = (h.0, AreNot-append test cs ds h.1 k)

pub before_all : (test : ℕ → Bool) (cs : List ℕ) → AreNot test cs → before test cs ≡ cs
unfolding before
before_all test cs h =
    ap (before test) (sym (append_none cs)) ∙ before-append test cs [] h ∙ append_none cs

from_none : (test : ℕ → Bool) (cs : List ℕ) → AreNot test cs → from test cs ≡ none
unfolding from
from_none test cs h = ap (from test) (sym (append_none cs)) ∙ from-append test cs [] h

-- Texts with commas between them.
abbrev pub joined : List ℕ → List (List ℕ) → List ℕ
joined p [] = p
joined p (q ∷ ps) = p ++ b',' ∷ joined q ps

abbrev pub ArePrinted : List (List ℕ) → Type 0
ArePrinted [] = Unit
ArePrinted (p ∷ ps) = AreNot (λ c. not (is_printed c)) p × ArePrinted ps

not_comma : (c : ℕ) → not (is_printed c) ≡ false → (c == b',') ≡ false
unfolding is_printed isdigit
not_comma c h = ground arith

not_special : (c : ℕ) → not (is_printed c) ≡ false → is_special c ≡ false
unfolding is_printed isdigit is_special isspace
not_special c h = ground arith

pub split_operands-joined :
    (left : ℕ) (p : List ℕ) (ps : List (List ℕ))
    → ArePrinted (p ∷ ps)
    → length ps < left
    → split_operands left (joined p ps) ≡ p ∷ ps
unfolding split_operands from before tail_of
split_operands-joined zero p ps h room = absurd (omega arith)
split_operands-joined (suc left) p [] h room =
    rw (split_operands, from_none (λ c. c == b',') p (AreNot-implies _ _ p not_comma h.0)) refl
split_operands-joined (suc left) p (q ∷ ps) h room =
    let plain = AreNot-implies _ _ p not_comma h.0 in
    rw
      (
        split_operands,
        from-append (λ c. c == b',') p (b',' ∷ joined q ps) plain,
        before-append (λ c. c == b',') p (b',' ∷ joined q ps) plain,
        append_none p,
        split_operands-joined left q ps h.1 (omega arith),
      )
      refl

pub joined-plain :
    (p : List ℕ) (ps : List (List ℕ)) → ArePrinted (p ∷ ps) → AreNot is_special (joined p ps)
unfolding is_special isspace
joined-plain p [] h = AreNot-implies _ _ p not_special h.0
joined-plain p (q ∷ ps) h =
    AreNot-append is_special p _ (AreNot-implies _ _ p not_special h.0)
      (refl, joined-plain q ps h.1)

padded_lem :
    (width : ℕ) (name later : List ℕ)
    → padded width name later ≡ name ++ padded (width - length name) [] later
padded_lem zero name later = let none_left : 0 - length name ≡ 0 = omega arith in rw none_left refl
padded_lem (suc width) [] later =
    let all_left : suc width - 0 ≡ suc width = omega arith in rw all_left refl
padded_lem (suc width) (c ∷ cs) later =
    let same : suc width - suc (length cs) ≡ width - length cs = omega arith in
    rw same (ap (λ rest. c ∷ rest) (padded_lem width cs later))

pub padded-AreNot :
    (test : ℕ → Bool) (width : ℕ) (name later : List ℕ)
    → test 32 ≡ false
    → AreNot test name
    → AreNot test later
    → AreNot test (padded width name later)
padded-AreNot test zero name later h k l = AreNot-append test name later k l
padded-AreNot test (suc width) [] later h k l = (h, padded-AreNot test width [] later h tt l)
padded-AreNot test (suc width) (c ∷ cs) later h k l =
    (k.0, padded-AreNot test width cs later h k.1 l)

pub length-padded :
    (width : ℕ) (name later : List ℕ)
    → length (padded width name later) ≤ width + length name + length later
length-padded zero name later = omega (arith, length-append name later)
length-padded (suc width) [] later = omega (arith, length-padded width [] later)
length-padded (suc width) (c ∷ cs) later = omega (arith, length-padded width cs later)

pub padded-append :
    (width : ℕ) (name ops later : List ℕ)
    → padded width name (ops ++ later) ≡ padded width name ops ++ later
padded-append zero [] ops later = refl
padded-append zero (c ∷ cs) ops later = ap (λ rest. c ∷ rest) (padded-append zero cs ops later)
padded-append (suc width) [] ops later = ap (λ rest. 32 ∷ rest) (padded-append width [] ops later)
padded-append (suc width) (c ∷ cs) ops later =
    ap (λ rest. c ∷ rest) (padded-append width cs ops later)

skip_space-padded :
    (width : ℕ) (later : List ℕ)
    → skip_space later ≡ later
    → skip_space (padded width [] later) ≡ later
unfolding skip_space isspace
skip_space-padded zero later h = h
skip_space-padded (suc width) later h = skip_space-padded width later h

not_blank : (c : ℕ) → is_special c ≡ false → is_blank c ≡ false
unfolding is_special isspace
not_blank c h = ground arith

process_line :
    (state : AsmState) (line : List ℕ) (c : ℕ) (cs : List ℕ)
    → before ends_line line ≡ line
    → skip_space line ≡ c ∷ cs
    → asm_process_line state line ≡ process_text state (c ∷ cs)
unfolding asm_process_line
process_line state line c cs whole start = rw (asm_process_line, whole, start) refl

module _ (state : AsmState) (c : ℕ) (cs ops : List ℕ) (o : Operands)
    (name_plain : AreNot is_special (c ∷ cs)) (ops_plain : AreNot is_special ops)
    (ops_start : skip_space ops ≡ ops)
    (operands : parse_operands (split_operands 8 ops) ≡ ok o) where
  abbrev name : List ℕ
  name = c ∷ cs

  spaced-AreNot :
      (test : ℕ → Bool) (width : ℕ)
      → ((d : ℕ) → is_special d ≡ false → test d ≡ false)
      → test 32 ≡ false
      → AreNot test (name ++ 32 ∷ padded width [] ops)
  spaced-AreNot test width h blank =
      AreNot-append test name _ (AreNot-implies _ _ name h name_plain)
        (blank, padded-AreNot test width [] ops blank tt (AreNot-implies _ _ ops h ops_plain))

  process_spaced :
      (width : ℕ)
      → process_text state (name ++ 32 ∷ padded width [] ops) ≡ ok (add_instruction state name o)
  unfolding process_text from before tail_of
  process_spaced width =
      let plain = AreNot-implies is_special is_blank name not_blank name_plain in
      let rest = 32 ∷ padded width [] ops in
      rw
        (
          process_text,
          from_none (λ d. d == b':') (name ++ rest)
              (spaced-AreNot (λ d. d == b':') width not_colon refl),
          from-append is_blank name rest plain,
          before-append is_blank name rest plain,
          append_none name,
          skip_space-padded width ops ops_start,
          operands,
        )
        refl

  -- A tab, the padded name and the operands.
  pub process_printed :
      length name < 8
      → asm_process_line state (9 ∷ padded 8 name ops) ≡ ok (add_instruction state name o)
  unfolding skip_space isspace
  process_printed short =
      let width = 7 - length name in
      let text = name ++ 32 ∷ padded width [] ops in
      let split : 8 - length name ≡ suc width = omega arith in
      let line : padded 8 name ops ≡ text =
        padded_lem 8 name ops ∙ ap (λ w. name ++ padded w [] ops) split in
      let whole : before ends_line (9 ∷ text) ≡ 9 ∷ text =
        before_all ends_line (9 ∷ text) (refl, spaced-AreNot ends_line width not_ends_line refl) in
      ap (λ l. asm_process_line state (9 ∷ l)) line
      ∙ process_line state (9 ∷ text) c (cs ++ 32 ∷ padded width [] ops) whole
          (rw (not_space c name_plain.0) refl)
      ∙ process_spaced width
