-- ===== src/Cc/Whole/Lines/Compiled.antt =====
-- cc/: proofs on the whole compiler for `int f(int x, int y) { return a op b; }`.
use estros.Common.{ap, ◌∙◌, ℕ, zero, suc, ◌∷◌, ◌-◌, ◌+◌, ◌≡◌, true, List, [], refl}
use estros.Cc.Token.{Strview}
use estros.Cc.Attempt.{ok, ◌>>=◌, bind-ok}
use estros.Cc.Ast.{AstNode, Binop}
use estros.Cc.Parser.{ParserState}
use estros.Cc.Parser.Declaration.{cc_parse_translation_unit}
use estros.Cc.Ssa.Emit.{cc_strview_get}
use estros.Cc.Ssa.Optimise.{cc_ssa_optimise}
use estros.Cc.Asm.Lower.{cc_asm_lower_ssa}
use estros.Cc.Driver.{parser_state, compile_tree, parse_tokens}
use estros.Cc.Whole.{level, has_level, has_level-is_emitted, spelled, blank, each_operation}
use estros.Cc.Whole.Lines.{function_tokens, place, lines_or_abort}
use estros.Cc.Whole.Lines.Emitted.{IsUnit, equations-IsUnit, unit_emitted, unit_type, zeros}
use estros.Cc.Whole.Lines.Lowered.{places_lowered}

abbrev blocks : (n : ℕ) → (child : ℕ) → List AstNode → List AstNode
blocks zero child later = later
blocks (suc n) child later = AstNode.block (child ∷ []) ∷ blocks n child later

abbrev int_type : AstNode
int_type = AstNode.new_type blank 0 [] 4 (zeros 8) 0 0

module _ (text : List ℕ) (f x y a b : Strview) where
  abbrev start : Binop → ParserState
  start op = parser_state text (function_tokens f x y a b (spelled op))

  -- The tree: each level that has no operator leaves a block in its place.
  abbrev unit_nodes : (k : ℕ) → Binop → List AstNode
  unit_nodes k op =
      AstNode.invalid
      ∷ AstNode.block (4 ∷ [])
      ∷ unit_type
      ∷ AstNode.block (11 ∷ [])
      ∷ AstNode.new_var f 11 2 0
      ∷ int_type
      ∷ int_type
      ∷ AstNode.new_var x 0 6 0
      ∷ int_type
      ∷ AstNode.new_var y 0 8 0
      ∷ AstNode.block (31 ∷ [])
      ∷ AstNode.return_node 31
      ∷ blocks (17 - k) 31 (
          blocks k 29 (
            AstNode.ref_var a
            ∷ AstNode.block ((31 + k) ∷ [])
            ∷ AstNode.binop op 29 (31 + k)
            ∷ blocks (k - 1) (31 + k) (AstNode.ref_var b ∷ [])))

  abbrev IsUnitOf : Binop → Type 0
  IsUnitOf op = IsUnit f x y a b op (31 + level op) (unit_nodes (level op) op)

  unit-IsUnit : (op : Binop) → has_level op ≡ true → IsUnitOf op
  unfolding level
  unit-IsUnit = each_operation IsUnitOf (
    equations-IsUnit (refl, refl, refl, refl, refl, refl, refl, refl),
    equations-IsUnit (refl, refl, refl, refl, refl, refl, refl, refl),
    equations-IsUnit (refl, refl, refl, refl, refl, refl, refl, refl),
    equations-IsUnit (refl, refl, refl, refl, refl, refl, refl, refl),
    equations-IsUnit (refl, refl, refl, refl, refl, refl, refl, refl),
    equations-IsUnit (refl, refl, refl, refl, refl, refl, refl, refl),
    equations-IsUnit (refl, refl, refl, refl, refl, refl, refl, refl),
    equations-IsUnit (refl, refl, refl, refl, refl, refl, refl, refl),
    equations-IsUnit (refl, refl, refl, refl, refl, refl, refl, refl),
  )

  abbrev IsParsed : Binop → Type 0
  IsParsed op =
      cc_parse_translation_unit 40 (start op)
      ≡ ok (4, record (start op) { cur_tok = 16; nodes = unit_nodes (level op) op })

  unit-IsParsed : (op : Binop) → has_level op ≡ true → IsParsed op
  unfolding level cc_parse_translation_unit
  unit-IsParsed = each_operation IsParsed (refl, refl, refl, refl, refl, refl, refl, refl, refl)

  abbrev after_parse : Binop → ParserState
  after_parse op = record (start op) { cur_tok = 16; nodes = unit_nodes (level op) op }

  tree_compiled :
      (op : Binop)
      → has_level op ≡ true
      → compile_tree 40 (4, after_parse op)
        ≡ lines_or_abort (cc_strview_get text f) op (place text x y a) (place text x y b)
  unfolding compile_tree
  tree_compiled op h =
      let nodes = unit_nodes (level op) op in
      ap
        (λ emitted.
          emitted >>= λ state. cc_ssa_optimise state >>= λ optimised. cc_asm_lower_ssa optimised [])
        (unit_emitted text f x y a b op (31 + level op) nodes (unit-IsUnit op h)
          (has_level-is_emitted op h))
      ∙ places_lowered text f nodes op (place text x y a) (place text x y b) h

  -- For any names and any of the nine operations, the tokens of `int f(int x, int y) { return a op
  -- b; }` are compiled, with fuel 40, to the label f, the operation's one instruction on the registers
  -- of the parameters that a and b name, whose result goes to T0, and `ret`, where a name that both
  -- parameters have means the first; where a or b is neither parameter, the compiler aborts.
  pub parse_tokens_compiles :
      (op : Binop)
      → has_level op ≡ true
      → parse_tokens 40 (start op)
        ≡ lines_or_abort (cc_strview_get text f) op (place text x y a) (place text x y b)
  unfolding parse_tokens
  parse_tokens_compiles op h =
      bind-ok (cc_parse_translation_unit 40 (start op)) (compile_tree 40) (4, after_parse op)
        (unit-IsParsed op h)
      ∙ tree_compiled op h
