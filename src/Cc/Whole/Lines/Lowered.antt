-- ===== src/Cc/Whole/Lines/Lowered.antt =====
-- cc/ssa.c and cc/asm.c: proofs on the lines of `int f(int x, int y) { return a op b; }`.
use estros.Common.{◌≡◌, true, List, [], refl, ℕ}
use estros.Cc.Token.{Strview}
use estros.Cc.Attempt.{ok, ◌>>=◌}
use estros.Cc.Ast.{AstNode, Binop}
use estros.Cc.Ssa.Emit.{cc_strview_get, cc_ssa_type_from_ast_binop_type}
use estros.Cc.Ssa.Optimise.{cc_ssa_optimise}
use estros.Cc.Asm.Lower.{cc_asm_lower_ssa}
use estros.Cc.Whole.{has_level, each_operation}
use estros.Cc.Whole.Lines.{
  instruction, function_lines, emitted, Place, nowhere, first, second, found, lines_or_abort,
}

module _ (text : List ℕ) (f : Strview) (nodes : List AstNode) where
  abbrev Lowers : Binop → (i j : ℕ) → Type 0
  Lowers op i j =
      (cc_ssa_optimise (emitted text nodes f op i j) >>= λ optimised. cc_asm_lower_ssa optimised [])
      ≡ ok (function_lines (cc_strview_get text f) op i j)

  abbrev LowersAll : Binop → Type 0
  LowersAll op = Lowers op 0 0 × Lowers op 0 1 × Lowers op 1 0 × Lowers op 1 1

  pub unit_lowered : (op : Binop) → has_level op ≡ true → LowersAll op
  unfolding instruction cc_ssa_optimise cc_asm_lower_ssa cc_ssa_type_from_ast_binop_type
  unit_lowered = each_operation LowersAll (
    (refl, refl, refl, refl),
    (refl, refl, refl, refl),
    (refl, refl, refl, refl),
    (refl, refl, refl, refl),
    (refl, refl, refl, refl),
    (refl, refl, refl, refl),
    (refl, refl, refl, refl),
    (refl, refl, refl, refl),
    (refl, refl, refl, refl),
  )

  -- The parts behind the emitter, for the places of the operands.
  pub places_lowered :
      (op : Binop) (p q : Place)
      → has_level op ≡ true
      → ((found p >>= λ i. found q >>= λ j. ok (emitted text nodes f op i j)) >>= λ state.
          cc_ssa_optimise state >>= λ optimised. cc_asm_lower_ssa optimised [])
        ≡ lines_or_abort (cc_strview_get text f) op p q
  places_lowered op first first h = (unit_lowered op h).0
  places_lowered op first second h = (unit_lowered op h).1
  places_lowered op second first h = (unit_lowered op h).2
  places_lowered op second second h = (unit_lowered op h).3
  places_lowered op first nowhere h = refl
  places_lowered op second nowhere h = refl
  places_lowered op nowhere q h = refl
