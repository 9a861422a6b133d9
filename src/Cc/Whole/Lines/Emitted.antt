-- ===== src/Cc/Whole/Lines/Emitted.antt =====
-- cc/ssa.c: proofs on the tokens that are made for `int f(int x, int y) { return a op b; }`.
use estros.Common.{ℕ, zero, suc, ◌≡◌, true, List, [], ◌∷◌, inl, inr, Bool-cases, refl}
use estros.Cc.Token.{Strview}
use estros.Cc.Attempt.{Attempt, ok, ◌>>=◌}
use estros.Cc.Ast.{AstNode, Binop, node_at, flags_function}
use estros.Cc.Ssa.Emit.{
  SsaState, cc_strview_get, parameter_index, is_emitted, index_in_type, cc_ssa_from_ast,
  cc_ssa_from_ast_var, emit_var, cc_ssa_from_ast_within_func, emit_node, cc_ssa_push_token,
  cc_ssa_get_func_parameter_index,
}
use estros.Cc.Whole.Lines.{emitted, found, place}
use estros.Cc.Whole.{blank}
use estros.Common.Strings.{str_eq}

abbrev pub zeros : ℕ → List ℕ
zeros zero = []
zeros (suc n) = 0 ∷ zeros n

abbrev pub unit_type : AstNode
unit_type = AstNode.new_type blank 5 (7 ∷ 9 ∷ []) flags_function (zeros 8) 0 0

-- The places of the function's nodes: node 4 is its variable, 2 its type, 11 the return, 31 the
-- operation and 29 its left operand.
pub record IsUnit (f x y a b : Strview) (op : Binop) (rhs : ℕ) (nodes : List AstNode) : Type 0 where
  pub is_var : node_at nodes 4 ≡ AstNode.new_var f 11 2 0
  pub is_type : node_at nodes 2 ≡ unit_type
  pub is_first : node_at nodes 7 ≡ AstNode.new_var x 0 6 0
  pub is_second : node_at nodes 9 ≡ AstNode.new_var y 0 8 0
  pub is_return : node_at nodes 11 ≡ AstNode.return_node 31
  pub is_binop : node_at nodes 31 ≡ AstNode.binop op 29 rhs
  pub is_lhs : node_at nodes 29 ≡ AstNode.ref_var a
  pub is_rhs : node_at nodes rhs ≡ AstNode.ref_var b

pub equations-IsUnit :
    {f x y a b : Strview} {op : Binop} {rhs : ℕ} {nodes : List AstNode}
    → (node_at nodes 4 ≡ AstNode.new_var f 11 2 0)
      × (node_at nodes 2 ≡ unit_type)
      × (node_at nodes 7 ≡ AstNode.new_var x 0 6 0)
      × (node_at nodes 9 ≡ AstNode.new_var y 0 8 0)
      × (node_at nodes 11 ≡ AstNode.return_node 31)
      × (node_at nodes 31 ≡ AstNode.binop op 29 rhs)
      × (node_at nodes 29 ≡ AstNode.ref_var a)
      × (node_at nodes rhs ≡ AstNode.ref_var b)
    → IsUnit f x y a b op rhs nodes
equations-IsUnit t = record {
  is_var = t.0;
  is_type = t.1;
  is_first = t.2;
  is_second = t.3;
  is_return = t.4;
  is_binop = t.5;
  is_lhs = t.6;
  is_rhs = t.7;
}

abbrev pub start_state : (text : List ℕ) → List AstNode → SsaState
start_state text nodes = record { text = text; nodes = nodes; ssa_funcs = []; ssa_tokens = [] }

module _ (text : List ℕ) (f x y a b : Strview) (op : Binop) (rhs : ℕ) (nodes : List AstNode)
    (u : IsUnit f x y a b op rhs nodes) where
  index_in_unit :
      (name : Strview) → index_in_type text nodes unit_type name ≡ found (place text x y name)
  unfolding parameter_index place
  index_in_unit name =
      elim (Bool-cases (str_eq (cc_strview_get text name) (cc_strview_get text x))) [
        | inl h ↦ rw (parameter_index, u.is_first, h) refl
        | inr h ↦ elim (Bool-cases (str_eq (cc_strview_get text name) (cc_strview_get text y))) [
          | inl k ↦ rw (parameter_index, u.is_first, h, parameter_index, u.is_second, k) refl
          | inr k ↦ rw (parameter_index, u.is_first, h, parameter_index, u.is_second, k) refl
        ]
      ]

  from_ast_index :
      (ia ib : Attempt ℕ)
      → is_emitted op ≡ true
      → index_in_type text nodes unit_type a ≡ ia
      → index_in_type text nodes unit_type b ≡ ib
      → cc_ssa_from_ast 40 (start_state text nodes) 4
        ≡ (ia >>= λ i. ib >>= λ j. ok (emitted text nodes f op i j))
  unfolding cc_ssa_from_ast cc_ssa_from_ast_var emit_var cc_ssa_from_ast_within_func emit_node
      cc_ssa_push_token cc_ssa_get_func_parameter_index
  from_ast_index (ok i) (ok j) has ha hb =
      rw
        (
          cc_ssa_from_ast, u.is_var, cc_ssa_from_ast_var, u.is_var, u.is_type, u.is_return,
          u.is_binop, u.is_lhs, ha, u.is_rhs, hb, has,
        )
        refl
  from_ast_index (ok i) _ has ha hb =
      rw
        (
          cc_ssa_from_ast, u.is_var, cc_ssa_from_ast_var, u.is_var, u.is_type, u.is_return,
          u.is_binop, u.is_lhs, ha, u.is_rhs, hb,
        )
        refl
  from_ast_index _ ib has ha hb =
      rw
        (
          cc_ssa_from_ast, u.is_var, cc_ssa_from_ast_var, u.is_var, u.is_type, u.is_return,
          u.is_binop, u.is_lhs, ha,
        )
        refl

  pub unit_emitted :
      is_emitted op ≡ true
      → cc_ssa_from_ast 40 (start_state text nodes) 4 ≡ (
          found (place text x y a) >>= λ i.
          found (place text x y b) >>= λ j. ok (emitted text nodes f op i j))
  unit_emitted has = from_ast_index _ _ has (index_in_unit a) (index_in_unit b)
