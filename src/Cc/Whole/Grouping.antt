-- ===== src/Cc/Whole/Grouping.antt =====
-- cc/parser.c and cc/ast.c: proofs on how `{ return a p b q c; }` is grouped.
use estros.Common.{
  ℕ, zero, suc, ◌≡◌, ◌==◌, ◌&&◌, ltb, true, Option, none, some, List, [], ◌∷◌, if◌then◌else◌, refl,
}
use estros.Cc.Token.{Strview, TokenType}
use estros.Cc.Attempt.{Attempt, ok, aborted, ◌>>=◌}
use estros.Cc.Ast.{AstNode, Binop, cc_ast_coalesce, node_at}
use estros.Cc.Parser.{ParserState}
use estros.Cc.Parser.Statement.{cc_parse_compound_statement}
use estros.Cc.Whole.{spelled, token, blank, has_level, each_operation, level}

-- An expression, apart from the store of nodes.
pub data Tree : Type 0 where
  leaf : Strview → Tree
  node : Binop → Tree → Tree → Tree

abbrev joined : Binop → Option Tree → Option Tree → Option Tree
joined op (some l) (some r) = some (node op l r)
joined op _ _ = none

-- The expression that a node stands for, to a depth.
unfoldable pub tree_at : (depth : ℕ) → List AstNode → (n : ℕ) → Option Tree
tree_at zero nodes n = none
tree_at (suc depth) nodes n = elim (node_at nodes n) [
  | AstNode.return_node r ↦ tree_at depth nodes r
  | AstNode.ref_var name ↦ some (leaf name)
  | AstNode.binop op l r ↦ joined op (tree_at depth nodes l) (tree_at depth nodes r)
  | _ ↦ none
]

module _ (text : List ℕ) (a b c : Strview) where
  abbrev pub two_operations : (p q : Binop) → ParserState
  two_operations p q = record {
    text = text;
    tokens =
        token TokenType.lbrace blank
        ∷ token TokenType.kw_return blank
        ∷ token TokenType.ident a
        ∷ token (spelled p) blank
        ∷ token TokenType.ident b
        ∷ token (spelled q) blank
        ∷ token TokenType.ident c
        ∷ token TokenType.semi blank
        ∷ token TokenType.rbrace blank
        ∷ [];
    cur_tok = 0;
    nodes = AstNode.invalid ∷ AstNode.block [] ∷ [];
  }

  -- The statement is parsed to its last token into the block with the number 1, which is coalesced.
  unfoldable pub grouped : (p q : Binop) → Attempt (Option Tree)
  unfolding cc_parse_compound_statement cc_ast_coalesce tree_at
  grouped p q = cc_parse_compound_statement 5 (two_operations p q) 1 >>= λ (found, st).
      if found && st.cur_tok == 9
      then (cc_ast_coalesce 10 st.nodes 1 >>= λ (nodes, root). ok (tree_at 4 nodes root))
      else aborted

  abbrev pub by_level : (p q : Binop) → Attempt (Option Tree)
  by_level p q =
      if level p == level q
      then aborted
      else (if ltb (level p) (level q)
          then ok (some (node q (node p (leaf a) (leaf b)) (leaf c)))
          else ok (some (node p (leaf a) (node q (leaf b) (leaf c)))))

  abbrev IsGrouped : (p q : Binop) → Type 0
  IsGrouped p q = grouped p q ≡ by_level p q

  add-IsGrouped : (q : Binop) → has_level q ≡ true → IsGrouped Binop.add q
  unfolding grouped level
  add-IsGrouped =
      each_operation (IsGrouped Binop.add) (refl, refl, refl, refl, refl, refl, refl, refl, refl)

  sub-IsGrouped : (q : Binop) → has_level q ≡ true → IsGrouped Binop.sub q
  unfolding grouped level
  sub-IsGrouped =
      each_operation (IsGrouped Binop.sub) (refl, refl, refl, refl, refl, refl, refl, refl, refl)

  mul-IsGrouped : (q : Binop) → has_level q ≡ true → IsGrouped Binop.mul q
  unfolding grouped level
  mul-IsGrouped =
      each_operation (IsGrouped Binop.mul) (refl, refl, refl, refl, refl, refl, refl, refl, refl)

  div-IsGrouped : (q : Binop) → has_level q ≡ true → IsGrouped Binop.div q
  unfolding grouped level
  div-IsGrouped =
      each_operation (IsGrouped Binop.div) (refl, refl, refl, refl, refl, refl, refl, refl, refl)

  lshift-IsGrouped : (q : Binop) → has_level q ≡ true → IsGrouped Binop.lshift q
  unfolding grouped level
  lshift-IsGrouped =
      each_operation (IsGrouped Binop.lshift) (refl, refl, refl, refl, refl, refl, refl, refl, refl)

  rshift-IsGrouped : (q : Binop) → has_level q ≡ true → IsGrouped Binop.rshift q
  unfolding grouped level
  rshift-IsGrouped =
      each_operation (IsGrouped Binop.rshift) (refl, refl, refl, refl, refl, refl, refl, refl, refl)

  bit_and-IsGrouped : (q : Binop) → has_level q ≡ true → IsGrouped Binop.bit_and q
  unfolding grouped level
  bit_and-IsGrouped =
      each_operation (IsGrouped Binop.bit_and)
        (refl, refl, refl, refl, refl, refl, refl, refl, refl)

  bit_xor-IsGrouped : (q : Binop) → has_level q ≡ true → IsGrouped Binop.bit_xor q
  unfolding grouped level
  bit_xor-IsGrouped =
      each_operation (IsGrouped Binop.bit_xor)
        (refl, refl, refl, refl, refl, refl, refl, refl, refl)

  bit_or-IsGrouped : (q : Binop) → has_level q ≡ true → IsGrouped Binop.bit_or q
  unfolding grouped level
  bit_or-IsGrouped =
      each_operation (IsGrouped Binop.bit_or) (refl, refl, refl, refl, refl, refl, refl, refl, refl)

  -- For any names and any two of the nine operations with a parser and a token: the tokens of
  -- `{ return a p b q c; }` are parsed into the tree in which the operation whose parser is the
  -- earlier one in the chain (`*`, `/`, `-`, `+`, `<<`, `>>`, `&`, `^`, `|`) binds tighter; where the
  -- two are the same, the parser aborts.
  pub two_operations-IsGrouped :
      (p q : Binop) → has_level p ≡ true → has_level q ≡ true → grouped p q ≡ by_level p q
  two_operations-IsGrouped p q hp hq =
      each_operation (λ p'. (r : Binop) → has_level r ≡ true → IsGrouped p' r)
        (
          add-IsGrouped, sub-IsGrouped, mul-IsGrouped, div-IsGrouped, lshift-IsGrouped,
          rshift-IsGrouped, bit_and-IsGrouped, bit_xor-IsGrouped, bit_or-IsGrouped,
        )
        p hp q hq
