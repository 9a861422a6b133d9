-- ===== src/Cc/Parser.antt =====
-- cc/parser.c: the parser's state, the binary operators and the expressions. A parser gives what the
-- function of the source returns, and the state afterwards.
pub mod Tests
pub mod Expression
pub mod Statement
pub mod Specifier
pub mod Declaration
use estros.Common.{
  ℕ, zero, suc, ◌+◌, Bool, true, false, not, ◌&&◌, ◌||◌, List, [], ◌∷◌, ltb, length, ◌==◌,
  if◌then◌else◌,
}
use estros.Common.Strings.{atoll}
use estros.Cc.Token.{Strview, Token, TokenType}
use estros.Cc.Attempt.{Attempt, ok, aborted, out_of_fuel, ◌>>=◌}
use estros.Cc.Ast.{
  AstNode, Binop, node_at, set_node, is_block, is_empty_block, cc_ast_push_node, cc_ast_pop_node,
  cc_ast_push_children_to_block, cc_ast_push_children_to_block_coalesce,
}
use estros.Cc.Ssa.Emit.{cc_strview_get}

-- The parts of `struct cc_state` that the parser works on. Its `data` is `text`.
pub record ParserState : Type 0 where
  pub text : List ℕ
  pub tokens : List Token
  pub cur_tok : ℕ
  pub nodes : List AstNode

abbrev no_token : Token
no_token = record { view = record { pos = 0; len = 0 }; type = TokenType.invalid }

abbrev token_or_none : List Token → ℕ → Token
token_or_none [] i = no_token
token_or_none (t ∷ ts) zero = t
token_or_none (t ∷ ts) (suc i) = token_or_none ts i

unfoldable pub cc_peek_token : ParserState → (offset : ℕ) → Token
cc_peek_token st offset = token_or_none st.tokens (st.cur_tok + offset)

-- The token that it returns is used by no caller.
unfoldable pub cc_next_token : ParserState → ParserState
cc_next_token st = record st { cur_tok = st.cur_tok + 1 }

abbrev pub Parser : Type 0
Parser = ParserState → (expr : ℕ) → Attempt (Bool × ParserState)

-- The operations on the store of nodes.
abbrev pub push_node : ParserState → AstNode → ParserState × ℕ
push_node st node =
    let pushed = cc_ast_push_node st.nodes node in (record st { nodes = pushed.0 }, pushed.1)

abbrev pub with_nodes : ParserState → Attempt (List AstNode) → Attempt ParserState
with_nodes st nodes = nodes >>= λ ns. ok (record st { nodes = ns })

abbrev pub pop_node : ParserState → (ref : ℕ) → Attempt ParserState
pop_node st ref = with_nodes st (cc_ast_pop_node st.nodes ref)

abbrev pub add_child : ParserState → (n c : ℕ) → Attempt ParserState
add_child st n c = with_nodes st (cc_ast_push_children_to_block st.nodes n c)

abbrev pub returns : Bool → Attempt ParserState → Attempt (Bool × ParserState)
returns b m = m >>= λ st. ok (b, st)

abbrev pub empty_block : AstNode
empty_block = AstNode.block []

-- `cc_ast_new_block_result_t` and the state.
pub record NewBlock : Type 0 where
  pub after : ParserState
  pub ref : ℕ
  pub is_new : Bool

unfoldable pub cc_ast_push_block_coalesce : ParserState → (outer_expr : ℕ) → NewBlock
unfolding cc_ast_push_node
cc_ast_push_block_coalesce st outer_expr =
    let pushed = push_node st empty_block in
    if is_empty_block (node_at st.nodes outer_expr)
    then record { after = st; ref = outer_expr; is_new = false }
    else record { after = pushed.0; ref = pushed.1; is_new = true }

unfoldable pub cc_ast_pop_block_coalesce : ParserState → NewBlock → Attempt ParserState
unfolding cc_ast_pop_node
cc_ast_pop_block_coalesce st res = if res.is_new then pop_node st res.ref else ok st

-- What follows the left operand and its operator, which is the next token.
unfoldable pub parse_right_operand : (next : Parser) → Binop → (lhs_expr : ℕ) → Parser
unfolding cc_ast_push_node cc_next_token cc_ast_push_children_to_block
parse_right_operand next op lhs_expr st expr =
    let rhs = push_node st empty_block in
    let node = push_node rhs.0 (AstNode.binop op lhs_expr rhs.1) in
    next (cc_next_token node.0) rhs.1 >>= λ (found, st').
    if found then returns true (add_child st' expr node.1) else aborted

-- The body of CC_PARSE_BINOP_DEFINE, where `locked` is the call of the parser itself with `lock`.
unfoldable pub parse_binop : (next locked : Parser) → Binop → (is_op : TokenType → Bool) → Parser
unfolding cc_peek_token cc_ast_push_node cc_ast_pop_node cc_ast_push_children_to_block_coalesce
    parse_right_operand
parse_binop next locked op is_op st expr =
    let lhs = push_node st empty_block in
    next lhs.0 lhs.1 >>= λ (found, st').
    if found
    then (if is_op (cc_peek_token st' 0).type
        then parse_right_operand next op lhs.1 st' expr
        else returns true
            (with_nodes st' (cc_ast_push_children_to_block_coalesce st'.nodes expr lhs.1)))
    else (locked st' lhs.1 >>= λ (again, st'').
        if again && is_op (cc_peek_token st'' 0).type
        then parse_right_operand next op lhs.1 st'' expr
        else returns false (pop_node st'' lhs.1))

-- With `lock`, the parser does not call itself.
abbrev pub not_again : Parser
not_again st expr = ok (false, st)

-- A parser that CC_PARSE_BINOP_DEFINE defines, called without `lock`.
unfoldable pub binop_parser : (next : Parser) → Binop → (is_op : TokenType → Bool) → Parser
unfolding parse_binop
binop_parser next op is_op = parse_binop next (parse_binop next not_again op is_op) op is_op

unfoldable pub cc_parse_primary_expression : Parser
unfolding cc_peek_token cc_next_token cc_ast_push_node cc_ast_push_children_to_block cc_strview_get
cc_parse_primary_expression st expr =
    let tok = cc_peek_token st 0 in
    let var = push_node st (AstNode.ref_var tok.view) in
    let literal =
      push_node st (AstNode.literal_integer (atoll (cc_strview_get st.text tok.view))) in
    elim tok.type [
      | TokenType.ident ↦ returns true (add_child (cc_next_token var.0) expr var.1)
      | TokenType.literal ↦ returns true (add_child (cc_next_token literal.0) expr literal.1)
      | _ ↦ ok (false, st)
    ]

-- A call inside a block that is pushed, and popped where the call finds nothing.
abbrev in_block : Parser → Parser
in_block parser st expr =
    let inner = cc_ast_push_block_coalesce st expr in
    parser inner.after inner.ref >>= λ (found, st').
    if found then ok (true, st') else returns false (cc_ast_pop_block_coalesce st' inner)

unfoldable pub cc_parse_postfix_expression : Parser
unfolding cc_parse_primary_expression cc_ast_push_block_coalesce cc_ast_pop_block_coalesce
cc_parse_postfix_expression = in_block cc_parse_primary_expression

unfoldable pub cc_parse_unary_expression : Parser
unfolding cc_parse_postfix_expression cc_ast_push_block_coalesce cc_ast_pop_block_coalesce
cc_parse_unary_expression = in_block cc_parse_postfix_expression

unfoldable pub cc_parse_cast_expression : Parser
unfolding cc_parse_unary_expression
cc_parse_cast_expression st expr = cc_parse_unary_expression st expr
