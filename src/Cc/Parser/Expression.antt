-- ===== src/Cc/Parser/Expression.antt =====
-- cc/parser.c: the expressions.
use estros.Common.{ℕ, zero, suc, Bool, true, false, ◌&&◌, List, [], ◌∷◌, ◌==◌, if◌then◌else◌}
use estros.Cc.Token.{TokenType}
use estros.Cc.Attempt.{Attempt, ok, aborted, out_of_fuel, ◌>>=◌}
use estros.Cc.Ast.{
  AstNode, Binop, node_at, set_node, cc_ast_push_node, cc_ast_pop_node,
  cc_ast_push_children_to_block,
}
use estros.Cc.Parser.{
  ParserState, Parser, cc_peek_token, cc_next_token, push_node, pop_node, add_child, returns,
  empty_block, binop_parser, cc_parse_unary_expression, cc_parse_cast_expression,
}
use estros.Cc.Parser.Tests.{
  is_asterisk, is_div, is_sub, is_add, is_lshift, is_rshift, is_cond_lte, is_cond_gte, is_cond_lt,
  is_cond_gt, is_cond_neq, is_ampersand, is_bit_xor, is_bit_or, is_cond_and, is_cond_or, is_qmark,
  is_colon,
}

-- The operators of CC_PARSE_BINOP_DEFINE with their tokens, each the NEXT of the one behind it.
abbrev binop_levels : List (Binop × (TokenType → Bool))
binop_levels =
    (Binop.mul, is_asterisk)
    ∷ (Binop.div, is_div)
    ∷ (Binop.sub, is_sub)
    ∷ (Binop.add, is_add)
    ∷ (Binop.lshift, is_lshift)
    ∷ (Binop.rshift, is_rshift)
    ∷ (Binop.cond_lte, is_cond_lte)
    ∷ (Binop.cond_gte, is_cond_gte)
    ∷ (Binop.cond_lt, is_cond_lt)
    ∷ (Binop.cond_gt, is_cond_gt)
    ∷ (Binop.cond_neq, is_cond_neq)
    ∷ (Binop.bit_and, is_ampersand)
    ∷ (Binop.bit_xor, is_bit_xor)
    ∷ (Binop.bit_or, is_bit_or)
    ∷ (Binop.cond_and, is_cond_and)
    ∷ (Binop.cond_or, is_cond_or)
    ∷ []

abbrev parse_levels : List (Binop × (TokenType → Bool)) → (next : Parser) → Parser
parse_levels [] next = next
parse_levels ((op, is_op) ∷ levels) next = parse_levels levels (binop_parser next op is_op)

unfoldable pub cc_parse_logcal_or_expression : Parser
unfolding binop_parser cc_parse_cast_expression
cc_parse_logcal_or_expression = parse_levels binop_levels cc_parse_cast_expression

-- The parsers that call each other.
pub data ExpressionKind : Type 0 where
  conditional assignment : ExpressionKind
  expression : (lock : Bool) → ExpressionKind

-- The branch of `?`, where `again` is the call of a parser.
unfoldable parse_branches :
    (again : ExpressionKind → Parser)
    → ParserState
    → (expr cond_expr : ℕ) → Attempt (Bool × ParserState)
unfolding cc_ast_push_node cc_next_token cc_peek_token cc_ast_push_children_to_block
parse_branches again st expr cond_expr =
    let then_ = push_node st empty_block in
    let else_ = push_node then_.0 empty_block in
    let node = push_node else_.0 (AstNode.if_expr cond_expr then_.1 else_.1) in
    again (expression false) (cc_next_token node.0) then_.1 >>= λ (found, st').
    if found && is_colon (cc_peek_token st' 0).type
    then (again conditional (cc_next_token st') else_.1 >>= λ (other, st'').
        if other then returns true (add_child st'' expr node.1) else aborted)
    else aborted

unfoldable parse_conditional : (again : ExpressionKind → Parser) → Parser
unfolding cc_parse_logcal_or_expression parse_branches cc_ast_push_node cc_ast_pop_node
    cc_peek_token cc_ast_push_children_to_block
parse_conditional again st expr =
    let cond = push_node st empty_block in
    cc_parse_logcal_or_expression cond.0 cond.1 >>= λ (found, st').
    if found
    then (if cond.1 == expr
        then aborted
        else (if is_qmark (cc_peek_token st' 0).type
            then parse_branches again st' expr cond.1
            else returns true (add_child st' expr cond.1)))
    else returns false (pop_node st' cond.1)

-- The operators `+=` to `^=` abort.
abbrev assignment_operator : TokenType → Attempt Bool
assignment_operator TokenType.assign = ok true
assignment_operator TokenType.assign_add = aborted
assignment_operator TokenType.assign_sub = aborted
assignment_operator TokenType.assign_mul = aborted
assignment_operator TokenType.assign_div = aborted
assignment_operator TokenType.assign_rem = aborted
assignment_operator TokenType.assign_lshift = aborted
assignment_operator TokenType.assign_rshift = aborted
assignment_operator TokenType.assign_and = aborted
assignment_operator TokenType.assign_or = aborted
assignment_operator TokenType.assign_xor = aborted
assignment_operator _ = ok false

-- Whether the type of a node is CC_AST_NODE_BINOP or a later one.
abbrev is_operation : AstNode → Bool
is_operation (AstNode.binop op lhs rhs) = true
is_operation (AstNode.unop op child) = true
is_operation _ = false

abbrev make_assign : AstNode → AstNode
make_assign (AstNode.binop op lhs rhs) = AstNode.binop Binop.assign lhs rhs
make_assign node = node

-- The only caller passes a binary operation, of which the type alone is changed.
unfoldable pub cc_parse_assignment_operator : Parser
unfolding cc_peek_token cc_next_token
cc_parse_assignment_operator st expr =
    let node = node_at st.nodes expr in
    let assigned = record (cc_next_token st) {
      nodes = set_node st.nodes expr (make_assign node);
    } in
    if is_operation node
    then (assignment_operator (cc_peek_token st 0).type >>= λ found.
        ok (found, (if found then assigned else st)))
    else aborted

unfoldable parse_assignment : (again : ExpressionKind → Parser) → Parser
unfolding cc_parse_assignment_operator cc_parse_unary_expression cc_ast_push_node cc_ast_pop_node
    cc_ast_push_children_to_block
parse_assignment again st expr = again conditional st expr >>= λ (found, st1).
    if found
    then ok (true, st1)
    else (let lhs = push_node st1 empty_block in
        let rhs = push_node lhs.0 empty_block in
        let node = push_node rhs.0 (AstNode.binop Binop.assign lhs.1 lhs.1) in
        cc_parse_unary_expression node.0 lhs.1 >>= λ (unary, st2).
        if unary
        then (cc_parse_assignment_operator st2 node.1 >>= λ (assigns, st3).
            if assigns
            then (again assignment st3 rhs.1 >>= λ (ignored, st4).
                returns true (add_child st4 expr node.1))
            else aborted)
        else (pop_node st2 node.1 >>= λ st3.
            pop_node st3 rhs.1 >>= λ st4. returns false (pop_node st4 lhs.1)))

unfoldable parse_expression : (again : ExpressionKind → Parser) → (lock : Bool) → Parser
parse_expression again lock st expr = again assignment st expr >>= λ (found, st').
    if found
    then ok (true, st')
    else (if lock
        then ok (false, st')
        else (again (expression true) st' expr >>= λ (locked, st'').
            if locked then aborted else ok (false, st'')))

-- `fuel` bounds the depth of the calls.
unfoldable parse_kind : (fuel : ℕ) → ExpressionKind → Parser
unfolding parse_conditional parse_assignment parse_expression
parse_kind zero kind st expr = out_of_fuel
parse_kind (suc fuel) conditional st expr = parse_conditional (parse_kind fuel) st expr
parse_kind (suc fuel) assignment st expr = parse_assignment (parse_kind fuel) st expr
parse_kind (suc fuel) (expression lock) st expr = parse_expression (parse_kind fuel) lock st expr

unfoldable pub cc_parse_expression : (fuel : ℕ) → (lock : Bool) → Parser
unfolding parse_kind
cc_parse_expression fuel lock = parse_kind fuel (expression lock)
