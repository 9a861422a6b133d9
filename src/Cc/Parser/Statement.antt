-- ===== src/Cc/Parser/Statement.antt =====
-- cc/parser.c: the statements.
use estros.Common.{ℕ, zero, suc, true, false, ◌&&◌, if◌then◌else◌}
use estros.Cc.Attempt.{Attempt, ok, aborted, out_of_fuel, ◌>>=◌}
use estros.Cc.Ast.{AstNode, cc_ast_push_node, cc_ast_push_children_to_block}
use estros.Cc.Parser.{
  ParserState, Parser, cc_peek_token, cc_next_token, push_node, add_child, returns, empty_block,
  cc_ast_push_block_coalesce, cc_ast_pop_block_coalesce,
}
use estros.Cc.Parser.Tests.{is_kw_return, is_semi, is_lbrace, is_rbrace}
use estros.Cc.Parser.Expression.{cc_parse_expression}

unfoldable pub cc_parse_jump_statment : (fuel : ℕ) → Parser
unfolding cc_parse_expression cc_peek_token cc_next_token cc_ast_push_node
    cc_ast_push_children_to_block
cc_parse_jump_statment fuel st expr =
    let inner = push_node st empty_block in
    let node = push_node inner.0 (AstNode.return_node inner.1) in
    let st1 = cc_next_token node.0 in
    if is_kw_return (cc_peek_token st 0).type
    then (if is_semi (cc_peek_token st1 0).type
        then returns true (add_child (cc_next_token st1) expr node.1)
        else (cc_parse_expression fuel false st1 inner.1 >>= λ (found, st2).
            if found && is_semi (cc_peek_token st2 0).type
            then returns true (add_child (cc_next_token st2) expr node.1)
            else aborted))
    else ok (false, st)

abbrev pub cc_parse_statment : (fuel : ℕ) → Parser
cc_parse_statment fuel = cc_parse_jump_statment fuel

-- `while (cc_parse_statment(state, inner.ref));`, where `left` bounds the rounds.
unfoldable pub parse_statments : (fuel left : ℕ) → ParserState → (ref : ℕ) → Attempt ParserState
unfolding cc_parse_jump_statment
parse_statments fuel zero st ref = out_of_fuel
parse_statments fuel (suc left) st ref = cc_parse_statment fuel st ref >>= λ (found, st').
    let rest = parse_statments fuel left st' ref in if found then rest else ok st'

unfoldable pub cc_parse_statment_list : (fuel : ℕ) → Parser
unfolding parse_statments cc_parse_jump_statment cc_ast_push_block_coalesce
    cc_ast_pop_block_coalesce
cc_parse_statment_list fuel st expr =
    let inner = cc_ast_push_block_coalesce st expr in
    cc_parse_statment fuel inner.after inner.ref >>= λ (found, st').
    if found
    then returns true (parse_statments fuel fuel st' inner.ref)
    else returns false (cc_ast_pop_block_coalesce st' inner)

abbrev pub cc_parse_declaration_list : Parser
cc_parse_declaration_list st expr = ok (false, st)

-- `else if (cc_parse_declaration_list(...)) ... else abort()`.
unfoldable statements_after_declarations :
    (fuel : ℕ) → ParserState → (expr : ℕ) → Attempt ParserState
unfolding cc_parse_statment_list
statements_after_declarations fuel st expr =
    cc_parse_declaration_list st expr >>= λ (declared, st').
    if declared
    then (cc_parse_statment_list fuel st' expr >>= λ (ignored, st''). ok st'')
    else aborted

unfoldable pub cc_parse_compound_statement : (fuel : ℕ) → Parser
unfolding cc_parse_statment_list statements_after_declarations cc_peek_token cc_next_token
cc_parse_compound_statement fuel st expr =
    let st1 = cc_next_token st in
    if is_lbrace (cc_peek_token st 0).type
    then (if is_rbrace (cc_peek_token st1 0).type
        then ok (true, cc_next_token st1)
        else (cc_parse_statment_list fuel st1 expr >>= λ (found, st2).
            (if found then ok st2 else statements_after_declarations fuel st2 expr) >>= λ st3.
            if is_rbrace (cc_peek_token st3 0).type then ok (true, cc_next_token st3) else aborted))
    else ok (false, st)
