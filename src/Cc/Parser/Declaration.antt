-- ===== src/Cc/Parser/Declaration.antt =====
-- cc/parser.c: the declarators, the parameters and the functions of a translation unit.
use estros.Common.{ℕ, zero, suc, Bool, true, false, [], ◌∷◌, ◌==◌, if◌then◌else◌}
use estros.Cc.Token.{Strview, TokenType}
use estros.Cc.Attempt.{Attempt, ok, aborted, out_of_fuel, ◌>>=◌}
use estros.Cc.Ast.{
  AstNode, node_at, set_node, is_new_type, flags_function, cc_ast_push_node, cc_ast_pop_node,
  cc_ast_copy_node, cc_ast_push_children_to_block, cc_ast_push_children_to_type, cc_ast_coalesce,
}
use estros.Cc.Parser.{
  ParserState, Parser, cc_peek_token, cc_next_token, push_node, with_nodes, pop_node, add_child,
  returns, empty_block,
}
use estros.Cc.Parser.Tests.{is_comma, is_ellipsis, is_lparen, is_rparen}
use estros.Cc.Parser.Specifier.{is_new_var, var_type_def, var_init, cc_parse_declaration_specifiers}
use estros.Cc.Parser.Statement.{cc_parse_compound_statement}

abbrev pub no_view : Strview
no_view = record { pos = 0; len = 0 }

-- A NEW_TYPE and a NEW_VAR as the initializers give them: the fields they do not name are zero.
abbrev pub new_type_of : (return_type flags : ℕ) → AstNode
new_type_of return_type flags =
    AstNode.new_type no_view return_type [] flags (0 ∷ 0 ∷ 0 ∷ 0 ∷ 0 ∷ 0 ∷ 0 ∷ 0 ∷ []) 0 0

abbrev pub new_var_of : (init type_def : ℕ) → AstNode
new_var_of init type_def = AstNode.new_var no_view init type_def 0

abbrev pub with_name : Strview → AstNode → AstNode
with_name view (AstNode.new_var name init type_def flags) = AstNode.new_var view init type_def flags
with_name view node = node

abbrev pub cc_parse_abstract_declarator : Parser
cc_parse_abstract_declarator st decl = ok (false, st)

-- `declarator` is the call of cc_parse_declarator.
unfoldable pub cc_parse_parameter_declaration : (fuel : ℕ) → (declarator : Parser) → Parser
unfolding cc_parse_declaration_specifiers cc_ast_push_node cc_ast_pop_node
    cc_ast_push_children_to_type
cc_parse_parameter_declaration fuel declarator st decl =
    let type_def = push_node st (new_type_of 0 0) in
    let param = push_node type_def.0 (new_var_of 0 type_def.1) in
    cc_parse_declaration_specifiers fuel param.0 param.1 >>= λ (specified, st1).
    if specified
    then (if is_new_var (node_at st1.nodes decl)
        then (declarator st1 param.1 >>= λ (found, st2).
            if found
            then returns true (
                with_nodes st2 (
                  cc_ast_push_children_to_type st2.nodes (var_type_def (node_at st2.nodes decl))
                    param.1))
            else aborted)
        else aborted)
    else (pop_node st1 type_def.1 >>= λ st2. returns false (pop_node st2 param.1))

-- The loop; `left` bounds its rounds.
unfoldable pub parameter_loop :
    (left fuel : ℕ) → (declarator : Parser) → ParserState → (decl : ℕ) → Attempt ParserState
unfolding cc_parse_parameter_declaration cc_peek_token cc_next_token
parameter_loop zero fuel declarator st decl = out_of_fuel
parameter_loop (suc left) fuel declarator st decl =
    cc_parse_parameter_declaration fuel declarator st decl >>= λ (found, st').
    let more = parameter_loop left fuel declarator (cc_next_token st') decl in
    if found then (if is_comma (cc_peek_token st' 0).type then more else ok st') else ok st'

unfoldable pub cc_parse_parameter_list : (fuel : ℕ) → (declarator : Parser) → Parser
unfolding parameter_loop
cc_parse_parameter_list fuel declarator st decl =
    returns false (parameter_loop fuel fuel declarator st decl)

unfoldable pub cc_parse_parameter_type_list : (fuel : ℕ) → (declarator : Parser) → Parser
unfolding cc_parse_parameter_list cc_peek_token cc_next_token
cc_parse_parameter_type_list fuel declarator st decl =
    cc_parse_parameter_list fuel declarator st decl >>= λ (found, st').
    if found
    then (if is_comma (cc_peek_token st' 0).type
        then (if is_ellipsis (cc_peek_token (cc_next_token st') 0).type
            then ok (true, cc_next_token st')
            else aborted)
        else ok (true, st'))
    else ok (false, st')

abbrev pub cc_parse_pointer : Parser
cc_parse_pointer st decl = ok (false, st)

-- The `)` behind a declarator or the parameters.
unfoldable pub close_paren : ParserState → Attempt (Bool × ParserState)
unfolding cc_peek_token cc_next_token
close_paren st =
    if is_rparen (cc_peek_token st 0).type then ok (true, cc_next_token st) else aborted

-- The branch of a `(` behind the name: the type becomes a function's, and a copy of it the type that
-- the function returns.
unfoldable pub parse_parameters : (fuel : ℕ) → (declarator : Parser) → Parser
unfolding cc_ast_copy_node cc_next_token cc_parse_parameter_type_list close_paren
parse_parameters fuel declarator st decl =
    let type_def = var_type_def (node_at st.nodes decl) in
    cc_ast_copy_node st.nodes type_def >>= λ (nodes, copy_type).
    if is_new_type (node_at nodes type_def)
    then (let st1 = record (cc_next_token st) {
      nodes = set_node nodes type_def (new_type_of copy_type flags_function);
    } in
        cc_parse_parameter_type_list fuel declarator st1 decl >>= λ (ignored, st2). close_paren st2)
    else aborted

unfoldable pub cc_parse_direct_declarator : (fuel : ℕ) → (declarator : Parser) → Parser
unfolding cc_peek_token cc_next_token parse_parameters close_paren
cc_parse_direct_declarator fuel declarator st decl =
    let tok = cc_peek_token st 0 in
    let node = node_at st.nodes decl in
    let named = record (cc_next_token st) {
      nodes = set_node st.nodes decl (with_name tok.view node);
    } in
    if is_new_var node
    then elim tok.type [
      | TokenType.ident ↦
          if is_lparen (cc_peek_token named 0).type
          then parse_parameters fuel declarator named decl
          else ok (true, named)
      | TokenType.lparen ↦ declarator (cc_next_token st) decl >>= λ (found, st').
          if found then close_paren st' else aborted
      | _ ↦ ok (false, st)
    ]
    else aborted

-- `fuel` bounds the depth of the declarators.
unfoldable pub cc_parse_declarator : (fuel : ℕ) → Parser
unfolding cc_parse_direct_declarator
cc_parse_declarator zero st decl = out_of_fuel
cc_parse_declarator (suc fuel) st decl = cc_parse_pointer st decl >>= λ (ignored, st').
    cc_parse_direct_declarator fuel (cc_parse_declarator fuel) st' decl

unfoldable pub cc_parse_function_definition : (fuel : ℕ) → Parser
unfolding cc_parse_declaration_specifiers cc_parse_declarator cc_parse_compound_statement
cc_parse_function_definition fuel st decl =
    if is_new_var (node_at st.nodes decl)
    then (cc_parse_declaration_specifiers fuel st decl >>= λ (ignored, st1).
        cc_parse_declarator fuel st1 decl >>= λ (found, st2).
        if found
        then cc_parse_compound_statement fuel st2 (var_init (node_at st2.nodes decl))
        else ok (false, st2))
    else aborted

-- The reference to the declaration, or CC_AST_NIL, 0.
unfoldable pub cc_parse_external_declaration : (fuel : ℕ) → ParserState → Attempt (ℕ × ParserState)
unfolding cc_parse_function_definition cc_ast_push_node cc_ast_pop_node
cc_parse_external_declaration fuel st =
    let type_def = push_node st (new_type_of 0 0) in
    let init = push_node type_def.0 empty_block in
    let decl = push_node init.0 (new_var_of init.1 type_def.1) in
    cc_parse_function_definition fuel decl.0 decl.1 >>= λ (found, st1).
    if found
    then ok (decl.1, st1)
    else (pop_node st1 decl.1 >>= λ st2.
        pop_node st2 init.1 >>= λ st3. pop_node st3 type_def.1 >>= λ st4. ok (0, st4))

-- The loop of cc_parse_translation_unit; `left` bounds its rounds.
unfoldable pub declaration_loop : (left fuel : ℕ) → ParserState → (block : ℕ) → Attempt ParserState
unfolding cc_parse_external_declaration cc_ast_push_children_to_block
declaration_loop zero fuel st block = out_of_fuel
declaration_loop (suc left) fuel st block = cc_parse_external_declaration fuel st >>= λ (node, st1).
    let more = add_child st1 block node >>= λ st2. declaration_loop left fuel st2 block in
    if node == 0 then ok st1 else more

-- The dumps are left out.
unfoldable pub cc_parse_translation_unit : (fuel : ℕ) → ParserState → Attempt (ℕ × ParserState)
unfolding declaration_loop cc_ast_push_node cc_ast_coalesce
cc_parse_translation_unit fuel st =
    let empty_node = push_node st AstNode.invalid in
    let block = push_node empty_node.0 empty_block in
    declaration_loop fuel fuel block.0 block.1 >>= λ st1.
    cc_ast_coalesce fuel st1.nodes block.1 >>= λ (nodes, root).
    ok (root, record st1 { nodes = nodes })
