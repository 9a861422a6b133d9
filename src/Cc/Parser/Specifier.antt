-- ===== src/Cc/Parser/Specifier.antt =====
-- cc/parser.c: the specifiers of a declaration.
use estros.Common.{ℕ, zero, suc, Bool, true, false, Option, none, some, if◌then◌else◌, bit_or}
use estros.Cc.Token.{TokenType}
use estros.Cc.Attempt.{Attempt, ok, aborted, out_of_fuel, ◌>>=◌}
use estros.Cc.Ast.{AstNode, node_at, set_node, is_new_type}
use estros.Cc.Parser.{ParserState, Parser, cc_peek_token, cc_next_token}

abbrev pub is_new_var : AstNode → Bool
is_new_var (AstNode.new_var name init type_def flags) = true
is_new_var _ = false

abbrev pub var_type_def : AstNode → ℕ
var_type_def (AstNode.new_var name init type_def flags) = type_def
var_type_def _ = 0

abbrev pub var_init : AstNode → ℕ
var_init (AstNode.new_var name init type_def flags) = init
var_init _ = 0

-- The flag of a storage class, CC_AST_VAR_FLAGS_; `register` and `auto` have none.
abbrev pub storage_flag : TokenType → Option ℕ
storage_flag TokenType.kw_typedef = some 0x01
storage_flag TokenType.kw_thread_local = some 0x04
storage_flag TokenType.kw__thread_local = some 0x04
storage_flag TokenType.kw_extern = some 0x10
storage_flag TokenType.kw_static = some 0x02
storage_flag TokenType.kw_register = some 0
storage_flag TokenType.kw_auto = some 0
storage_flag _ = none

-- The flag of a type, CC_AST_TYPE_FLAGS_. For a second `long` the code reads `new_var.flags` of a
-- NEW_TYPE, which are bytes that no field of a NEW_TYPE holds, taken for zero: it is like the first.
abbrev pub type_flag : TokenType → Option ℕ
type_flag TokenType.kw_void = some 0
type_flag TokenType.kw_char = some 2
type_flag TokenType.kw_short = some 3
type_flag TokenType.kw_int = some 4
type_flag TokenType.kw_long = some 5
type_flag TokenType.kw_float = some 7
type_flag TokenType.kw_double = some 8
type_flag TokenType.kw_bool = some 1
type_flag TokenType.kw__bool = some 1
type_flag _ = none

-- `node->data... .flags |= flag`.
abbrev pub with_flag : ℕ → AstNode → AstNode
with_flag flag (AstNode.new_var name init type_def flags) =
    AstNode.new_var name init type_def (bit_or flags flag)
with_flag flag (AstNode.new_type name return_type childs flags qual_length qual_v qual_c) =
    AstNode.new_type name return_type childs (bit_or flags flag) qual_length qual_v qual_c
with_flag flag node = node

-- A token that has a flag is read, and the flag set at the node `n`.
abbrev pub read_flag : Option ℕ → ParserState → (n : ℕ) → Bool × ParserState
read_flag none st n = (false, st)
read_flag (some flag) st n = (
  true,
  record (cc_next_token st) { nodes = set_node st.nodes n (with_flag flag (node_at st.nodes n)) },
)

unfoldable pub cc_parse_storage_class_specifier : Parser
unfolding cc_peek_token cc_next_token
cc_parse_storage_class_specifier st decl =
    if is_new_var (node_at st.nodes decl)
    then ok (read_flag (storage_flag (cc_peek_token st 0).type) st decl)
    else aborted

unfoldable pub cc_parse_type_specifier : Parser
unfolding cc_peek_token cc_next_token
cc_parse_type_specifier st type_def =
    if is_new_type (node_at st.nodes type_def)
    then ok (read_flag (type_flag (cc_peek_token st 0).type) st type_def)
    else aborted

abbrev pub cc_parse_type_qualifier : ParserState → Attempt (Bool × ParserState)
cc_parse_type_qualifier st = ok (false, st)

-- The three parsers that `||` joins.
unfoldable pub parse_specifier : Parser
unfolding cc_parse_storage_class_specifier cc_parse_type_specifier
parse_specifier st decl = cc_parse_storage_class_specifier st decl >>= λ (storage, st1).
    if storage
    then ok (true, st1)
    else (cc_parse_type_specifier st1 (var_type_def (node_at st1.nodes decl)) >>= λ (type, st2).
        if type then ok (true, st2) else cc_parse_type_qualifier st2)

-- `fuel` bounds the number of specifiers.
unfoldable pub cc_parse_declaration_specifiers : (fuel : ℕ) → Parser
unfolding parse_specifier
cc_parse_declaration_specifiers zero st decl = out_of_fuel
cc_parse_declaration_specifiers (suc fuel) st decl =
    if is_new_var (node_at st.nodes decl)
    then (parse_specifier st decl >>= λ (found, st').
        let more =
          cc_parse_declaration_specifiers fuel st' decl >>= λ (ignored, st''). ok (true, st'') in
        if found then more else ok (false, st'))
    else aborted
