-- ===== src/Cc/Token.antt =====
-- cc/lexer.h: the tokens and TOKEN_LIST, in the order of the source. A keyword's constructor is its
-- text behind `kw_`, in lower case.
use Prim.Native.String.{String}
use estros.Common.{ℕ, Bool, true, false, List, [], ◌∷◌, ◌++◌}

-- `struct cc_strview`.
pub record Strview : Type 0 where
  pub pos : ℕ
  pub len : ℕ

-- `enum cc_token_type`.
pub data TokenType : Type 0 where
  invalid ident literal : TokenType
  ellipsis assign_lshift assign_rshift double_colon increment decrement cond_lte : TokenType
  cond_gte cond_eq cond_neq cond_or cond_and assign_add assign_sub assign_div : TokenType
  assign_rem assign_mul assign_and assign_xor assign_or lshift rshift arrow : TokenType
  cond_not not add sub div rem asterisk ampersand bit_xor bit_or qmark colon semi : TokenType
  comma cond_lt cond_gt assign lbrace rbrace lparen rparen lbracket rbracket : TokenType
  hashtag dot kw__static_assert kw__thread_local kw_typeof_unqual kw_static_assert : TokenType
  kw_thread_local kw__decimal128 kw__imaginary kw__decimal64 kw__decimal32 : TokenType
  kw__noreturn kw_constexpr kw__generic kw__complex kw__alignof kw__alignas : TokenType
  kw_volatile kw_unsigned kw_restrict kw_register kw_continue kw__bitint : TokenType
  kw__atomic kw_typedef kw_nullptr kw_default kw_alignof kw_alignas kw_typeof : TokenType
  kw_switch kw_struct kw_static kw_sizeof kw_signed kw_return kw_inline kw_extern : TokenType
  kw_double kw__bool kw_while kw_union kw_short kw_float kw_false kw_const : TokenType
  kw_break kw_void kw_true kw_long kw_goto kw_enum kw_else kw_char kw_case kw_bool : TokenType
  kw_auto kw_int kw_for kw_if kw_do : TokenType

-- `struct cc_token`; its `data` is the view.
pub record Token : Type 0 where
  pub view : Strview
  pub type : TokenType

-- A TOKEN_ELEM or a TOKEN_KW of TOKEN_LIST.
pub record TokenRule : Type 0 where
  pub is_kw : Bool
  pub type : TokenType
  pub text : String

abbrev pub token_elem : TokenType → String → TokenRule
token_elem t s = record { is_kw = false; type = t; text = s }

abbrev token_kw : TokenType → String → TokenRule
token_kw t s = record { is_kw = true; type = t; text = s }

unfoldable pub token_elems : List TokenRule
token_elems =
    token_elem TokenType.ellipsis "..."
    ∷ token_elem TokenType.assign_lshift "<<="
    ∷ token_elem TokenType.assign_rshift ">>="
    ∷ token_elem TokenType.double_colon "::"
    ∷ token_elem TokenType.increment "++"
    ∷ token_elem TokenType.decrement "--"
    ∷ token_elem TokenType.cond_lte "<="
    ∷ token_elem TokenType.cond_gte ">="
    ∷ token_elem TokenType.cond_eq "=="
    ∷ token_elem TokenType.cond_neq "!="
    ∷ token_elem TokenType.cond_or "||"
    ∷ token_elem TokenType.cond_and "&&"
    ∷ token_elem TokenType.assign_add "+="
    ∷ token_elem TokenType.assign_sub "-="
    ∷ token_elem TokenType.assign_div "/="
    ∷ token_elem TokenType.assign_rem "%="
    ∷ token_elem TokenType.assign_mul "*="
    ∷ token_elem TokenType.assign_and "&="
    ∷ token_elem TokenType.assign_xor "^="
    ∷ token_elem TokenType.assign_or "|="
    ∷ token_elem TokenType.lshift "<<"
    ∷ token_elem TokenType.rshift ">>"
    ∷ token_elem TokenType.arrow "->"
    ∷ token_elem TokenType.cond_not "!"
    ∷ token_elem TokenType.not "~"
    ∷ token_elem TokenType.add "+"
    ∷ token_elem TokenType.sub "-"
    ∷ token_elem TokenType.div "/"
    ∷ token_elem TokenType.rem "%"
    ∷ token_elem TokenType.asterisk "*"
    ∷ token_elem TokenType.ampersand "&"
    ∷ token_elem TokenType.bit_xor "^"
    ∷ token_elem TokenType.bit_or "|"
    ∷ token_elem TokenType.qmark "?"
    ∷ token_elem TokenType.colon ":"
    ∷ token_elem TokenType.semi ";"
    ∷ token_elem TokenType.comma ","
    ∷ token_elem TokenType.cond_lt "<"
    ∷ token_elem TokenType.cond_gt ">"
    ∷ token_elem TokenType.assign "="
    ∷ token_elem TokenType.lbrace "{"
    ∷ token_elem TokenType.rbrace "}"
    ∷ token_elem TokenType.lparen "("
    ∷ token_elem TokenType.rparen ")"
    ∷ token_elem TokenType.lbracket "["
    ∷ token_elem TokenType.rbracket "]"
    ∷ token_elem TokenType.hashtag "#"
    ∷ token_elem TokenType.dot "."
    ∷ []

unfoldable pub token_kws : List TokenRule
token_kws =
    token_kw TokenType.kw__static_assert "_Static_assert"
    ∷ token_kw TokenType.kw__thread_local "_Thread_local"
    ∷ token_kw TokenType.kw_typeof_unqual "typeof_unqual"
    ∷ token_kw TokenType.kw_static_assert "static_assert"
    ∷ token_kw TokenType.kw_thread_local "thread_local"
    ∷ token_kw TokenType.kw__decimal128 "_Decimal128"
    ∷ token_kw TokenType.kw__imaginary "_Imaginary"
    ∷ token_kw TokenType.kw__decimal64 "_Decimal64"
    ∷ token_kw TokenType.kw__decimal32 "_Decimal32"
    ∷ token_kw TokenType.kw__noreturn "_Noreturn"
    ∷ token_kw TokenType.kw_constexpr "constexpr"
    ∷ token_kw TokenType.kw__generic "_Generic"
    ∷ token_kw TokenType.kw__complex "_Complex"
    ∷ token_kw TokenType.kw__alignof "_Alignof"
    ∷ token_kw TokenType.kw__alignas "_Alignas"
    ∷ token_kw TokenType.kw_volatile "volatile"
    ∷ token_kw TokenType.kw_unsigned "unsigned"
    ∷ token_kw TokenType.kw_restrict "restrict"
    ∷ token_kw TokenType.kw_register "register"
    ∷ token_kw TokenType.kw_continue "continue"
    ∷ token_kw TokenType.kw__bitint "_BitInt"
    ∷ token_kw TokenType.kw__atomic "_Atomic"
    ∷ token_kw TokenType.kw_typedef "typedef"
    ∷ token_kw TokenType.kw_nullptr "nullptr"
    ∷ token_kw TokenType.kw_default "default"
    ∷ token_kw TokenType.kw_alignof "alignof"
    ∷ token_kw TokenType.kw_alignas "alignas"
    ∷ token_kw TokenType.kw_typeof "typeof"
    ∷ token_kw TokenType.kw_switch "switch"
    ∷ token_kw TokenType.kw_struct "struct"
    ∷ token_kw TokenType.kw_static "static"
    ∷ token_kw TokenType.kw_sizeof "sizeof"
    ∷ token_kw TokenType.kw_signed "signed"
    ∷ token_kw TokenType.kw_return "return"
    ∷ token_kw TokenType.kw_inline "inline"
    ∷ token_kw TokenType.kw_extern "extern"
    ∷ token_kw TokenType.kw_double "double"
    ∷ token_kw TokenType.kw__bool "_Bool"
    ∷ token_kw TokenType.kw_while "while"
    ∷ token_kw TokenType.kw_union "union"
    ∷ token_kw TokenType.kw_short "short"
    ∷ token_kw TokenType.kw_float "float"
    ∷ token_kw TokenType.kw_false "false"
    ∷ token_kw TokenType.kw_const "const"
    ∷ token_kw TokenType.kw_break "break"
    ∷ token_kw TokenType.kw_void "void"
    ∷ token_kw TokenType.kw_true "true"
    ∷ token_kw TokenType.kw_long "long"
    ∷ token_kw TokenType.kw_goto "goto"
    ∷ token_kw TokenType.kw_enum "enum"
    ∷ token_kw TokenType.kw_else "else"
    ∷ token_kw TokenType.kw_char "char"
    ∷ token_kw TokenType.kw_case "case"
    ∷ token_kw TokenType.kw_bool "bool"
    ∷ token_kw TokenType.kw_auto "auto"
    ∷ token_kw TokenType.kw_int "int"
    ∷ token_kw TokenType.kw_for "for"
    ∷ token_kw TokenType.kw_if "if"
    ∷ token_kw TokenType.kw_do "do"
    ∷ []

unfoldable pub token_list : List TokenRule
unfolding token_elems token_kws
token_list = token_elems ++ token_kws
