-- ===== src/Cc/Whole/Lines.antt =====
-- cc/: the whole compiler on the tokens of `int f(int x, int y) { return a op b; }`.
pub mod Emitted
pub mod Lowered
pub mod Compiled
pub mod Started
pub mod Toolchain
pub mod Executed
pub mod Assembled
use Prim.Native.String.{String}
use estros.Common.{ℕ, ◌^◌, ◌%◌, ◌+◌, List, [], ◌∷◌, if◌then◌else◌}
use estros.Common.Strings.{str_eq}
use estros.Cc.Token.{Strview, Token, TokenType}
use estros.Cc.Attempt.{Attempt, ok, aborted}
use estros.Cc.Ast.{AstNode, Binop}
use estros.Cc.Ssa.{SsaArgument, SsaToken, SsaTokenType, zero_argument, id_param, width_set}
use estros.Cc.Ssa.Emit.{SsaState, cc_strview_get, ssa_token, cc_ssa_type_from_ast_binop_type}
use estros.Cc.Asm.Lower.{AsmLine}
use estros.Cc.Whole.{token, blank}

abbrev pub function_tokens : (f x y a b : Strview) → TokenType → List Token
function_tokens f x y a b op =
    token TokenType.kw_int blank
    ∷ token TokenType.ident f
    ∷ token TokenType.lparen blank
    ∷ token TokenType.kw_int blank
    ∷ token TokenType.ident x
    ∷ token TokenType.comma blank
    ∷ token TokenType.kw_int blank
    ∷ token TokenType.ident y
    ∷ token TokenType.rparen blank
    ∷ token TokenType.lbrace blank
    ∷ token TokenType.kw_return blank
    ∷ token TokenType.ident a
    ∷ token op blank
    ∷ token TokenType.ident b
    ∷ token TokenType.semi blank
    ∷ token TokenType.rbrace blank
    ∷ []

-- The parameter that a name means.
pub data Place : Type 0 where
  nowhere first second : Place

-- The first of the two parameters with the name.
unfoldable pub place : (text : List ℕ) → (x y name : Strview) → Place
place text x y name =
    if str_eq (cc_strview_get text name) (cc_strview_get text x)
    then first
    else (if str_eq (cc_strview_get text name) (cc_strview_get text y) then second else nowhere)

abbrev pub found : Place → Attempt ℕ
found nowhere = aborted
found first = ok 0
found second = ok 1

-- The instruction of an operation of the language.
unfoldable pub instruction : Binop → String
instruction Binop.add = "add"
instruction Binop.sub = "sub"
instruction Binop.mul = "mul"
instruction Binop.div = "div"
instruction Binop.rem = "rem"
instruction Binop.lshift = "shl"
instruction Binop.rshift = "shr"
instruction Binop.bit_and = "and"
instruction Binop.bit_xor = "xor"
instruction Binop.bit_or = "or"
instruction _ = ""

-- The lines of the function: T0, register 16, gets the result of the operation on the registers of
-- the parameters, of which A0 has the number 24.
abbrev pub function_lines : (name : List ℕ) → Binop → (i j : ℕ) → List AsmLine
function_lines name op i j =
    AsmLine.section_text
    ∷ AsmLine.func_label name
    ∷ AsmLine.three_regs (instruction op) 16 (24 + i) (24 + j)
    ∷ AsmLine.ret
    ∷ AsmLine.section_data
    ∷ []

abbrev pub lines_or_abort : (name : List ℕ) → Binop → (p q : Place) → Attempt (List AsmLine)
lines_or_abort name op first first = ok (function_lines name op 0 0)
lines_or_abort name op first second = ok (function_lines name op 0 1)
lines_or_abort name op second first = ok (function_lines name op 1 0)
lines_or_abort name op second second = ok (function_lines name op 1 1)
lines_or_abort name op _ _ = aborted

-- The tokens of the body.
abbrev pub body_tokens : Binop → (i j : ℕ) → List SsaToken
body_tokens op i j =
    let temporary : ℕ → SsaArgument = λ n. record { id = 32 + n; width = width_set 32 } in
    let parameter : ℕ → SsaArgument = λ n. record { id = id_param n % 2 ^ 12; width = 0 } in
    ssa_token SsaTokenType.identity (temporary 2) (parameter i) zero_argument
    ∷ ssa_token SsaTokenType.identity (temporary 3) (parameter j) zero_argument
    ∷ ssa_token (cc_ssa_type_from_ast_binop_type op) (temporary 1) (temporary 2) (temporary 3)
    ∷ ssa_token SsaTokenType.return_token (temporary 0) (temporary 1) zero_argument
    ∷ []

abbrev pub emitted : (text : List ℕ) → List AstNode → (f : Strview) → Binop → (i j : ℕ) → SsaState
emitted text nodes f op i j = record {
  text = text;
  nodes = nodes;
  ssa_funcs = record { name = f; tokens = record { pos = 0; len = 4 } } ∷ [];
  ssa_tokens = body_tokens op i j;
}
