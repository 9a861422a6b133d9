-- ===== src/Cc/Whole.antt =====
-- cc/: the parser, the tree and the intermediate code together, on the body `{ return a op b; }` of a
-- function of two parameters.
pub mod Returned
pub mod Lines
pub mod Grouping
pub mod Declared
use mathlib.Core.Bool.{false≢true}
use estros.Common.{
  ◌∙◌, ◌&&◌, ◌==◌, if◌then◌else◌, ℕ, ◌<◌, ◌≡◌, Bool, true, false, some, List, [], ◌∷◌, refl, arith,
}
use estros.Cc.Token.{Strview, Token, TokenType}
use estros.Cc.Attempt.{Attempt, ok, aborted, ◌>>=◌}
use estros.Cc.Ast.{AstNode, Binop, cc_ast_coalesce, node_at, flags_function}
use estros.Cc.Ssa.{SsaFunction, SsaToken, id_param}
use estros.Cc.Ssa.Emit.{
  SsaState, index_in_type, parameter_index, cc_ssa_get_func_parameter_index, is_emitted,
  cc_ssa_from_ast_var,
}
use estros.Cc.Ssa.Meaning.{run_tokens}
use estros.Cc.Ssa.Optimise.{cc_ssa_optimise_identity, tokens_of}
use estros.Cc.Ssa.Compiled.{param, operation, token_value}
use estros.Cc.Ssa.Compiled.Returned.{IsReturning, cc_ssa_from_ast_var_returns}
use estros.Cc.Parser.{ParserState}
use estros.Cc.Parser.Statement.{cc_parse_compound_statement}

-- How an operation is spelled.
abbrev pub spelled : Binop → TokenType
spelled Binop.add = TokenType.add
spelled Binop.sub = TokenType.sub
spelled Binop.mul = TokenType.asterisk
spelled Binop.div = TokenType.div
spelled Binop.lshift = TokenType.lshift
spelled Binop.rshift = TokenType.rshift
spelled Binop.bit_and = TokenType.ampersand
spelled Binop.bit_xor = TokenType.bit_xor
spelled Binop.bit_or = TokenType.bit_or
spelled _ = TokenType.invalid

abbrev pub token : TokenType → Strview → Token
token type view = record { view = view; type = type }

abbrev pub blank : Strview
blank = record { pos = 0; len = 0 }

-- The operations that a parser of CC_PARSE_BINOP_DEFINE and a token of cc/ssa.h are for.
unfoldable pub has_level : Binop → Bool
has_level Binop.add = true
has_level Binop.sub = true
has_level Binop.mul = true
has_level Binop.div = true
has_level Binop.lshift = true
has_level Binop.rshift = true
has_level Binop.bit_and = true
has_level Binop.bit_xor = true
has_level Binop.bit_or = true
has_level _ = false

-- The place of an operation's parser in the chain of CC_PARSE_BINOP_DEFINE.
unfoldable pub level : Binop → ℕ
level Binop.mul = 1
level Binop.div = 2
level Binop.sub = 3
level Binop.add = 4
level Binop.lshift = 5
level Binop.rshift = 6
level Binop.bit_and = 12
level Binop.bit_xor = 13
level Binop.bit_or = 14
level _ = 0

-- To check a property of the nine operations one by one.
pub each_operation {ℓ} :
    (P : Binop → Type ℓ)
    → P Binop.add
      × P Binop.sub
      × P Binop.mul
      × P Binop.div
      × P Binop.lshift
      × P Binop.rshift
      × P Binop.bit_and
      × P Binop.bit_xor
      × P Binop.bit_or
    → (op : Binop) → has_level op ≡ true
    → P op
unfolding has_level
each_operation P all Binop.add h = all.0
each_operation P all Binop.sub h = all.1
each_operation P all Binop.mul h = all.2
each_operation P all Binop.div h = all.3
each_operation P all Binop.lshift h = all.4
each_operation P all Binop.rshift h = all.5
each_operation P all Binop.bit_and h = all.6
each_operation P all Binop.bit_xor h = all.7
each_operation P all Binop.bit_or h = all.8
each_operation P all _ h = absurd (false≢true h)

has_level-is_emitted : (op : Binop) → has_level op ≡ true → is_emitted op ≡ true
unfolding is_emitted
has_level-is_emitted =
    each_operation (λ op. is_emitted op ≡ true)
      (refl, refl, refl, refl, refl, refl, refl, refl, refl)

abbrev nodes_or_none : Attempt (List AstNode × ℕ) → List AstNode
nodes_or_none (ok (nodes, root)) = nodes
nodes_or_none _ = []

abbrev pub rhs_of : AstNode → ℕ
rhs_of (AstNode.binop op lhs rhs) = rhs
rhs_of _ = 0

module _ (text : List ℕ) (f first second a b : Strview) where
  abbrev pub function_type : AstNode
  function_type = AstNode.new_type f 0 (2 ∷ 3 ∷ []) flags_function [] 0 0

  abbrev pub parsed : Binop → ParserState
  parsed op = record {
    text = text;
    tokens =
        token TokenType.lbrace blank
        ∷ token TokenType.kw_return blank
        ∷ token TokenType.ident a
        ∷ token (spelled op) blank
        ∷ token TokenType.ident b
        ∷ token TokenType.semi blank
        ∷ token TokenType.rbrace blank
        ∷ [];
    cur_tok = 0;
    nodes =
        AstNode.invalid
        ∷ function_type
        ∷ AstNode.new_var first 0 0 0
        ∷ AstNode.new_var second 0 0 0
        ∷ AstNode.new_var f 5 1 0
        ∷ AstNode.block []
        ∷ [];
  }

  -- The body is parsed to its last token, and the function's variable, which is node 4, coalesced.
  unfoldable pub front : Binop → Attempt (List AstNode × ℕ)
  unfolding cc_parse_compound_statement cc_ast_coalesce
  front op = cc_parse_compound_statement 5 (parsed op) 5 >>= λ (found, st).
      if found && st.cur_tok == 7 then cc_ast_coalesce 10 st.nodes 4 else aborted

  unfoldable store : Binop → List AstNode
  unfolding front
  store op = nodes_or_none (front op)

  abbrev right : Binop → ℕ
  right op = rhs_of (node_at (store op) 27)

  front-store : (op : Binop) → has_level op ≡ true → front op ≡ ok (store op, 4)
  unfolding front store
  front-store =
      each_operation (λ op. front op ≡ ok (store op, 4))
        (refl, refl, refl, refl, refl, refl, refl, refl, refl)

  -- The nodes of the function, the return, the operation and its operands.
  abbrev IsTree : Binop → Type 0
  IsTree op =
      (node_at (store op) 4 ≡ AstNode.new_var f 7 1 0)
      × (node_at (store op) 1 ≡ function_type)
      × (node_at (store op) 7 ≡ AstNode.return_node 27)
      × (node_at (store op) 27 ≡ AstNode.binop op 25 (right op))
      × (node_at (store op) 25 ≡ AstNode.ref_var a)
      × (node_at (store op) (right op) ≡ AstNode.ref_var b)

  store-IsTree : (op : Binop) → has_level op ≡ true → IsTree op
  unfolding front store
  store-IsTree = each_operation IsTree (
    (refl, refl, refl, refl, refl, refl),
    (refl, refl, refl, refl, refl, refl),
    (refl, refl, refl, refl, refl, refl),
    (refl, refl, refl, refl, refl, refl),
    (refl, refl, refl, refl, refl, refl),
    (refl, refl, refl, refl, refl, refl),
    (refl, refl, refl, refl, refl, refl),
    (refl, refl, refl, refl, refl, refl),
    (refl, refl, refl, refl, refl, refl),
  )

  -- The parameters are found as they were before.
  index_in_store :
      (op : Binop) (name : Strview)
      → has_level op ≡ true
      → index_in_type text (store op) function_type name
        ≡ index_in_type text (parsed op).nodes function_type name
  unfolding front store parameter_index
  index_in_store op name =
      each_operation
        (λ op'.
          index_in_type text (store op') function_type name
          ≡ index_in_type text (parsed op').nodes function_type name)
        (refl, refl, refl, refl, refl, refl, refl, refl, refl) op
