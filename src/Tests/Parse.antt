-- ===== src/Tests/Parse.antt =====
-- Runs of the parser of the C compiler and of the parts behind it.
use estros.Common.{◌*◌, ℕ, ◌≡◌, refl, some, List, [], ◌∷◌}
use estros.Common.Strings.{codes, str_eq}
use estros.Cc.Token.{Token, token_list}
use estros.Cc.Lexer.{cc_tokenize}
use estros.Cc.Attempt.{Attempt, ok, aborted, ◌>>=◌}
use estros.Cc.Ast.{Binop, AstNode}
use estros.Cc.Token.{Strview}
use estros.Cc.Ssa.Meaning.{run_tokens}
use estros.Cc.Ssa.Optimise.{cc_ssa_optimise_identity, tokens_of}
use estros.Cc.Ssa.Compiled.{token_value}
use estros.Cc.Ssa.{SsaFunction, SsaArgument, SsaToken, SsaTokenType, zero_argument}
use estros.Cc.Ssa.Emit.{
  SsaState, cc_ssa_from_ast_var, parameter_index, cc_strview_get, emit_var, ssa_token,
}
use estros.Cc.Ast.{cc_ast_coalesce, node_at}
use estros.Cc.Whole.{has_level, front}
use estros.Cc.Whole.Returned.{compiler_state, front_returns}
use estros.Cc.Parser.{ParserState}
use estros.Cc.Parser.Statement.{cc_parse_compound_statement}

abbrev tokens : List ℕ → List Token
tokens text = elim (cc_tokenize 60 60 text) [ ok ts ↦ ts | _ ↦ [] ]

abbrev start : List ℕ → ParserState
start text = record {
  text = text;
  tokens = tokens text;
  cur_tok = 0;
  nodes = AstNode.invalid ∷ AstNode.block [] ∷ [];
}

abbrev body : List ℕ → Attempt ℕ
body text = cc_parse_compound_statement 10 (start text) 1 >>= λ (found, st). ok st.cur_tok

parse_difference : body (codes "{ return a - b; } ") ≡ ok 7
unfolding cc_parse_compound_statement cc_tokenize token_list
parse_difference = refl

-- Behind the second operand the operator of the same level stands where a `;` is wanted.
parse_sum_of_three : body (codes "{ return a + b + c; } ") ≡ aborted
unfolding cc_parse_compound_statement cc_tokenize token_list
parse_sum_of_three = refl

abbrev name_at : ℕ → Strview
name_at pos = record { pos = pos; len = 1 }

-- The store with the type of a function of a and b, and a block for its body.
abbrev with_type : List ℕ → ParserState
with_type text = record (start text) {
  nodes =
      AstNode.invalid
      ∷ AstNode.new_type (name_at 0) 0 (2 ∷ 3 ∷ []) 0x23 [] 0 0
      ∷ AstNode.new_var (name_at 9) 0 0 0
      ∷ AstNode.new_var (name_at 13) 0 0 0
      ∷ AstNode.block []
      ∷ [];
}

-- The intermediate code of a body, as cc_ssa_from_ast makes it of the tree that is coalesced.
abbrev compiled : List ℕ → Attempt (List SsaToken)
compiled text = cc_parse_compound_statement 10 (with_type text) 4 >>= λ (found, st).
    cc_ast_coalesce 40 st.nodes 4 >>= λ (nodes, root).
    emit_var 40 (record { text = text; nodes = nodes; ssa_funcs = []; ssa_tokens = [] }) (name_at 0)
      root (node_at nodes 1)
    >>= λ state. ok state.ssa_tokens

abbrev arg : ℕ → SsaArgument
arg i = record { id = i; width = 0 }

compile_difference :
    compiled (codes "{ return a - b; } ")
    ≡ ok (
        ssa_token SsaTokenType.identity (arg 34) (arg 2) zero_argument
        ∷ ssa_token SsaTokenType.identity (arg 35) (arg 3) zero_argument
        ∷ ssa_token SsaTokenType.sub (arg 33) (arg 34) (arg 35)
        ∷ ssa_token SsaTokenType.return_token (arg 32) (arg 33) zero_argument
        ∷ [])
unfolding cc_parse_compound_statement cc_tokenize token_list emit_var cc_ast_coalesce str_eq
compile_difference = refl

abbrev product : Binop → ℕ → ℕ → ℕ
product Binop.mul x y = x * y
product _ x y = 0

front_returns_example :
    (nodes : List AstNode) × (after : SsaState) × (func : SsaFunction) × (new : List SsaToken)
    × (front (codes "f a b") (name_at 0) (name_at 2) (name_at 4) (name_at 4) (name_at 2) Binop.mul
        ≡ ok (nodes, 4))
    × (cc_ssa_from_ast_var 4
          (compiler_state
            (codes "f a b")
            (name_at 0)
            (name_at 2)
            (name_at 4)
            (name_at 4)
            (name_at 2)
            nodes)
          4
        ≡ ok after)
    × (after.ssa_funcs ≡ func ∷ [])
    × (cc_ssa_optimise_identity (tokens_of after.ssa_tokens func) ≡ ok new)
    × ((env : ℕ → ℕ) → run_tokens (token_value product 0) (λ r. 0) env new ≡ some (env 3 * env 2))
unfolding has_level parameter_index cc_strview_get str_eq
front_returns_example =
    front_returns product 0 (λ r. 0) (codes "f a b") (name_at 0) (name_at 2) (name_at 4) (name_at 4)
      (name_at 2) Binop.mul 1 0 refl refl refl
