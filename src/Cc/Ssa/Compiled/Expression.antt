-- ===== src/Cc/Ssa/Compiled/Expression.antt =====
-- cc/ssa.c: proofs on the tokens that an expression is made into.
use mathlib.Core.Bool.{false≢true}
use mathlib.Core.Option.{none-ne-some}
use estros.Common.{ℕ, ◌≡◌, true, Option, some, List, [], ◌∷◌, ◌++◌, update, refl, ap, ◌∙◌}
use estros.Cc.Token.{Strview}
use estros.Cc.Ast.{Binop}
use estros.Cc.Ssa.{SsaArgument, SsaToken, SsaTokenType, zero_argument}
use estros.Cc.Ssa.Emit.{
  Emitter, index_in_type, cc_ssa_get_func_parameter_index, cc_ssa_type_from_ast_binop_type,
  is_emitted, ssa_token,
}
use estros.Cc.Ssa.Meaning.{writes, by_type, resume, run_tokens}
use estros.Cc.Ssa.Compiled.{Expr, param, operation, token_operation, token_value, IsExpr}

-- What the calls of the emitter leave alone.
pub record IsSame (emit after : Emitter) : Type 0 where
  pub same_nodes : after.state.nodes ≡ emit.state.nodes
  pub same_text : after.state.text ≡ emit.state.text
  pub same_tdef : after.tdef ≡ emit.tdef
  pub same_funcs : after.state.ssa_funcs ≡ emit.state.ssa_funcs
  pub same_name : after.func.name ≡ emit.func.name
  pub same_pos : after.func.tokens.pos ≡ emit.func.tokens.pos

pub parameter_index_same :
    (emit after : Emitter) (name : Strview)
    → IsSame emit after
    → cc_ssa_get_func_parameter_index after name ≡ cc_ssa_get_func_parameter_index emit name
unfolding cc_ssa_get_func_parameter_index
parameter_index_same emit after name s =
    ap (λ text. index_in_type text after.state.nodes after.tdef name) s.same_text
    ∙ ap (λ nodes. index_in_type emit.state.text nodes after.tdef name) s.same_nodes
    ∙ ap (λ tdef. index_in_type emit.state.text emit.state.nodes tdef name) s.same_tdef

pub IsExpr-same :
    (emit after : Emitter) (n : ℕ) (e : Expr)
    → IsSame emit after
    → IsExpr emit n e
    → IsExpr after n e
IsExpr-same emit after n (param i) s (name, at, index, small) =
    (name, rw s.same_nodes at, parameter_index_same emit after name s ∙ index, small)
IsExpr-same emit after n (operation b l r) s (lhs, rhs, at, has, hl, hr) = (
  lhs,
  rhs,
  rw s.same_nodes at,
  has,
  IsExpr-same emit after lhs l s hl,
  IsExpr-same emit after rhs r s hr,
)

pub append_assoc : (ts us vs : List SsaToken) → (ts ++ us) ++ vs ≡ ts ++ (us ++ vs)
append_assoc [] us vs = refl
append_assoc (t ∷ ts) us vs = ap (λ rest. t ∷ rest) (append_assoc ts us vs)

-- The token of an operation writes the value of the operation.
pub operation_token_lem :
    (b : Binop) → is_emitted b ≡ true → token_operation (cc_ssa_type_from_ast_binop_type b) ≡ some b
unfolding is_emitted token_operation cc_ssa_type_from_ast_binop_type
operation_token_lem Binop.add h = refl
operation_token_lem Binop.sub h = refl
operation_token_lem Binop.mul h = refl
operation_token_lem Binop.div h = refl
operation_token_lem Binop.rem h = refl
operation_token_lem Binop.bit_and h = refl
operation_token_lem Binop.bit_xor h = refl
operation_token_lem Binop.bit_or h = refl
operation_token_lem Binop.lshift h = refl
operation_token_lem Binop.rshift h = refl
operation_token_lem _ h = absurd (false≢true h)

by_type_operation {ℓ} :
    {V : Type ℓ} (type : SsaTokenType) (b : Binop) (x y z : V)
    → token_operation type ≡ some b
    → by_type type x y z ≡ writes z
unfolding by_type token_operation
by_type_operation SsaTokenType.none b x y z h = absurd (none-ne-some _ h)
by_type_operation SsaTokenType.return_token b x y z h = absurd (none-ne-some _ h)
by_type_operation SsaTokenType.identity b x y z h = absurd (none-ne-some _ h)
by_type_operation SsaTokenType.raw_data b x y z h = absurd (none-ne-some _ h)
by_type_operation _ b x y z h = refl

module _ {ℓ} {V : Type ℓ} (value : Binop → V → V → V) (junk : V) (raw : Strview → V) where
  abbrev run_values : (ℕ → V) → List SsaToken → Option V
  run_values = run_tokens (token_value value junk) raw

  -- Tokens that take one environment to another.
  abbrev pub Executes : (env : ℕ → V) → List SsaToken → (env' : ℕ → V) → Type ℓ
  Executes env ts env' =
      (later : List SsaToken) → run_values env (ts ++ later) ≡ run_values env' later

  pub Executes-append :
      (env env1 env2 : ℕ → V) (ts us : List SsaToken)
      → Executes env ts env1
      → Executes env1 us env2
      → Executes env (ts ++ us) env2
  Executes-append env env1 env2 ts us h k later =
      ap (run_values env) (append_assoc ts us later) ∙ h (us ++ later) ∙ k later

  pub Executes-identity :
      (env : ℕ → V) (res arg : SsaArgument)
      → Executes env
          (ssa_token SsaTokenType.identity res arg zero_argument ∷ [])
          (update env res.id (env arg.id))
  unfolding run_tokens by_type resume
  Executes-identity env res arg later = refl

  pub Executes-operation :
      (env : ℕ → V) (b : Binop) (res x y : SsaArgument)
      → is_emitted b ≡ true
      → Executes env
          (ssa_token (cc_ssa_type_from_ast_binop_type b) res x y ∷ [])
          (update env res.id (value b (env x.id) (env y.id)))
  unfolding run_tokens resume token_value
  Executes-operation env b res x y h later =
      rw
        (
          run_tokens,
          by_type_operation (cc_ssa_type_from_ast_binop_type b) b (env x.id)
              (raw (record { pos = 0; len = 0 })) _ (operation_token_lem b h),
          operation_token_lem b h,
        )
        refl
