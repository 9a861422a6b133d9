-- ===== src/Cc/Ssa/Optimise/Reused.antt =====
-- cc/ssa.c: proofs on the removal of tokens whose result is there.
use mathlib.Core.Bool.{false≢true}
use estros.Common.{
  ℕ, suc, ◌≡◌, ◌≢◌, true, false, Option, some, List, [], ◌∷◌, ◌==◌, length, update, update_self,
  update-ne, refl, arith, ap, ap₂, ◌∙◌,
}
use estros.Cc.Token.{Strview}
use estros.Cc.Ast.{Binop}
use estros.Cc.Ssa.{SsaArgument, SsaToken, SsaTokenType, type_code, is_raw_data, zero_argument}
use estros.Cc.Ssa.Emit.{cc_ssa_type_from_ast_binop_type, is_emitted, ssa_token}
use estros.Cc.Ssa.Meaning.{run_tokens, resume, by_type}
use estros.Cc.Ssa.Optimise.{
  cc_ssa_replace_with, merge_loop, reused_loop, cc_ssa_optimise_reused, eliminate, replace_in,
}
use estros.Cc.Ssa.Compiled.{token_value}
use estros.Cc.Ssa.Compiled.Expression.{Executes-operation}

abbrev pub op_token : Binop → (result arg0 arg1 : SsaArgument) → SsaToken
op_token b = ssa_token (cc_ssa_type_from_ast_binop_type b)

abbrev pub ret_token : (result arg : SsaArgument) → SsaToken
ret_token res arg = ssa_token SsaTokenType.return_token res arg zero_argument

-- What the type of an operation's token is not.
operation_type :
    (b : Binop)
    → is_emitted b ≡ true
    → (is_raw_data (cc_ssa_type_from_ast_binop_type b) ≡ false)
      × ((type_code SsaTokenType.return_token == type_code (cc_ssa_type_from_ast_binop_type b))
          ≡ false)
unfolding cc_ssa_type_from_ast_binop_type is_emitted
operation_type Binop.add h = (refl, refl)
operation_type Binop.sub h = (refl, refl)
operation_type Binop.mul h = (refl, refl)
operation_type Binop.div h = (refl, refl)
operation_type Binop.rem h = (refl, refl)
operation_type Binop.bit_and h = (refl, refl)
operation_type Binop.bit_xor h = (refl, refl)
operation_type Binop.bit_or h = (refl, refl)
operation_type Binop.lshift h = (refl, refl)
operation_type Binop.rshift h = (refl, refl)
operation_type _ h = absurd (false≢true h)

==_self : (n : ℕ) → (n == n) ≡ true
==_self n = ground arith

merge_twice :
    (b : Binop) (a y z r1 r2 r3 : SsaArgument)
    → is_emitted b ≡ true
    → merge_loop 2 (op_token b r1 a y) (op_token b r2 a z ∷ ret_token r3 r2 ∷ [])
      ≡ eliminate (op_token b r2 a z) ∷ replace_in r2 r1 (ret_token r3 r2) ∷ []
unfolding merge_loop cc_ssa_replace_with
merge_twice b a y z r1 r2 r3 h =
    let (raw, ret) = operation_type b h in
    rw (==_self (type_code (cc_ssa_type_from_ast_binop_type b)), ==_self a.id, ==_self a.width, ret)
      refl

reused_loop-cons :
    (left : ℕ) (t : SsaToken) (ts : List SsaToken)
    → is_raw_data t.type ≡ false
    → reused_loop (suc left) (t ∷ ts) ≡ t ∷ reused_loop left (merge_loop (length ts) t ts)
unfolding reused_loop
reused_loop-cons left t ts h = rw h refl

optimise_reused_twice :
    (b : Binop) (a y z r1 r2 r3 : SsaArgument)
    → is_emitted b ≡ true
    → cc_ssa_optimise_reused (op_token b r1 a y ∷ op_token b r2 a z ∷ ret_token r3 r2 ∷ [])
      ≡ op_token b r1 a y ∷ eliminate (op_token b r2 a z) ∷ replace_in r2 r1 (ret_token r3 r2) ∷ []
unfolding cc_ssa_optimise_reused reused_loop merge_loop
optimise_reused_twice b a y z r1 r2 r3 h =
    reused_loop-cons 2 (op_token b r1 a y) (op_token b r2 a z ∷ ret_token r3 r2 ∷ [])
      (operation_type b h).0
    ∙ ap (λ ts. op_token b r1 a y ∷ reused_loop 2 ts) (merge_twice b a y z r1 r2 r3 h)

module _ {ℓ} {V : Type ℓ} (value : Binop → V → V → V) (junk : V) (raw : Strview → V) where
  abbrev run_values : (ℕ → V) → List SsaToken → Option V
  run_values = run_tokens (token_value value junk) raw

  run_rest :
      (env : ℕ → V) (t : SsaToken) (r1 r2 r3 : SsaArgument)
      → run_values env (eliminate t ∷ replace_in r2 r1 (ret_token r3 r2) ∷ []) ≡ some (env r1.id)
  unfolding run_tokens resume by_type
  run_rest env t r1 r2 r3 = rw (==_self r2.id) refl

  run_returns :
      (env : ℕ → V) (res arg : SsaArgument)
      → run_values env (ret_token res arg ∷ []) ≡ some (env arg.id)
  unfolding run_tokens resume by_type
  run_returns env res arg = refl

  -- Of two tokens with the same operation and the same first argument the second is taken for the
  -- first, whatever the second arguments are: a function that computes `a op y` and then `a op z` and
  -- returns the latter gives back `a op z` before the pass and `a op y` after it, where neither a nor
  -- z is the result of the first token.
  pub cc_ssa_optimise_reused_twice :
      (b : Binop) (a y z r1 r2 r3 : SsaArgument) (env : ℕ → V)
      → is_emitted b ≡ true
      → a.id ≢ r1.id
      → z.id ≢ r1.id
      → (run_values env (op_token b r1 a y ∷ op_token b r2 a z ∷ ret_token r3 r2 ∷ [])
          ≡ some (value b (env a.id) (env z.id)))
        × (run_values env (
              cc_ssa_optimise_reused (op_token b r1 a y ∷ op_token b r2 a z ∷ ret_token r3 r2 ∷ []))
            ≡ some (value b (env a.id) (env y.id)))
  cc_ssa_optimise_reused_twice b a y z r1 r2 r3 env h ha hz =
      let v = value b (env a.id) (env y.id) in
      let env1 = update env r1.id v in
      let w = value b (env1 a.id) (env1 z.id) in
      (
        Executes-operation value junk raw env b r1 a y h (op_token b r2 a z ∷ ret_token r3 r2 ∷ [])
            ∙ Executes-operation value junk raw env1 b r2 a z h (ret_token r3 r2 ∷ [])
            ∙ run_returns (update env1 r2.id w) r3 r2
            ∙ ap some (
                update_self env1 r2.id w
                ∙ ap₂ (value b) (update-ne env r1.id v a.id ha) (update-ne env r1.id v z.id hz)),
        ap (run_values env) (optimise_reused_twice b a y z r1 r2 r3 h)
            ∙ Executes-operation value junk raw env b r1 a y h
                (eliminate (op_token b r2 a z) ∷ replace_in r2 r1 (ret_token r3 r2) ∷ [])
            ∙ run_rest env1 (op_token b r2 a z) r1 r2 r3
            ∙ ap some (update_self env r1.id v),
      )
