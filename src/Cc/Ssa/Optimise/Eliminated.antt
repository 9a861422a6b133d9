-- ===== src/Cc/Ssa/Optimise/Eliminated.antt =====
-- cc/ssa.c: proofs on the rounds of the elimination of identity tokens.
use estros.Common.{
  ℕ, zero, suc, ◌≡◌, ◌≢◌, true, List, [], ◌∷◌, inl, inr, Bool-cases, length, update, update_self,
  update-ne, refl, sym, ap, ◌∙◌,
}
use estros.Cc.Token.{Strview}
use estros.Cc.Attempt.{Attempt, ok}
use estros.Cc.Ssa.{SsaArgument, SsaToken, SsaTokenType, first_arg, is_identity}
use estros.Cc.Ssa.Meaning.{by_type, resume, resume_same, effect, run_tokens}
use estros.Cc.Ssa.Optimise.{cc_ssa_replace_with, eliminate, identity_loop, cc_ssa_optimise_identity}
use estros.Cc.Ssa.Optimise.Identity.{
  IsFresh, IsSsa, HasIds, ids_ne, IsSsa-replace, HasIds-replace, run_replaced, is_identity_type,
}

module _ {ℓ} {V : Type ℓ} (op : SsaTokenType → List V → V) (raw : Strview → V) where
  run_identity :
      (t : SsaToken) (ts : List SsaToken) (env : ℕ → V)
      → is_identity t.type ≡ true
      → run_tokens op raw env (t ∷ ts)
        ≡ run_tokens op raw (update env t.result.id (env (first_arg t.args).id)) ts
  unfolding run_tokens by_type resume
  run_identity t ts env h = rw (is_identity_type t.type h) refl

  -- What the elimination of a first identity token comes to, before the later rounds.
  run_eliminated :
      (t : SsaToken) (ts : List SsaToken) (env : ℕ → V)
      → is_identity t.type ≡ true
      → t.result.id ≢ 0
      → IsFresh t.result.id ts
      → IsFresh (first_arg t.args).id ts
      → run_tokens op raw env (cc_ssa_replace_with t.result (first_arg t.args) ts)
        ≡ run_tokens op raw env (t ∷ ts)
  run_eliminated t ts env h some_id fresh fresh_arg =
      run_replaced op raw t.result (first_arg t.args) some_id ts
        (update env t.result.id (env (first_arg t.args).id)) env fresh fresh_arg
        (
          λ x ne. update-ne env t.result.id (env (first_arg t.args).id) x ne,
          update_self env t.result.id (env (first_arg t.args).id),
        )
      ∙ sym (run_identity t ts env h)

  run_none :
      (t : SsaToken) (ts : List SsaToken) (env : ℕ → V)
      → run_tokens op raw env (eliminate t ∷ ts) ≡ run_tokens op raw env ts
  unfolding run_tokens by_type resume
  run_none t ts env = refl

  run_same :
      (t : SsaToken) (ts new : List SsaToken) (env : ℕ → V)
      → ((env : ℕ → V) → run_tokens op raw env new ≡ run_tokens op raw env ts)
      → run_tokens op raw env (t ∷ new) ≡ run_tokens op raw env (t ∷ ts)
  unfolding run_tokens
  run_same t ts new env h =
      resume_same (effect op raw env t) t.result.id env env _ _ (h env)
        (λ v. h (update env t.result.id v))

  -- What the tokens come to, and that each new list of tokens computes the same.
  abbrev Keeps : List SsaToken → Attempt (List SsaToken) → Type ℓ
  Keeps ts r =
      (new : List SsaToken) × (r ≡ ok new)
      × ((env : ℕ → V) → run_tokens op raw env new ≡ run_tokens op raw env ts)

  length-replace :
      (from to : SsaArgument) (ts : List SsaToken)
      → length (cc_ssa_replace_with from to ts) ≡ length ts
  unfolding cc_ssa_replace_with
  length-replace from to [] = refl
  length-replace from to (t ∷ ts) = ap suc (length-replace from to ts)

  identity_loop-Keeps :
      (left : ℕ) (ts : List SsaToken) → IsSsa ts → HasIds ts → Keeps ts (identity_loop left ts)
  unfolding identity_loop
  identity_loop-Keeps zero ts ssa ids = (ts, refl, λ env. refl)
  identity_loop-Keeps (suc left) [] ssa ids = ([], refl, λ env. refl)
  identity_loop-Keeps (suc left) (t ∷ ts) ssa ids = elim (Bool-cases (is_identity t.type)) [
    | inl h ↦
        let have = ids.0 h in
        let (hr, ha) = ids_ne t have in
        let a = first_arg t.args in
        let (new, is, same) =
          identity_loop-Keeps left (cc_ssa_replace_with t.result a ts)
            (IsSsa-replace t.result a ts hr ssa.1 ssa.2)
            (HasIds-replace t.result a ts hr ha ids.1) in
        (
          eliminate t ∷ new,
          rw (h, have, is) refl,
          λ env. run_none t new env ∙ same env ∙ run_eliminated t ts env h hr ssa.0 ssa.1,
        )
    | inr h ↦
        let (new, is, same) = identity_loop-Keeps left ts ssa.2 ids.1 in
        (t ∷ new, rw (h, is) refl, λ env. run_same t ts new env same)
  ]

  -- For tokens in single assignment form whose identity tokens have ids, the elimination of identity
  -- tokens passes its assertion, and the function gives back the same value as before, whatever the
  -- operations of the tokens and the environment are.
  pub cc_ssa_optimise_identity_keeps :
      (ts : List SsaToken)
      → IsSsa ts
      → HasIds ts
      → (new : List SsaToken) × (cc_ssa_optimise_identity ts ≡ ok new)
        × ((env : ℕ → V) → run_tokens op raw env new ≡ run_tokens op raw env ts)
  unfolding cc_ssa_optimise_identity
  cc_ssa_optimise_identity_keeps ts ssa ids = identity_loop-Keeps (length ts) ts ssa ids
