-- ===== src/Cc/Ssa/Compiled/Returned.antt =====
-- cc/ssa.c: proofs on cc_ssa_from_ast_var for a function that returns an expression.
use estros.Common.{
  ℕ, zero, suc, ◌+◌, ◌≤◌, ◌<◌, ◌≡◌, ◌^◌, inl, inr, true, some, List, [], ◌∷◌, ◌++◌, length,
  length-append, drop, refl, arith, ap, ap₂, ◌∙◌,
}
use estros.Cc.Token.{Strview}
use estros.Cc.Attempt.{Attempt, ok}
use estros.Cc.Ast.{AstNode, Binop, node_at}
use estros.Cc.Ssa.{SsaToken, SsaTokenType, SsaFunction, zero_argument, id_param}
use estros.Cc.Ssa.Emit.{
  SsaState, Emitter, cc_ssa_push_token, ssa_token, fresh_result, next_id, emit_node,
  cc_ssa_from_ast_within_func, is_function, open_function, close_function, emit_var,
  cc_ssa_from_ast_var,
}
use estros.Cc.Ssa.Meaning.{run_tokens, resume, by_type}
use estros.Cc.Ssa.Optimise.{cc_ssa_optimise_identity, first_tokens, tokens_of}
use estros.Cc.Ssa.Optimise.Identity.{IsSsa, HasIds}
use estros.Cc.Ssa.Optimise.Eliminated.{cc_ssa_optimise_identity_keeps}
use estros.Cc.Ssa.Compiled.Made.{expression-Made}
use estros.Cc.Ssa.Compiled.{Expr, size, eval, token_value, IsExpr}
use estros.Cc.Ssa.Compiled.Ordered.{
  Outside, Within-wider, Within-append, IsSsa-append, HasIds-append,
}
use estros.Cc.Ssa.Compiled.Expression.{IsExpr-same, append_assoc}
use estros.Cc.Ssa.Compiled.Emitted.{
  HasRoom, IsEmitted, size_pos, next_id-IsSame, push_token-IsSame, IsSame-trans,
}

drop-append : (ts us : List SsaToken) → drop (length ts) (ts ++ us) ≡ us
drop-append [] us = refl
drop-append (t ∷ ts) us = drop-append ts us

first_tokens_all : (ts : List SsaToken) → first_tokens (length ts) ts ≡ ts
first_tokens_all [] = refl
first_tokens_all (t ∷ ts) = ap (λ rest. t ∷ rest) (first_tokens_all ts)

tokens_of_new :
    (old new : List SsaToken) (func : SsaFunction)
    → func.tokens.pos ≡ length old
    → func.tokens.len ≡ length new
    → tokens_of (old ++ new) func ≡ new
tokens_of_new old new func at long =
    ap₂ (λ p n. first_tokens n (drop p (old ++ new))) at long
    ∙ ap (first_tokens (length new)) (drop-append old new)
    ∙ first_tokens_all new

abbrev return_token : (emit : Emitter) → SsaToken
return_token emit =
    ssa_token SsaTokenType.return_token (fresh_result emit) (fresh_result (next_id emit))
      zero_argument

return-IsEmitted :
    (emit : Emitter) (n : ℕ) (al : Emitter) (new : List SsaToken)
    → HasRoom emit (1 + n)
    → 1 ≤ n
    → IsEmitted (next_id emit) n al new
    → IsEmitted emit
        (1 + n)
        (cc_ssa_push_token al (return_token emit))
        (new ++ return_token emit ∷ [])
unfolding cc_ssa_push_token
return-IsEmitted emit n al new room pos el =
    let tok = return_token emit in
    let start = (next_id emit).arg_id in
    let one : start ≡ emit.arg_id + 1 = omega (arith, room.ids_left) in
    let below : Outside start (start + n) (tok ∷ []) = (room.temporary, inl (omega arith), tt) in
    record {
      same =
          IsSame-trans emit (next_id emit) _ (next_id-IsSame emit)
            (IsSame-trans (next_id emit) al _ el.same (push_token-IsSame al tok));
      tokens =
          ap (λ ts. ts ++ tok ∷ []) el.tokens ∙ append_assoc emit.state.ssa_tokens new (tok ∷ []);
      count = omega (arith, el.count, room.tokens_left);
      next = omega (arith, el.next);
      new_length = length-append new (tok ∷ []) ∙ omega (arith, el.new_length);
      within =
          Within-append emit.arg_id (emit.arg_id + (1 + n)) new (tok ∷ [])
            (Within-wider start (start + n) _ _ new (omega arith) (omega arith) el.within)
            (omega arith, omega arith, inr (omega arith, omega arith), tt);
      ssa = IsSsa-append start (start + n) new (tok ∷ []) el.within below el.ssa (tt, tt, tt);
      ids = HasIds-append new (tok ∷ []) el.ids (λ is. ground (arith, room.temporary), tt);
    }

-- The node is a NEW_VAR with a function's type, for whose parameters the expression is, and its body
-- returns the expression; there is room for the tokens.
pub record IsReturning (state : SsaState) (n : ℕ) (e : Expr) : Type 0 where
  pub name : Strview
  pub init : ℕ
  pub type_def : ℕ
  pub flags : ℕ
  pub retval : ℕ
  pub is_var : node_at state.nodes n ≡ AstNode.new_var name init type_def flags
  pub is_func : is_function (node_at state.nodes type_def) ≡ true
  pub is_return : node_at state.nodes init ≡ AstNode.return_node retval
  pub is_expr : IsExpr (open_function state name (node_at state.nodes type_def)) retval e
  pub short : size e < 255
  pub room_left : length state.ssa_tokens < 2 ^ 24

abbrev opened : (state : SsaState) (n : ℕ) (e : Expr) → IsReturning state n e → Emitter
opened state n e h = open_function state h.name (node_at state.nodes h.type_def)

abbrev closed : Emitter → Emitter → SsaState
closed emit al =
    let done = cc_ssa_push_token al (return_token emit) in close_function done.state done.func

var_ok :
    (fuel : ℕ) (state : SsaState) (n : ℕ) (e : Expr) (h : IsReturning state n e) (al : Emitter)
    → cc_ssa_from_ast_within_func fuel (next_id (opened state n e h)) h.retval
      ≡ ok (al, fresh_result (next_id (opened state n e h)))
    → cc_ssa_from_ast_var (suc fuel) state n ≡ ok (closed (opened state n e h) al)
unfolding cc_ssa_from_ast_var emit_var cc_ssa_from_ast_within_func emit_node
var_ok fuel state n e h al is = rw (cc_ssa_from_ast_var, h.is_var, h.is_func, h.is_return, is) refl

module _ {ℓ} {V : Type ℓ} (value : Binop → V → V → V) (junk : V) (raw : Strview → V) where
  record Returns (state : SsaState) (e : Expr) (r : Attempt SsaState) : Type ℓ where
    pub after : SsaState
    pub func : SsaFunction
    pub new : List SsaToken
    pub is_ok : r ≡ ok after
    pub funcs : after.ssa_funcs ≡ state.ssa_funcs ++ func ∷ []
    pub slice : tokens_of after.ssa_tokens func ≡ new
    pub ssa : IsSsa new
    pub ids : HasIds new
    pub gives :
        (env : ℕ → V)
        → run_tokens (token_value value junk) raw env new
          ≡ some (eval value junk (λ i. env (id_param i)) e)

  run_return :
      (emit : Emitter) (env : ℕ → V)
      → run_tokens (token_value value junk) raw env (return_token emit ∷ [])
        ≡ some (env (next_id emit).arg_id)
  unfolding run_tokens resume by_type
  run_return emit env = refl

  var-Returns :
      (fuel : ℕ) (state : SsaState) (n : ℕ) (e : Expr)
      → size e < fuel
      → IsReturning state n e
      → Returns state e (cc_ssa_from_ast_var fuel state n)
  var-Returns zero state n e enough h = absurd (omega arith)
  var-Returns (suc fuel) state n e enough h =
      let emit = opened state n e h in
      let room : HasRoom emit (1 + size e) = record {
        temporary = omega arith;
        ids_left = omega (arith, h.short);
        tokens_left = omega (arith, h.short);
      } in
      let first_room : HasRoom (next_id emit) (size e) = record {
        temporary = omega arith;
        ids_left = omega (arith, h.short);
        tokens_left = omega (arith, h.short);
      } in
      let ml =
        expression-Made value junk raw e fuel (next_id emit) h.retval (omega arith) first_room
          (IsExpr-same emit (next_id emit) h.retval e (next_id-IsSame emit) h.is_expr) in
      let em = return-IsEmitted emit (size e) ml.after ml.new room (size_pos e) ml.emitted in
      let done = cc_ssa_push_token ml.after (return_token emit) in
      let all = ml.new ++ return_token emit ∷ [] in
      record {
        after = close_function done.state done.func;
        func = done.func;
        new = all;
        is_ok = var_ok fuel state n e h ml.after ml.is_ok;
        funcs = ap (λ funcs. funcs ++ done.func ∷ []) em.same.same_funcs;
        slice =
            ap (λ ts. tokens_of ts done.func) em.tokens
            ∙ tokens_of_new state.ssa_tokens all done.func
                (em.same.same_pos ∙ omega (arith, h.room_left))
                (omega (arith, em.count, em.new_length));
        ssa = em.ssa;
        ids = em.ids;
        gives = λ env.
            let c = ml.computes env in
            c.executes (return_token emit ∷ []) ∙ run_return emit c.env' ∙ ap some c.result;
      }

  -- A function that returns an expression of its parameters is made into tokens that give back the
  -- value of the expression, for any values of the operations, and so do the tokens after the
  -- elimination of the identity tokens, whose assertion holds: where the expression has fewer than 255
  -- nodes, and with more fuel than it has nodes. The function stands behind those before.
  pub cc_ssa_from_ast_var_returns :
      (fuel : ℕ) (state : SsaState) (n : ℕ) (e : Expr)
      → size e < fuel
      → IsReturning state n e
      → (after : SsaState) × (func : SsaFunction) × (new : List SsaToken) × (cc_ssa_from_ast_var
            fuel state n
          ≡ ok after)
        × (after.ssa_funcs ≡ state.ssa_funcs ++ func ∷ [])
        × (cc_ssa_optimise_identity (tokens_of after.ssa_tokens func) ≡ ok new)
        × ((env : ℕ → V)
            → (run_tokens (token_value value junk) raw env (tokens_of after.ssa_tokens func)
                ≡ some (eval value junk (λ i. env (id_param i)) e))
              × (run_tokens (token_value value junk) raw env new
                  ≡ some (eval value junk (λ i. env (id_param i)) e)))
  cc_ssa_from_ast_var_returns fuel state n e enough h =
      let r = var-Returns fuel state n e enough h in
      let (new, is, same) =
        cc_ssa_optimise_identity_keeps (token_value value junk) raw r.new r.ssa r.ids in
      (
        r.after,
        r.func,
        new,
        r.is_ok,
        r.funcs,
        rw r.slice is,
        λ env. (rw r.slice (r.gives env), same env ∙ r.gives env),
      )
