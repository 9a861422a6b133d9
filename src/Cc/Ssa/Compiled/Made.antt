-- ===== src/Cc/Ssa/Compiled/Made.antt =====
-- cc/ssa.c: proofs on what the tokens of an expression compute.
use estros.Common.{
  ℕ, zero, suc, ◌+◌, ◌≤◌, ◌<◌, ◌≡◌, ◌^◌, ◌%◌, inl, true, List, [], ◌∷◌, ◌++◌, update, update_self,
  update-ne, refl, arith, ap, ap₂, ◌∙◌,
}
use estros.Cc.Token.{Strview}
use estros.Cc.Attempt.{Attempt, ok}
use estros.Cc.Ast.{Binop}
use estros.Cc.Ssa.{SsaArgument, SsaToken, SsaTokenType, zero_argument, id_param}
use estros.Cc.Ssa.Emit.{
  Emitter, cc_ssa_push_token, cc_ssa_type_from_ast_binop_type, is_emitted, ssa_token, fresh_result,
  next_id, emit_node, cc_ssa_from_ast_within_func,
}
use estros.Cc.Ssa.Compiled.{Expr, param, operation, size, eval, IsExpr}
use estros.Cc.Ssa.Compiled.Expression.{
  parameter_index_same, IsExpr-same, Executes, Executes-append, Executes-identity,
  Executes-operation,
}
use estros.Cc.Ssa.Compiled.Emitted.{
  HasRoom, IsEmitted, next_id-IsSame, push_token-IsSame, IsSame-trans, size_pos, operation_token,
  operation-IsEmitted,
}

module _ {ℓ} {V : Type ℓ} (value : Binop → V → V → V) (junk : V) (raw : Strview → V) where
  -- The tokens put the value of the expression under the id of the result, and keep what is under
  -- the ids before.
  pub record Computes (emit : Emitter) (e : Expr) (new : List SsaToken) (env : ℕ → V) : Type ℓ where
    pub env' : ℕ → V
    pub executes : Executes value junk raw env new env'
    pub keeps : (x : ℕ) → x < emit.arg_id → env' x ≡ env x
    pub result : env' emit.arg_id ≡ eval value junk (λ i. env (id_param i)) e

  pub record Made (emit : Emitter) (e : Expr) (r : Attempt (Emitter × SsaArgument)) : Type ℓ where
    pub after : Emitter
    pub new : List SsaToken
    pub is_ok : r ≡ ok (after, fresh_result emit)
    pub emitted : IsEmitted emit (size e) after new
    pub computes : (env : ℕ → V) → Computes emit e new env

  param-Made :
      (fuel : ℕ) (emit : Emitter) (n i : ℕ)
      → HasRoom emit 1
      → IsExpr emit n (param i)
      → Made emit (param i) (cc_ssa_from_ast_within_func (suc fuel) emit n)
  unfolding cc_ssa_from_ast_within_func emit_node cc_ssa_push_token
  param-Made fuel emit n i room (name, at, index, small) =
      let arg : SsaArgument = record { id = id_param i % 2 ^ 12; width = 0 } in
      let tok = ssa_token SsaTokenType.identity (fresh_result emit) arg zero_argument in
      let index' = parameter_index_same emit (next_id emit) name (next_id-IsSame emit) ∙ index in
      let one : (emit.arg_id + 1) % 2 ^ 12 ≡ emit.arg_id + 1 = omega (arith, room.ids_left) in
      let id : arg.id ≡ id_param i = omega arith in
      record {
        after = cc_ssa_push_token (next_id emit) tok;
        new = tok ∷ [];
        is_ok = rw (at, index') refl;
        emitted = record {
          same =
              IsSame-trans emit (next_id emit) _ (next_id-IsSame emit)
                (push_token-IsSame (next_id emit) tok);
          tokens = refl;
          count = omega (arith, room.tokens_left);
          next = one;
          new_length = refl;
          within = (omega arith, omega arith, inl (omega arith), tt);
          ssa = (tt, tt, tt);
          ids = (λ is. ground (arith, room.temporary), tt);
        };
        computes = λ env. record {
          env' = update env emit.arg_id (env arg.id);
          executes = Executes-identity value junk raw env (fresh_result emit) arg;
          keeps = λ x lt. update-ne env emit.arg_id (env arg.id) x (omega arith);
          result = update_self env emit.arg_id (env arg.id) ∙ ap env id;
        };
      }

  eval_same :
      (emit : Emitter) (n : ℕ) (e : Expr) (p q : ℕ → V)
      → IsExpr emit n e
      → ((i : ℕ) → i < 30 → p i ≡ q i)
      → eval value junk p e ≡ eval value junk q e
  eval_same emit n (param i) p q (name, at, index, small) h = h i small
  eval_same emit n (operation b l r) p q (lhs, rhs, at, has, hl, hr) h =
      ap₂ (value b) (eval_same emit lhs l p q hl h) (eval_same emit rhs r p q hr h)

  operation-Computes :
      (emit : Emitter) (b : Binop) (l r : Expr) (al : Emitter) (nl nr : List SsaToken) (env : ℕ → V)
      → HasRoom emit (size (operation b l r))
      → is_emitted b ≡ true
      → al.arg_id ≡ (next_id emit).arg_id + size l
      → (cl : Computes (next_id emit) l nl env) → (rhs : ℕ) × IsExpr al rhs r
      → Computes al r nr cl.env'
      → Computes emit (operation b l r) (nl ++ (nr ++ operation_token b emit al ∷ [])) env
  operation-Computes emit b l r al nl nr env room has next cl hr cr =
      let one : (next_id emit).arg_id ≡ emit.arg_id + 1 = omega (arith, room.ids_left) in
      let some_tokens : 1 ≤ size l = size_pos l in
      let at_low = room.temporary in
      let same : eval value junk (λ i. cl.env' (id_param i)) r
          ≡ eval value junk (λ i. env (id_param i)) r =
        eval_same al hr.0 r (λ i. cl.env' (id_param i)) (λ i. env (id_param i)) hr.1
          (λ i lt. cl.keeps (id_param i) (omega arith)) in
      let v = value b (cr.env' (next_id emit).arg_id) (cr.env' al.arg_id) in
      record {
        env' = update cr.env' emit.arg_id v;
        executes = Executes-append value junk raw env cl.env' _ nl _ cl.executes (
            Executes-append value junk raw cl.env' cr.env' _ nr _ cr.executes (
              Executes-operation value junk raw cr.env' b (fresh_result emit)
                (fresh_result (next_id emit)) (fresh_result al) has));
        keeps = λ x lt.
            update-ne cr.env' emit.arg_id v x (omega arith)
            ∙ cr.keeps x (omega arith)
            ∙ cl.keeps x (omega arith);
        result =
            update_self cr.env' emit.arg_id v
            ∙ ap₂ (value b) (cr.keeps (next_id emit).arg_id (omega arith) ∙ cl.result)
                (cr.result ∙ same);
      }

  operation-Made :
      (fuel : ℕ) (emit : Emitter) (n : ℕ) (b : Binop) (l r : Expr)
      → HasRoom emit (size (operation b l r))
      → (h : IsExpr emit n (operation b l r))
      → (ml : Made (next_id emit) l (cc_ssa_from_ast_within_func fuel (next_id emit) h.0))
      → IsExpr ml.after h.1 r
      → Made ml.after r (cc_ssa_from_ast_within_func fuel ml.after h.1)
      → Made emit (operation b l r) (cc_ssa_from_ast_within_func (suc fuel) emit n)
  unfolding cc_ssa_from_ast_within_func emit_node cc_ssa_push_token
  operation-Made fuel emit n b l r room h ml hr mr =
      let arg0 = fresh_result (next_id emit) in
      let arg1 = fresh_result ml.after in
      let tok = ssa_token (cc_ssa_type_from_ast_binop_type b) (fresh_result emit) arg0 arg1 in
      record {
        after = cc_ssa_push_token mr.after tok;
        new = ml.new ++ (mr.new ++ tok ∷ []);
        is_ok = rw (h.2, ml.is_ok, mr.is_ok, h.3) refl;
        emitted =
            operation-IsEmitted emit b (size l) (size r) ml.after mr.after ml.new mr.new room
              (size_pos l) h.3 ml.emitted mr.emitted;
        computes = λ env.
            operation-Computes emit b l r ml.after ml.new mr.new env room h.3 ml.emitted.next
              (ml.computes env) (h.1, hr) (mr.computes _);
      }

  pub expression-Made :
      (e : Expr) (fuel : ℕ) (emit : Emitter) (n : ℕ)
      → size e ≤ fuel
      → HasRoom emit (size e)
      → IsExpr emit n e
      → Made emit e (cc_ssa_from_ast_within_func fuel emit n)
  expression-Made e zero emit n enough room h = absurd (omega (arith, size_pos e))
  expression-Made (param i) (suc fuel) emit n enough room h = param-Made fuel emit n i room h
  expression-Made (operation b l r) (suc fuel) emit n enough room h =
      let first = next_id emit in
      let one : first.arg_id ≡ emit.arg_id + 1 = omega (arith, room.ids_left) in
      let ml =
        expression-Made l fuel first h.0 (omega arith)
          (record {
            temporary = omega (arith, room.temporary);
            ids_left = omega (arith, room.ids_left);
            tokens_left = omega (arith, room.tokens_left);
          })
          (IsExpr-same emit first h.0 l (next_id-IsSame emit) h.4) in
      let hr =
        IsExpr-same emit ml.after h.1 r
          (IsSame-trans emit first ml.after (next_id-IsSame emit) ml.emitted.same) h.5 in
      let mr =
        expression-Made r fuel ml.after h.1 (omega arith)
          (record {
            temporary = omega (arith, room.temporary, ml.emitted.next);
            ids_left = omega (arith, room.ids_left, ml.emitted.next);
            tokens_left = omega (arith, room.tokens_left, ml.emitted.count);
          })
          hr in
      operation-Made fuel emit n b l r room h ml hr mr
