-- ===== src/Cc/Ssa/Compiled/Emitted.antt =====
-- cc/ssa.c: proofs on cc_ssa_from_ast_within_func for an expression.
use estros.Common.{
  ℕ, ◌+◌, ◌≤◌, ◌<◌, ◌≡◌, ◌^◌, inl, inr, true, List, [], ◌∷◌, ◌++◌, length, length-append, refl,
  arith, ap, ◌∙◌,
}
use estros.Cc.Ast.{Binop}
use estros.Cc.Ssa.{SsaToken}
use estros.Cc.Ssa.Emit.{
  Emitter, cc_ssa_push_token, cc_ssa_type_from_ast_binop_type, is_emitted, ssa_token, fresh_result,
  next_id,
}
use estros.Cc.Ssa.Optimise.Identity.{IsSsa, HasIds}
use estros.Cc.Ssa.Compiled.{Expr, param, operation, size}
use estros.Cc.Ssa.Compiled.Ordered.{
  Within, Outside, Within-wider, Within-append, Within-Outside, Outside-append, IsSsa-append,
  HasIds-append,
}
use estros.Cc.Ssa.Compiled.Expression.{IsSame, append_assoc}

-- There are ids and there is room for `n` more tokens of the function.
pub record HasRoom (emit : Emitter) (n : ℕ) : Type 0 where
  pub temporary : 32 ≤ emit.arg_id
  pub ids_left : emit.arg_id + n < 2 ^ 12
  pub tokens_left : emit.func.tokens.len + n < 2 ^ 8

-- The tokens `new` of a call that gives back `after` and the argument.
pub record IsEmitted (emit : Emitter) (n : ℕ) (after : Emitter) (new : List SsaToken) : Type 0 where
  pub same : IsSame emit after
  pub tokens : after.state.ssa_tokens ≡ emit.state.ssa_tokens ++ new
  pub count : after.func.tokens.len ≡ emit.func.tokens.len + n
  pub next : after.arg_id ≡ emit.arg_id + n
  pub new_length : length new ≡ n
  pub within : Within emit.arg_id (emit.arg_id + n) new
  pub ssa : IsSsa new
  pub ids : HasIds new

pub next_id-IsSame : (emit : Emitter) → IsSame emit (next_id emit)
next_id-IsSame emit = record {
  same_nodes = refl;
  same_text = refl;
  same_tdef = refl;
  same_funcs = refl;
  same_name = refl;
  same_pos = refl;
}

pub push_token-IsSame : (emit : Emitter) (tok : SsaToken) → IsSame emit (cc_ssa_push_token emit tok)
unfolding cc_ssa_push_token
push_token-IsSame emit tok = record {
  same_nodes = refl;
  same_text = refl;
  same_tdef = refl;
  same_funcs = refl;
  same_name = refl;
  same_pos = refl;
}

pub IsSame-trans : (a b c : Emitter) → IsSame a b → IsSame b c → IsSame a c
IsSame-trans a b c s t = record {
  same_nodes = t.same_nodes ∙ s.same_nodes;
  same_text = t.same_text ∙ s.same_text;
  same_tdef = t.same_tdef ∙ s.same_tdef;
  same_funcs = t.same_funcs ∙ s.same_funcs;
  same_name = t.same_name ∙ s.same_name;
  same_pos = t.same_pos ∙ s.same_pos;
}

pub size_pos : (e : Expr) → 1 ≤ size e
size_pos (param i) = omega arith
size_pos (operation b l r) = omega arith

abbrev pub operation_token : Binop → (emit after : Emitter) → SsaToken
operation_token b emit after =
    ssa_token (cc_ssa_type_from_ast_binop_type b) (fresh_result emit) (fresh_result (next_id emit))
      (fresh_result after)

pub operation-IsEmitted :
    (emit : Emitter) (b : Binop) (sl sr : ℕ) (al ar : Emitter) (nl nr : List SsaToken)
    → HasRoom emit (1 + sl + sr)
    → 1 ≤ sl
    → is_emitted b ≡ true
    → IsEmitted (next_id emit) sl al nl
    → IsEmitted al sr ar nr
    → IsEmitted emit
        (1 + sl + sr)
        (cc_ssa_push_token ar (operation_token b emit al))
        (nl ++ (nr ++ operation_token b emit al ∷ []))
unfolding cc_ssa_push_token
operation-IsEmitted emit b sl sr al ar nl nr room pos has el er =
    let tok = operation_token b emit al in
    let start = (next_id emit).arg_id in
    let one : start ≡ emit.arg_id + 1 = omega (arith, room.ids_left) in
    let S = emit.state.ssa_tokens in
    let within_tok : Within emit.arg_id (emit.arg_id + (1 + sl + sr)) (tok ∷ []) =
      (omega arith, omega arith, inr (omega arith, omega arith), tt) in
    let below : Outside start (start + sl) (tok ∷ []) = (room.temporary, inl (omega arith), tt) in
    let below_r : Outside al.arg_id (al.arg_id + sr) (tok ∷ []) =
      (room.temporary, inl (omega (arith, el.next)), tt) in
    let above : Outside start (start + sl) nr =
      Within-Outside al.arg_id (al.arg_id + sr) start (start + sl) nr
        (omega (arith, el.next, room.temporary)) (inr (omega (arith, el.next))) er.within in
    record {
      same = IsSame-trans emit (next_id emit) _ (next_id-IsSame emit) (
          IsSame-trans (next_id emit) al _ el.same
            (IsSame-trans al ar _ er.same (push_token-IsSame ar tok)));
      tokens =
          ap (λ ts. ts ++ tok ∷ []) (er.tokens ∙ ap (λ ts. ts ++ nr) el.tokens)
          ∙ append_assoc (S ++ nl) nr (tok ∷ [])
          ∙ append_assoc S nl (nr ++ tok ∷ []);
      count = omega (arith, er.count, el.count, room.tokens_left);
      next = omega (arith, er.next, el.next);
      new_length =
          length-append nl (nr ++ tok ∷ [])
          ∙ omega (arith, length-append nr (tok ∷ []), el.new_length, er.new_length);
      within =
          Within-append emit.arg_id (emit.arg_id + (1 + sl + sr)) nl (nr ++ tok ∷ [])
            (Within-wider start (start + sl) _ _ nl (omega arith) (omega arith) el.within)
            (Within-append emit.arg_id (emit.arg_id + (1 + sl + sr)) nr (tok ∷ [])
              (Within-wider al.arg_id (al.arg_id + sr) _ _ nr (omega (arith, el.next))
                (omega (arith, el.next)) er.within)
              within_tok);
      ssa =
          IsSsa-append start (start + sl) nl (nr ++ tok ∷ []) el.within
            (Outside-append start (start + sl) nr (tok ∷ []) above below) el.ssa
            (IsSsa-append al.arg_id (al.arg_id + sr) nr (tok ∷ []) er.within below_r er.ssa
              (tt, tt, tt));
      ids =
          HasIds-append nl (nr ++ tok ∷ []) el.ids
            (HasIds-append nr (tok ∷ []) er.ids (λ is. ground (arith, room.temporary), tt));
    }
