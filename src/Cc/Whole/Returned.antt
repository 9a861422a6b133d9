-- ===== src/Cc/Whole/Returned.antt =====
-- cc/: proofs on what the body `{ return a op b; }` of a function gives back.
use estros.Common.{
  ap, Bool, false, if◌then◌else◌, ◌∙◌, ℕ, ◌<◌, ◌≡◌, true, some, List, [], ◌∷◌, refl, arith,
}
use estros.Common.Strings.{str_eq}
use estros.Cc.Token.{Strview}
use estros.Cc.Attempt.{Attempt, ok, aborted}
use estros.Cc.Ast.{AstNode, Binop}
use estros.Cc.Ssa.{SsaFunction, SsaToken, id_param}
use estros.Cc.Ssa.Emit.{
  parameter_index, cc_strview_get, SsaState, index_in_type, cc_ssa_get_func_parameter_index,
  cc_ssa_from_ast_var,
}
use estros.Cc.Ssa.Meaning.{run_tokens}
use estros.Cc.Ssa.Optimise.{cc_ssa_optimise_identity, tokens_of}
use estros.Cc.Ssa.Compiled.{param, operation, token_value}
use estros.Cc.Ssa.Compiled.Returned.{IsReturning, cc_ssa_from_ast_var_returns}
use estros.Cc.Whole.{
  has_level, has_level-is_emitted, front, store, right, front-store, store-IsTree, index_in_store,
  function_type, parsed,
}

abbrev number_or_zero : Attempt ℕ → ℕ
number_or_zero (ok n) = n
number_or_zero _ = 0

abbrev failures : Attempt ℕ → ℕ
failures (ok n) = 0
failures _ = 1

-- One of two numbers, or none.
of_two-lt :
    (is_first is_second : Bool) (i : ℕ)
    → (if is_first then ok 0 else (if is_second then ok 1 else aborted)) ≡ ok i
    → i < 30
of_two-lt true is_second i h = omega (arith, ap number_or_zero h)
of_two-lt false true i h = omega (arith, ap number_or_zero h)
of_two-lt false false i h = absurd (omega (arith, ap failures h))

module _ (text : List ℕ) (f first second a b : Strview) where
  -- The number of a parameter is one of two.
  index_in_type-lt :
      (op : Binop) (name : Strview) (i : ℕ)
      → index_in_type text
          (parsed text f first second a b op).nodes
          (function_type text f first second a b)
          name
        ≡ ok i
      → i < 30
  unfolding parameter_index
  index_in_type-lt op name i h =
      of_two-lt (str_eq (cc_strview_get text name) (cc_strview_get text first))
        (str_eq (cc_strview_get text name) (cc_strview_get text second)) i h

  abbrev pub compiler_state : List AstNode → SsaState
  compiler_state nodes = record { text = text; nodes = nodes; ssa_funcs = []; ssa_tokens = [] }

  body_IsReturning :
      (op : Binop) (i j : ℕ)
      → has_level op ≡ true
      → index_in_type text
          (parsed text f first second a b op).nodes
          (function_type text f first second a b)
          a
        ≡ ok i
      → index_in_type text
          (parsed text f first second a b op).nodes
          (function_type text f first second a b)
          b
        ≡ ok j
      → IsReturning
          (compiler_state (store text f first second a b op))
          4
          (operation op (param i) (param j))
  unfolding cc_ssa_get_func_parameter_index
  body_IsReturning op i j h ia jb =
      let t = store-IsTree text f first second a b op h in
      record {
        name = f;
        init = 7;
        type_def = 1;
        flags = 0;
        retval = 27;
        is_var = t.0;
        is_func = rw t.1 refl;
        is_return = t.2;
        is_expr = (
          25,
          right text f first second a b op,
          t.3,
          has_level-is_emitted op h,
          (
            a,
            t.4,
            rw t.1 (index_in_store text f first second a b op a h ∙ ia),
            index_in_type-lt op a i ia,
          ),
          (
            b,
            t.5,
            rw t.1 (index_in_store text f first second a b op b h ∙ jb),
            index_in_type-lt op b j jb,
          ),
        );
        short = omega arith;
        room_left = omega arith;
      }

module _ {ℓ} {V : Type ℓ} (value : Binop → V → V → V) (junk : V) (raw : Strview → V) where
  -- The body `{ return a op b; }` of a function of two parameters, of which a names that with the number
  -- i and b that with the number j, each 0 or 1, behind the nodes of the function's declaration, for
  -- each operation op that has a parser and a token: its tokens are parsed to the last one, the tree is
  -- coalesced and made into intermediate code, and after the elimination of the identity tokens that
  -- gives back the value of op on the two parameters, whatever the values are.
  pub front_returns :
      (text : List ℕ) (f first second a b : Strview) (op : Binop) (i j : ℕ)
      → has_level op ≡ true
      → index_in_type text
          (parsed text f first second a b op).nodes
          (function_type text f first second a b)
          a
        ≡ ok i
      → index_in_type text
          (parsed text f first second a b op).nodes
          (function_type text f first second a b)
          b
        ≡ ok j
      → (nodes : List AstNode) × (after : SsaState) × (func : SsaFunction) × (new : List SsaToken)
        × (front text f first second a b op ≡ ok (nodes, 4))
        × (cc_ssa_from_ast_var 4 (compiler_state text f first second a b nodes) 4 ≡ ok after)
        × (after.ssa_funcs ≡ func ∷ [])
        × (cc_ssa_optimise_identity (tokens_of after.ssa_tokens func) ≡ ok new)
        × ((env : ℕ → V)
            → run_tokens (token_value value junk) raw env new
              ≡ some (value op (env (id_param i)) (env (id_param j))))
  front_returns text f first second a b op i j h ia jb =
      let nodes = store text f first second a b op in
      let (after, func, new, is_ok, funcs, optimised, gives) =
        cc_ssa_from_ast_var_returns value junk raw 4 (compiler_state text f first second a b nodes)
          4 (operation op (param i) (param j)) (omega arith)
          (body_IsReturning text f first second a b op i j h ia jb) in
      (
        nodes,
        after,
        func,
        new,
        front-store text f first second a b op h,
        is_ok,
        funcs,
        optimised,
        λ env. (gives env).1,
      )
