-- ===== src/Cc/Ssa/Emit.antt =====
-- cc/ssa.c: cc_ssa_from_ast, the intermediate code of a syntax tree.
use estros.Common.{
  ℕ, zero, suc, ◌+◌, ◌^◌, ◌%◌, Bool, true, false, List, [], ◌∷◌, ◌++◌, ◌==◌, if◌then◌else◌, length,
  drop,
}
use estros.Common.Strings.{str_eq, before}
use estros.Cc.Token.{Strview}
use estros.Cc.Attempt.{Attempt, ok, aborted, out_of_fuel, ◌>>=◌}
use estros.Cc.Ast.{AstNode, Binop, node_at, flags_function}
use estros.Cc.Ssa.{
  SsaArgument, SsaToken, SsaTokenType, SsaFunction, zero_argument, two_args, width_set, id_param,
  first_temporal,
}

-- The parts of `struct cc_state` that the emitter works on.
-- Its `data` is `text`.
pub record SsaState : Type 0 where
  pub text : List ℕ
  pub nodes : List AstNode
  pub ssa_funcs : List SsaFunction
  pub ssa_tokens : List SsaToken

-- `cc_ssa_emitter_t`; of `arg` only the id is used. The function that `func` points to is a value
-- here, and is put into the array when it is done.
pub record Emitter : Type 0 where
  pub state : SsaState
  pub func : SsaFunction
  pub arg_id : ℕ
  pub tdef : AstNode

abbrev first_bytes : ℕ → List ℕ → List ℕ
first_bytes zero p = []
first_bytes (suc n) [] = []
first_bytes (suc n) (c ∷ p) = c ∷ first_bytes n p

-- cc/util.c: a view as a C string, which ends at its first byte 0. A byte behind the end of the text
-- that is mapped is 0.
unfoldable pub cc_strview_get : (text : List ℕ) → Strview → List ℕ
unfolding before
cc_strview_get text s = before (λ c. c == 0) (first_bytes s.len (drop s.pos text))

-- The lengths have 8 bits.
unfoldable pub cc_ssa_push_token : Emitter → SsaToken → Emitter
cc_ssa_push_token emit tok = record emit {
  state = record emit.state { ssa_tokens = emit.state.ssa_tokens ++ tok ∷ [] };
  func = record emit.func {
    tokens = record emit.func.tokens { len = (emit.func.tokens.len + 1) % 2 ^ 8 };
  };
}

-- The loop over the children of the function's type, from the child `i` on.
unfoldable pub parameter_index :
    (text : List ℕ) → List AstNode → (name : Strview) → (childs : List ℕ) → (i : ℕ) → Attempt ℕ
unfolding cc_strview_get
parameter_index text nodes name [] i = aborted
parameter_index text nodes name (c ∷ cs) i =
    let rest = parameter_index text nodes name cs (i + 1) in
    elim (node_at nodes c) [
      | AstNode.new_var n init type_def flags ↦
          if str_eq (cc_strview_get text name) (cc_strview_get text n) then ok i else rest
      | _ ↦ aborted
    ]

abbrev pub index_in_type :
    (text : List ℕ) → List AstNode → (tdef : AstNode) → (name : Strview) → Attempt ℕ
index_in_type text nodes (AstNode.new_type _ _ childs _ _ _ _) name =
    parameter_index text nodes name childs 0
index_in_type text nodes _ name = aborted

unfoldable pub cc_ssa_get_func_parameter_index : Emitter → Strview → Attempt ℕ
unfolding parameter_index
cc_ssa_get_func_parameter_index emit name =
    index_in_type emit.state.text emit.state.nodes emit.tdef name

-- The tests of cc_ssa_type_from_ast_binop_type; it gives the type identity for the others.
unfoldable pub cc_ssa_type_from_ast_binop_type : Binop → SsaTokenType
cc_ssa_type_from_ast_binop_type Binop.add = SsaTokenType.add
cc_ssa_type_from_ast_binop_type Binop.sub = SsaTokenType.sub
cc_ssa_type_from_ast_binop_type Binop.mul = SsaTokenType.mul
cc_ssa_type_from_ast_binop_type Binop.div = SsaTokenType.div
cc_ssa_type_from_ast_binop_type Binop.rem = SsaTokenType.rem
cc_ssa_type_from_ast_binop_type Binop.bit_and = SsaTokenType.and
cc_ssa_type_from_ast_binop_type Binop.bit_xor = SsaTokenType.xor
cc_ssa_type_from_ast_binop_type Binop.bit_or = SsaTokenType.or
cc_ssa_type_from_ast_binop_type Binop.lshift = SsaTokenType.lshift
cc_ssa_type_from_ast_binop_type Binop.rshift = SsaTokenType.rshift
cc_ssa_type_from_ast_binop_type _ = SsaTokenType.identity

-- The cases of the switch for a binary operation that do not abort.
unfoldable pub is_emitted : Binop → Bool
is_emitted Binop.assign = false
is_emitted Binop.cond_eq = false
is_emitted Binop.cond_neq = false
is_emitted Binop.cond_gt = false
is_emitted Binop.cond_lt = false
is_emitted Binop.cond_gte = false
is_emitted Binop.cond_lte = false
is_emitted Binop.cond_and = false
is_emitted Binop.cond_or = false
is_emitted Binop.cond_xor = false
is_emitted _ = true

-- A token as the initializers give it: the fields they do not name are zero.
abbrev pub ssa_token : SsaTokenType → (result arg0 arg1 : SsaArgument) → SsaToken
ssa_token type res arg0 arg1 = record {
  result = res;
  args = two_args arg0 arg1;
  raw = record { pos = 0; len = 0 };
  type = type;
}

-- `res`, and the emitter with the next id, of 12 bits.
abbrev pub fresh_result : Emitter → SsaArgument
fresh_result emit = record { id = emit.arg_id; width = width_set 32 }

abbrev pub next_id : Emitter → Emitter
next_id emit = record emit { arg_id = (emit.arg_id + 1) % 2 ^ 12 }

-- Calls for the nodes of an array, whose results are dropped.
abbrev pub emit_each :
    (again : Emitter → ℕ → Attempt (Emitter × SsaArgument)) → Emitter → List ℕ → Attempt Emitter
emit_each again emit [] = ok emit
emit_each again emit (c ∷ cs) = again emit c >>= λ (emit', arg). emit_each again emit' cs

-- The switch of cc_ssa_from_ast_within_func, where `again` is its call of itself.
unfoldable pub emit_node :
    (again : Emitter → ℕ → Attempt (Emitter × SsaArgument))
    → Emitter
    → (res : SsaArgument) → AstNode
    → Attempt (Emitter × SsaArgument)
unfolding cc_ssa_push_token cc_ssa_get_func_parameter_index cc_ssa_type_from_ast_binop_type
    is_emitted
emit_node again emit res (AstNode.ref_var name) =
    cc_ssa_get_func_parameter_index emit name >>= λ param_no. ok (
      cc_ssa_push_token emit (
          ssa_token SsaTokenType.identity res
            (record { id = id_param param_no % 2 ^ 12; width = 0 }) zero_argument),
      res,
    )
emit_node again emit res (AstNode.block childs) =
    emit_each again emit childs >>= λ emit'. ok (emit', zero_argument)
emit_node again emit res
      (AstNode.new_type name return_type childs flags qual_length qual_v qual_c) =
    emit_each again emit (return_type ∷ childs) >>= λ emit'. ok (emit', zero_argument)
emit_node again emit res (AstNode.new_var name init type_def flags) =
    emit_each again emit (type_def ∷ init ∷ []) >>= λ emit'. ok (emit', zero_argument)
emit_node again emit res (AstNode.if_expr cond then_ else_) =
    emit_each again emit (cond ∷ then_ ∷ else_ ∷ []) >>= λ emit'. ok (emit', zero_argument)
emit_node again emit res (AstNode.return_node retval) = again emit retval >>= λ (emit', arg).
    ok (cc_ssa_push_token emit' (ssa_token SsaTokenType.return_token res arg zero_argument), res)
emit_node again emit res (AstNode.binop op lhs rhs) = again emit lhs >>= λ (emit1, arg0).
    again emit1 rhs >>= λ (emit2, arg1).
    if is_emitted op
    then ok (
      cc_ssa_push_token emit2 (ssa_token (cc_ssa_type_from_ast_binop_type op) res arg0 arg1),
      res,
    )
    else aborted
emit_node again emit res node = ok (emit, zero_argument)

-- `fuel` bounds the depth of the calls.
unfoldable pub cc_ssa_from_ast_within_func :
    (fuel : ℕ) → Emitter → (n : ℕ) → Attempt (Emitter × SsaArgument)
unfolding emit_node
cc_ssa_from_ast_within_func zero emit n = out_of_fuel
cc_ssa_from_ast_within_func (suc fuel) emit n =
    emit_node (cc_ssa_from_ast_within_func fuel) (next_id emit) (fresh_result emit)
      (node_at emit.state.nodes n)

abbrev pub close_function : SsaState → SsaFunction → SsaState
close_function state func = record state { ssa_funcs = state.ssa_funcs ++ func ∷ [] }

abbrev pub is_function : AstNode → Bool
is_function (AstNode.new_type _ _ _ flags _ _ _) = flags == flags_function
is_function _ = false

-- The emitter at the beginning of a function.
abbrev pub open_function : SsaState → (name : Strview) → (tdef : AstNode) → Emitter
open_function state name tdef = record {
  state = state;
  func = record {
    name = name;
    tokens = record { pos = length state.ssa_tokens % 2 ^ 24; len = 0 };
  };
  arg_id = first_temporal;
  tdef = tdef;
}

-- cc_ssa_from_ast_var for the fields of a NEW_VAR.
unfoldable pub emit_var :
    (fuel : ℕ) → SsaState → (name : Strview) → (init : ℕ) → (tdef : AstNode) → Attempt SsaState
unfolding cc_ssa_from_ast_within_func
emit_var fuel state name init tdef =
    if is_function tdef
    then (cc_ssa_from_ast_within_func fuel (open_function state name tdef) init >>= λ (emit', arg).
        ok (close_function emit'.state emit'.func))
    else aborted

unfoldable pub cc_ssa_from_ast_var : (fuel : ℕ) → SsaState → (n : ℕ) → Attempt SsaState
unfolding emit_var
cc_ssa_from_ast_var fuel state n = elim (node_at state.nodes n) [
  | AstNode.new_var name init type_def _ ↦
      emit_var fuel state name init (node_at state.nodes type_def)
  | _ ↦ aborted
]

abbrev each_var : (fuel : ℕ) → SsaState → List ℕ → Attempt SsaState
each_var fuel state [] = ok state
each_var fuel state (c ∷ cs) =
    cc_ssa_from_ast_var fuel state c >>= λ state'. each_var fuel state' cs

unfoldable pub cc_ssa_from_ast : (fuel : ℕ) → SsaState → (n : ℕ) → Attempt SsaState
unfolding cc_ssa_from_ast_var
cc_ssa_from_ast fuel state n = elim (node_at state.nodes n) [
  | AstNode.block childs ↦ each_var fuel state childs
  | AstNode.new_var _ _ _ _ ↦ cc_ssa_from_ast_var fuel state n
  | _ ↦ aborted
]
