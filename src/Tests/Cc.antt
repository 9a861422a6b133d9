-- ===== src/Tests/Cc.antt =====
-- Runs of the C compiler's parts, and its theorems at concrete inputs.
use estros.Common.{
  ℕ, zero, suc, ◌+◌, ◌-◌, ◌*◌, ◌≤◌, ◌<◌, ◌≡◌, ◌≢◌, ◌⊎◌, refl, some, List, [], ◌∷◌, ◌++◌, map,
  length, all_from, all_from_each, ◌==◌, not, arith,
}
use estros.Common.Strings.{codes, isspace, str_eq}
use estros.Cc.Token.{Token, TokenType, token_elem, token_elems, token_list, Strview}
use estros.Cc.Lexer.Unmapped.{cc_tokenize_unmapped}
use estros.Cc.Lexer.{make_token, cc_tokenize, rule_matches, find_rule}
use estros.Cc.Lexer.Munch.{find_rule_longest}
use estros.Cc.Lexer.Progress.{InOrder, cc_tokenize-InOrder, cc_tokenize_zero}
use estros.Cc.Attempt.{Attempt, ok, aborted, undefined, out_of_fuel}
use estros.Cc.Ast.{AstNode, Binop}
use estros.Cc.Ssa.{SsaArgument, SsaToken, SsaTokenType, SsaFunction, zero_argument}
use estros.Cc.Ssa.Emit.{
  SsaState, ssa_token, cc_ssa_from_ast_var, cc_ssa_get_func_parameter_index, cc_strview_get,
  is_emitted,
}
use estros.Cc.Ssa.Meaning.{run_tokens}
use estros.Cc.Ssa.Optimise.{cc_ssa_optimise_identity, cc_ssa_optimise_reused, tokens_of}
use estros.Cc.Ssa.Optimise.Eliminated.{cc_ssa_optimise_identity_keeps}
use estros.Cc.Ssa.Optimise.Reused.{op_token, ret_token, cc_ssa_optimise_reused_twice}
use estros.Cc.Ssa.Compiled.{Expr, param, operation, token_value}
use estros.Cc.Ssa.Compiled.Returned.{IsReturning, cc_ssa_from_ast_var_returns}
use estros.Cc.Asm.{RegisterCategory, reg_at, cc_asm_regalloc, cc_asm_regfree, cc_asm_find_used}
use estros.Cc.Asm.Lower.{CcAsmState, initial_regs, lower_token}
use estros.Cc.Asm.Registers.{cc_asm_regalloc_takes_free}
use estros.Cc.Asm.Registers.Held.{
  IsInjective, IsHeld, initial_regs-IsInjective, initial_regs_temporary_free,
  cc_asm_regalloc-IsInjective,
}
use estros.Cc.Asm.Registers.Full.{cc_asm_regfree_keeps}
use estros.Cc.Asm.Spilled.{lower_token_spilled}

abbrev types : Attempt (List Token) → List TokenType
types (ok ts) = map (λ t. t.type) ts
types _ = []

tokenize_types :
    types (cc_tokenize 40 40 (codes "int a(int b_c) { return b<<=10; } "))
    ≡ TokenType.kw_int ∷ TokenType.ident ∷ TokenType.lparen ∷ TokenType.kw_int ∷ TokenType.ident
      ∷ TokenType.ident ∷ TokenType.rparen ∷ TokenType.lbrace ∷ TokenType.kw_return
      ∷ TokenType.ident ∷ TokenType.assign_lshift ∷ TokenType.literal ∷ TokenType.semi
      ∷ TokenType.rbrace ∷ []
unfolding cc_tokenize token_list
tokenize_types = refl

find_rule_longest_example : length (codes "<<") ≤ length (codes "<<=")
unfolding token_elems token_list rule_matches find_rule
find_rule_longest_example =
    find_rule_longest 20 (token_elem TokenType.lshift "<<")
      (token_elem TokenType.assign_lshift "<<=") (codes "<<=1") refl refl refl

abbrev small_text : List ℕ
small_text = codes "a+b;"

cc_tokenize-InOrder_example :
    (ts : List Token) × (cc_tokenize 4 5 small_text ≡ ok ts) × InOrder 0 4 ts
cc_tokenize-InOrder_example =
    cc_tokenize-InOrder 4 small_text (omega arith)
      (omega arith, (omega arith, (omega arith, (omega arith, tt)))) (omega arith)

cc_tokenize_zero_example : cc_tokenize 0 1000 (codes " " ++ 0 ∷ codes "int") ≡ out_of_fuel
unfolding isspace
cc_tokenize_zero_example = cc_tokenize_zero 0 1000 (codes " ") (codes "int") (refl, tt)

-- The pointer moves four bytes from the letter before the last, two behind the end, and reads there.
tokenize_overrun :
    (cc_tokenize 3 8 (codes "a" ++ 0xe1 ∷ 0x88 ∷ []) ≡ ok (make_token 0 (TokenType.ident, 5) ∷ []))
    × (cc_tokenize 2 8 (codes "a" ++ 0xe1 ∷ 0x88 ∷ []) ≡ undefined)
unfolding cc_tokenize token_list
tokenize_overrun = (refl, refl)

cc_tokenize_unmapped_example : cc_tokenize 0 5 small_text ≡ undefined
cc_tokenize_unmapped_example =
    cc_tokenize_unmapped small_text (omega arith)
      (omega arith, (omega arith, (omega arith, (omega arith, tt))))

abbrev arg : ℕ → SsaArgument
arg i = record { id = i; width = 0 }

-- `return a - b` for parameters a and b.
abbrev difference : List SsaToken
difference =
    ssa_token SsaTokenType.identity (arg 34) (arg 2) zero_argument
    ∷ ssa_token SsaTokenType.identity (arg 35) (arg 3) zero_argument
    ∷ ssa_token SsaTokenType.sub (arg 33) (arg 34) (arg 35)
    ∷ ssa_token SsaTokenType.return_token (arg 32) (arg 33) zero_argument
    ∷ []

abbrev value : Binop → ℕ → ℕ → ℕ
value Binop.sub x y = x - y
value Binop.add x y = x + y
value _ x y = 0

cc_ssa_optimise_identity_keeps_example :
    (new : List SsaToken) × (cc_ssa_optimise_identity difference ≡ ok new)
    × ((env : ℕ → ℕ)
        → run_tokens (token_value value 0) (λ r. 0) env new
          ≡ run_tokens (token_value value 0) (λ r. 0) env difference)
cc_ssa_optimise_identity_keeps_example =
    cc_ssa_optimise_identity_keeps (token_value value 0) (λ r. 0) difference
      (
        (omega arith, (omega arith, (omega arith, tt))),
        (omega arith, (omega arith, (omega arith, tt))),
        (
          (omega arith, (omega arith, tt)),
          (omega arith, (omega arith, tt)),
          ((omega arith, tt), (omega arith, tt), (tt, tt, tt)),
        ),
      )
      (λ h. refl, (λ h. refl, (λ h. refl, (λ h. refl, tt))))

abbrev letter : ℕ → Strview
letter pos = record { pos = pos; len = 1 }

-- The tree of a function f with parameters a and b that returns a - b.
abbrev tree : List AstNode
tree =
    AstNode.invalid
    ∷ AstNode.new_type (letter 0) 0 (2 ∷ 3 ∷ []) 0x23 [] 0 0
    ∷ AstNode.new_var (letter 2) 0 0 0
    ∷ AstNode.new_var (letter 4) 0 0 0
    ∷ AstNode.ref_var (letter 2)
    ∷ AstNode.ref_var (letter 4)
    ∷ AstNode.binop Binop.sub 4 5
    ∷ AstNode.return_node 6
    ∷ AstNode.new_var (letter 0) 7 1 0
    ∷ []

abbrev state : SsaState
state = record { text = codes "f a b"; nodes = tree; ssa_funcs = []; ssa_tokens = [] }

abbrev a_minus_b : Expr
a_minus_b = operation Binop.sub (param 0) (param 1)

state-IsReturning : IsReturning state 8 a_minus_b
unfolding cc_ssa_get_func_parameter_index cc_strview_get str_eq is_emitted
state-IsReturning = record {
  name = letter 0;
  init = 7;
  type_def = 1;
  flags = 0;
  retval = 6;
  is_var = refl;
  is_func = refl;
  is_return = refl;
  is_expr =
      (4, 5, refl, refl, (letter 2, refl, refl, omega arith), (letter 4, refl, refl, omega arith));
  short = omega arith;
  room_left = omega arith;
}

cc_ssa_from_ast_var_returns_example :
    (after : SsaState) × (func : SsaFunction) × (new : List SsaToken) × (cc_ssa_from_ast_var 4 state
        8
      ≡ ok after)
    × (after.ssa_funcs ≡ func ∷ [])
    × (cc_ssa_optimise_identity (tokens_of after.ssa_tokens func) ≡ ok new)
    × ((env : ℕ → ℕ)
        → (run_tokens (token_value value 0) (λ r. 0) env (tokens_of after.ssa_tokens func)
            ≡ some (env 2 - env 3))
          × (run_tokens (token_value value 0) (λ r. 0) env new ≡ some (env 2 - env 3)))
cc_ssa_from_ast_var_returns_example =
    cc_ssa_from_ast_var_returns value 0 (λ r. 0) 4 state 8 a_minus_b (omega arith) state-IsReturning

abbrev env_sample : ℕ → ℕ
env_sample i = 10 * i

-- `(a - b, a - c)`: the second difference is lost.
cc_ssa_optimise_reused_twice_example :
    (run_tokens
        (token_value value 0)
        (λ r. 0)
        env_sample
        (op_token Binop.sub (arg 33) (arg 4) (arg 2)
          ∷ op_token Binop.sub (arg 34) (arg 4) (arg 3)
          ∷ ret_token (arg 32) (arg 34)
          ∷ [])
      ≡ some 10)
    × (run_tokens
          (token_value value 0)
          (λ r. 0)
          env_sample
          (cc_ssa_optimise_reused (
            op_token Binop.sub (arg 33) (arg 4) (arg 2)
            ∷ op_token Binop.sub (arg 34) (arg 4) (arg 3)
            ∷ ret_token (arg 32) (arg 34)
            ∷ []))
        ≡ some 20)
unfolding is_emitted
cc_ssa_optimise_reused_twice_example =
    cc_ssa_optimise_reused_twice value 0 (λ r. 0) Binop.sub (arg 4) (arg 2) (arg 3) (arg 33)
      (arg 34) (arg 32) env_sample refl (omega arith) (omega arith)

cc_asm_regalloc_takes_free_example :
    let r = (cc_asm_regalloc initial_regs RegisterCategory.integer (arg 34)).1 in
    let after = (cc_asm_regalloc initial_regs RegisterCategory.integer (arg 34)).0 in
    ((reg_at initial_regs r).id ≡ 0)
    × ((r < 24) ⊎ (32 ≤ r))
    × (reg_at after r ≡ arg 34)
    × ((i : ℕ) → i ≢ r → reg_at after i ≡ reg_at initial_regs i)
cc_asm_regalloc_takes_free_example =
    cc_asm_regalloc_takes_free initial_regs RegisterCategory.integer (arg 34) (omega arith)

cc_asm_regalloc-IsInjective_example :
    let after = (cc_asm_regalloc initial_regs RegisterCategory.integer (arg 34)).0 in
    IsInjective after
    × (cc_asm_find_used after (arg 34)
        ≡ ok (cc_asm_regalloc initial_regs RegisterCategory.integer (arg 34)).1)
    × ((other : SsaArgument)
        → other.id ≢ 0
        → IsHeld initial_regs other.id
        → cc_asm_find_used after other ≡ cc_asm_find_used initial_regs other)
cc_asm_regalloc-IsInjective_example =
    cc_asm_regalloc-IsInjective initial_regs RegisterCategory.integer (arg 34) (omega arith)
      initial_regs-IsInjective (omega arith) (initial_regs_temporary_free 34 (omega arith))

cc_asm_regfree_keeps_example :
    (((reg_at initial_regs 24).id ≡ 0) × (cc_asm_regfree initial_regs 24 ≡ aborted))
    ⊎ (((reg_at initial_regs 24).id ≢ 0) × (cc_asm_regfree initial_regs 24 ≡ ok initial_regs))
cc_asm_regfree_keeps_example = cc_asm_regfree_keeps initial_regs 24

-- T0 to T6 hold ids 40 to 46.
abbrev taken_from : (left i : ℕ) → List SsaArgument
taken_from zero i = zero_argument ∷ initial_regs
taken_from (suc left) i = arg (i + 24) ∷ taken_from left (i + 1)

abbrev full_regs : List SsaArgument
full_regs = taken_from 23 0

full_regs-taken : (j : ℕ) → 16 ≤ j → j < 23 → (reg_at full_regs j).id ≢ 0
unfolding all_from
full_regs-taken j low high =
    let check = all_from_each 7 16 (λ j. not ((reg_at full_regs j).id == 0)) j low high refl in
    ground (arith, check)

abbrev full_state : CcAsmState
full_state = record { asm_out = []; reg_info = full_regs }

lower_token_spilled_example :
    lower_token full_state difference 0
      (ssa_token SsaTokenType.identity (arg 50) (arg 2) zero_argument)
    ≡ undefined
lower_token_spilled_example =
    lower_token_spilled full_state difference 0
      (ssa_token SsaTokenType.identity (arg 50) (arg 2) zero_argument) refl (omega arith)
      (omega arith) refl (omega arith) full_regs-taken
