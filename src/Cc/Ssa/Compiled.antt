-- ===== src/Cc/Ssa/Compiled.antt =====
-- cc/ssa.c: the intermediate code of a function that returns an expression of its parameters: the
-- expressions, apart from the code, and what it is for a node to stand for one.
pub mod Ordered
pub mod Expression
pub mod Emitted
pub mod Made
pub mod Returned
use estros.Common.{ℕ, ◌+◌, ◌<◌, ◌≡◌, Bool, true, Option, none, some, List, [], ◌∷◌}
use estros.Cc.Attempt.{ok}
use estros.Cc.Ast.{AstNode, Binop, node_at}
use estros.Cc.Ssa.{SsaTokenType}
use estros.Cc.Ssa.Emit.{Emitter, cc_ssa_get_func_parameter_index, is_emitted}

pub data Expr : Type 0 where
  param : ℕ → Expr
  operation : Binop → Expr → Expr → Expr

abbrev pub size : Expr → ℕ
size (param i) = 1
size (operation b l r) = 1 + size l + size r

-- The operation that a token's comment in cc/ssa.h names.
unfoldable pub token_operation : SsaTokenType → Option Binop
token_operation SsaTokenType.add = some Binop.add
token_operation SsaTokenType.sub = some Binop.sub
token_operation SsaTokenType.mul = some Binop.mul
token_operation SsaTokenType.div = some Binop.div
token_operation SsaTokenType.rem = some Binop.rem
token_operation SsaTokenType.lshift = some Binop.lshift
token_operation SsaTokenType.rshift = some Binop.rshift
token_operation SsaTokenType.and = some Binop.bit_and
token_operation SsaTokenType.xor = some Binop.bit_xor
token_operation SsaTokenType.or = some Binop.bit_or
token_operation _ = none

module _ {ℓ} {V : Type ℓ} (value : Binop → V → V → V) (junk : V) where
  abbrev apply : Option Binop → List V → V
  apply (some b) (x ∷ y ∷ rest) = value b x y
  apply _ _ = junk

  -- The values of the tokens, from those of the operations of the language.
  unfoldable pub token_value : SsaTokenType → List V → V
  unfolding token_operation
  token_value type vs = apply (token_operation type) vs

  abbrev pub eval : (params : ℕ → V) → Expr → V
  eval params (param i) = params i
  eval params (operation b l r) = value b (eval params l) (eval params r)

-- The node `n` stands for an expression: its variables are parameters of the function, of which ids 2
-- to 31 are for, and its operations are those that tokens are made for.
abbrev pub IsExpr : Emitter → ℕ → Expr → Type 0
IsExpr emit n (param i) =
    (name : _) × (node_at emit.state.nodes n ≡ AstNode.ref_var name)
    × (cc_ssa_get_func_parameter_index emit name ≡ ok i)
    × (i < 30)
IsExpr emit n (operation b l r) =
    (lhs : ℕ) × (rhs : ℕ) × (node_at emit.state.nodes n ≡ AstNode.binop b lhs rhs)
    × (is_emitted b ≡ true)
    × IsExpr emit lhs l
    × IsExpr emit rhs r
