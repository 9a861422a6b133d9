-- ===== src/Cc/Ssa.antt =====
-- cc/ssa.h and the helpers of cc/ssa.c: the tokens of the intermediate code, and the uses of a
-- result.
pub mod Compiled
pub mod Emit
pub mod Meaning
pub mod Optimise
use estros.Common.{
  ℕ, zero, suc, ◌+◌, Bool, true, false, ◌&&◌, ◌||◌, List, [], ◌∷◌, map, leb, ltb, ◌==◌,
  if◌then◌else◌, length, drop,
}
use estros.Cc.Token.{Strview}
use estros.Cc.Attempt.{Attempt, ok, aborted}

-- `struct cc_ssa_argument`.
pub record SsaArgument : Type 0 where
  pub id : ℕ
  pub width : ℕ

-- `enum cc_ssa_token_type`.
pub data SsaTokenType : Type 0 where
  none return_token call branch phi identity not : SsaTokenType
  add sub mul div rem lshift rshift and xor or fadd fsub fmul fdiv : SsaTokenType
  raw_data : SsaTokenType

-- The value of an enumerator.
abbrev pub type_code : SsaTokenType → ℕ
type_code SsaTokenType.none = 0
type_code SsaTokenType.return_token = 1
type_code SsaTokenType.call = 2
type_code SsaTokenType.branch = 3
type_code SsaTokenType.phi = 4
type_code SsaTokenType.identity = 5
type_code SsaTokenType.not = 6
type_code SsaTokenType.add = 7
type_code SsaTokenType.sub = 8
type_code SsaTokenType.mul = 9
type_code SsaTokenType.div = 10
type_code SsaTokenType.rem = 11
type_code SsaTokenType.lshift = 12
type_code SsaTokenType.rshift = 13
type_code SsaTokenType.and = 14
type_code SsaTokenType.xor = 15
type_code SsaTokenType.or = 16
type_code SsaTokenType.fadd = 17
type_code SsaTokenType.fsub = 18
type_code SsaTokenType.fmul = 19
type_code SsaTokenType.fdiv = 20
type_code SsaTokenType.raw_data = 0x80

-- `struct cc_ssa_token`. The union is two fields: each read takes the one of the token's type. There
-- are CC_SSA_MAX_ARGS arguments, 8.
pub record SsaToken : Type 0 where
  pub result : SsaArgument
  pub args : List SsaArgument
  pub raw : Strview
  pub type : SsaTokenType

-- `struct cc_ssa_function`.
pub record SsaFunction : Type 0 where
  pub name : Strview
  pub tokens : Strview

abbrev pub zero_argument : SsaArgument
zero_argument = record { id = 0; width = 0 }

abbrev pub first_arg : List SsaArgument → SsaArgument
first_arg [] = zero_argument
first_arg (a ∷ args) = a

-- An array of arguments that begins with two.
abbrev pub two_args : SsaArgument → SsaArgument → List SsaArgument
two_args a b =
    a ∷ b ∷ zero_argument ∷ zero_argument ∷ zero_argument ∷ zero_argument ∷ zero_argument
    ∷ zero_argument ∷ []

-- CC_SSA_WIDTH_SET: the value of the operator `,` at its end, whatever the width.
abbrev pub width_set : ℕ → ℕ
width_set n = 0

-- CC_SSA_ID_PARAM and CC_SSA_FIRST_TEMPORAL.
abbrev pub id_param : ℕ → ℕ
id_param n = n + 2

abbrev pub first_temporal : ℕ
first_temporal = 32

abbrev pub is_raw_data : SsaTokenType → Bool
is_raw_data SsaTokenType.raw_data = true
is_raw_data _ = false

abbrev pub is_identity : SsaTokenType → Bool
is_identity SsaTokenType.identity = true
is_identity _ = false

abbrev pub any_id : List SsaArgument → ℕ → Bool
any_id [] id = false
any_id (a ∷ args) id = a.id == id || any_id args id

unfoldable pub cc_ssa_is_used_in : SsaToken → SsaArgument → Bool
cc_ssa_is_used_in tok arg =
    if is_raw_data tok.type
    then tok.result.id == arg.id
    else any_id tok.args arg.id || tok.result.id == arg.id

abbrev pub unused_in : List SsaToken → SsaArgument → Bool
unused_in [] arg = true
unused_in (t ∷ ts) arg =
    let rest = unused_in ts arg in if cc_ssa_is_used_in t arg then false else rest

-- For the tokens of the function.
unfoldable pub cc_ssa_is_last_use : List SsaToken → (offset : ℕ) → SsaArgument → Attempt Bool
unfolding cc_ssa_is_used_in
cc_ssa_is_last_use tokens offset arg =
    if ltb offset (length tokens) then ok (unused_in (drop offset tokens) arg) else aborted
