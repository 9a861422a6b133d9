-- ===== src/Cc/Ssa/Meaning.antt =====
-- The values that the tokens of cc/ssa.h compute, as their comments give them, for any type of values
-- and any operations, and the expressions of a syntax tree: a description apart from the code.
use estros.Common.{ℕ, ◌≡◌, true, Option, none, some, List, [], ◌∷◌, map, update, refl}
use estros.Cc.Token.{Strview}
use mathlib.Core.Bool.{false≢true}
use estros.Cc.Ssa.{SsaToken, SsaTokenType, first_arg, is_raw_data}

-- What a token does: nothing, to give a value back, or to write its result.
pub data Effect {ℓ} (V : Type ℓ) : Type ℓ where
  nothing : Effect V
  gives : V → Effect V
  writes : V → Effect V

module _ {ℓ} {V : Type ℓ} where
  -- The effect by the type, from the value of the first argument, the raw data and the value of the
  -- operation on all the arguments.
  unfoldable pub by_type : SsaTokenType → (first raw result : V) → Effect V
  by_type SsaTokenType.none x y z = nothing
  by_type SsaTokenType.return_token x y z = gives x
  by_type SsaTokenType.identity x y z = writes x
  by_type SsaTokenType.raw_data x y z = writes y
  by_type _ x y z = writes z

  pub by_type_raw :
      (type : SsaTokenType) (x x' y z z' : V)
      → is_raw_data type ≡ true
      → by_type type x y z ≡ by_type type x' y z'
  unfolding by_type
  by_type_raw SsaTokenType.raw_data x x' y z z' h = refl
  by_type_raw _ x x' y z z' h = absurd (false≢true h)

  -- How it goes on, where `later` is the rest of the tokens.
  unfoldable pub resume : Effect V → (id : ℕ) → (ℕ → V) → (later : (ℕ → V) → Option V) → Option V
  unfolding update
  resume nothing id env later = later env
  resume (gives v) id env later = some v
  resume (writes v) id env later = later (update env id v)

  pub resume_same :
      (e : Effect V) (id : ℕ) (env1 env2 : ℕ → V) (later1 later2 : (ℕ → V) → Option V)
      → later1 env1 ≡ later2 env2
      → ((v : V) → later1 (update env1 id v) ≡ later2 (update env2 id v))
      → resume e id env1 later1 ≡ resume e id env2 later2
  unfolding resume
  resume_same nothing id env1 env2 later1 later2 h k = h
  resume_same (gives v) id env1 env2 later1 later2 h k = refl
  resume_same (writes v) id env1 env2 later1 later2 h k = k v

module _ {ℓ} {V : Type ℓ} (op : SsaTokenType → List V → V) (raw : Strview → V) where
  abbrev pub effect : (ℕ → V) → SsaToken → Effect V
  effect env t =
      by_type t.type (env (first_arg t.args).id) (raw t.raw)
        (op t.type (map (λ a. env a.id) t.args))

  -- The value that a function's tokens give back.
  unfoldable pub run_tokens : (ℕ → V) → List SsaToken → Option V
  unfolding resume by_type
  run_tokens env [] = none
  run_tokens env (t ∷ ts) = resume (effect env t) t.result.id env (λ env'. run_tokens env' ts)
