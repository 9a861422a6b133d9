-- ===== src/Cc/Ssa/Optimise.antt =====
-- cc/ssa.c: cc_ssa_optimise. A loop over the tokens of a function from an index on is a recursion on
-- the tokens from there on, with their number, since a round rewrites the later ones.
pub mod Identity
pub mod Eliminated
pub mod Reused
use estros.Common.{
  ℕ, zero, suc, ◌+◌, Bool, true, false, not, ◌&&◌, List, [], ◌∷◌, ◌++◌, map, ◌==◌, if◌then◌else◌,
  length, drop,
}
use estros.Cc.Attempt.{Attempt, ok, aborted, ◌>>=◌}
use estros.Cc.Ssa.{
  SsaArgument, SsaToken, SsaTokenType, SsaFunction, type_code, first_arg, is_raw_data, is_identity,
}
use estros.Cc.Ssa.Emit.{SsaState}

abbrev pub replace_arg : (from to : SsaArgument) → SsaArgument → SsaArgument
replace_arg from to arg = if arg.id == from.id then record arg { id = to.id } else arg

abbrev pub replace_in : (from to : SsaArgument) → SsaToken → SsaToken
replace_in from to tok =
    if is_raw_data tok.type then tok else record tok { args = map (replace_arg from to) tok.args }

-- cc_ssa_replace_with, for the tokens from the offset on.
unfoldable pub cc_ssa_replace_with : (from to : SsaArgument) → List SsaToken → List SsaToken
cc_ssa_replace_with from to [] = []
cc_ssa_replace_with from to (t ∷ ts) = replace_in from to t ∷ cc_ssa_replace_with from to ts

abbrev pub eliminate : SsaToken → SsaToken
eliminate tok = record tok { type = SsaTokenType.none }

-- The assertion of a round.
abbrev pub has_ids : SsaToken → Bool
has_ids tok = not (tok.result.id == 0) && not ((first_arg tok.args).id == 0)

unfoldable pub identity_loop : (left : ℕ) → List SsaToken → Attempt (List SsaToken)
unfolding cc_ssa_replace_with
identity_loop zero ts = ok ts
identity_loop (suc left) [] = ok []
identity_loop (suc left) (t ∷ ts) =
    let here = is_identity t.type in
    let ts' = if here then cc_ssa_replace_with t.result (first_arg t.args) ts else ts in
    let t' = if here then eliminate t else t in
    let rest = identity_loop left ts' >>= λ r. ok (t' ∷ r) in
    if here && not (has_ids t) then aborted else rest

unfoldable pub cc_ssa_optimise_identity : List SsaToken → Attempt (List SsaToken)
unfolding identity_loop
cc_ssa_optimise_identity ts = identity_loop (length ts) ts

-- The condition of the inner loop: `sizeof(*itok->data.args)` is the size of one argument. Bytes that
-- no field holds are taken for zero.
abbrev pub is_same : SsaToken → SsaToken → Bool
is_same itok jtok =
    let a = first_arg itok.args in
    let b = first_arg jtok.args in
    type_code jtok.type == type_code itok.type && (a.id == b.id && a.width == b.width)

unfoldable pub merge_loop : (left : ℕ) → (itok : SsaToken) → List SsaToken → List SsaToken
unfolding cc_ssa_replace_with
merge_loop zero itok ts = ts
merge_loop (suc left) itok [] = []
merge_loop (suc left) itok (jtok ∷ ts) =
    let same = is_same itok jtok in
    let ts' = if same then cc_ssa_replace_with jtok.result itok.result ts else ts in
    (if same then eliminate jtok else jtok) ∷ merge_loop left itok ts'

unfoldable pub reused_loop : (left : ℕ) → List SsaToken → List SsaToken
unfolding merge_loop
reused_loop zero ts = ts
reused_loop (suc left) [] = []
reused_loop (suc left) (itok ∷ ts) =
    itok ∷ reused_loop left (if is_raw_data itok.type then ts else merge_loop (length ts) itok ts)

unfoldable pub cc_ssa_optimise_reused : List SsaToken → List SsaToken
unfolding reused_loop
cc_ssa_optimise_reused ts = reused_loop (length ts) ts

unfoldable pub cc_ssa_optimise_func : List SsaToken → Attempt (List SsaToken)
unfolding cc_ssa_optimise_identity cc_ssa_optimise_reused
cc_ssa_optimise_func ts = cc_ssa_optimise_identity ts >>= λ ts'. ok (cc_ssa_optimise_reused ts')

abbrev pub first_tokens : ℕ → List SsaToken → List SsaToken
first_tokens zero ts = []
first_tokens (suc n) [] = []
first_tokens (suc n) (t ∷ ts) = t ∷ first_tokens n ts

-- `state->ssa_tokens + func->tokens.pos`, of `func->tokens.len` tokens.
abbrev pub tokens_of : List SsaToken → SsaFunction → List SsaToken
tokens_of ts func = first_tokens func.tokens.len (drop func.tokens.pos ts)

abbrev pub put_tokens : List SsaToken → SsaFunction → List SsaToken → List SsaToken
put_tokens ts func new =
    first_tokens func.tokens.pos ts ++ new ++ drop (func.tokens.pos + func.tokens.len) ts

-- The loop over the functions of cc_ssa_optimise, on the array of tokens.
unfoldable pub optimise_funcs : List SsaFunction → List SsaToken → Attempt (List SsaToken)
unfolding cc_ssa_optimise_func
optimise_funcs [] ts = ok ts
optimise_funcs (f ∷ fs) ts =
    cc_ssa_optimise_func (tokens_of ts f) >>= λ new. optimise_funcs fs (put_tokens ts f new)

unfoldable pub cc_ssa_optimise : SsaState → Attempt SsaState
unfolding optimise_funcs
cc_ssa_optimise state =
    optimise_funcs state.ssa_funcs state.ssa_tokens >>= λ ts. ok (record state { ssa_tokens = ts })
