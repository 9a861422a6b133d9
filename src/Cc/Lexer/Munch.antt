-- ===== src/Cc/Lexer/Munch.antt =====
-- cc/lexer.c: proofs on the choice of a token.
use mathlib.Core.Bool.{and-eq-true_iff, false≢true}
use mathlib.Core.Option.{some-injective, none-ne-some}
use estros.Common.{
  ℕ, zero, suc, ◌≤◌, ◌≡◌, Bool, true, not, ◌&&◌, ◌||◌, some, List, [], ◌∷◌, ◌++◌, leb, inl, inr,
  Bool-cases, length, get_elem?, refl, arith,
}
use estros.Common.Strings.{codes}
use estros.Cc.Token.{TokenRule, token_elems, token_kws, token_list}
use estros.Cc.Lexer.{starts_with, rule_matches, find_rule}

-- Of two prefixes of a text the shorter is a prefix of the longer.
starts_with_both :
    (a b p : List ℕ)
    → starts_with a p ≡ true
    → starts_with b p ≡ true
    → length a ≤ length b
    → starts_with a b ≡ true
unfolding starts_with
starts_with_both [] b p h k le = refl
starts_with_both (x ∷ a) [] p h k le = absurd (omega arith)
starts_with_both (x ∷ a) (y ∷ b) [] h k le = absurd (false≢true h)
starts_with_both (x ∷ a) (y ∷ b) (z ∷ p) h k le = ground (arith, starts_with_both a b p)

rule_matches-starts_with :
    (r : TokenRule) (p : List ℕ) → rule_matches r p ≡ true → starts_with (codes r.text) p ≡ true
unfolding rule_matches
rule_matches-starts_with r p h = ground arith

-- No text of the list extends this one.
abbrev not_extended : TokenRule → List TokenRule → Bool
not_extended r [] = true
not_extended r (x ∷ xs) =
    (not (starts_with (codes r.text) (codes x.text))
      || leb (length (codes x.text)) (length (codes r.text)))
    && not_extended r xs

abbrev longest_first : List TokenRule → Bool
longest_first [] = true
longest_first (r ∷ rs) = not_extended r rs && longest_first rs

elems_table : longest_first token_elems ≡ true
unfolding token_elems starts_with
elems_table = refl

longest_of_two :
    (r x : TokenRule) (p : List ℕ)
    → (not (starts_with (codes r.text) (codes x.text))
        || leb (length (codes x.text)) (length (codes r.text)))
      ≡ true
    → rule_matches r p ≡ true
    → rule_matches x p ≡ true
    → length (codes x.text) ≤ length (codes r.text)
longest_of_two r x p h hr hx =
    let extends =
      starts_with_both (codes r.text) (codes x.text) p (rule_matches-starts_with r p hr)
        (rule_matches-starts_with x p hx) in
    ground arith

not_extended-get :
    (r : TokenRule) (xs : List TokenRule) (i : ℕ) (x : TokenRule) (p : List ℕ)
    → not_extended r xs ≡ true
    → get_elem? xs i ≡ some x
    → rule_matches r p ≡ true
    → rule_matches x p ≡ true
    → length (codes x.text) ≤ length (codes r.text)
not_extended-get r [] i x p h at hr hx = absurd (none-ne-some _ at)
not_extended-get r (y ∷ xs) zero x p h at hr hx =
    let first = ((and-eq-true_iff _ (not_extended r xs)).0 h).0 in
    longest_of_two r x p (rw (some-injective _ _ at) at first) hr hx
not_extended-get r (y ∷ xs) (suc i) x p h at hr hx =
    not_extended-get r xs i x p (((and-eq-true_iff _ (not_extended r xs)).0 h).1) at hr hx

first_match_longest :
    (es later : List TokenRule) (i : ℕ) (x r : TokenRule) (p : List ℕ)
    → longest_first es ≡ true
    → get_elem? es i ≡ some x
    → rule_matches x p ≡ true
    → find_rule (es ++ later) p ≡ some r
    → length (codes x.text) ≤ length (codes r.text)
unfolding find_rule
first_match_longest [] later i x r p h at hx found = absurd (none-ne-some _ at)
first_match_longest (e ∷ es) later zero x r p h at hx found =
    let here : rule_matches e p ≡ true = rw (some-injective _ _ at) hx in
    let chosen : e ≡ r = some-injective _ _ (rw here at found) in
    rw (← chosen, some-injective _ _ at) (omega arith)
first_match_longest (e ∷ es) later (suc i) x r p h at hx found =
    let (first, others) = (and-eq-true_iff (not_extended e es) (longest_first es)).0 h in
    elim (Bool-cases (rule_matches e p)) [
      | inl hit ↦
          let chosen : e ≡ r = some-injective _ _ (rw hit at found) in
          rw (← chosen) (not_extended-get e es i x p first at hit hx)
      | inr miss ↦ first_match_longest es later i x r p others at hx (rw miss at found)
    ]

-- The token that is chosen is at least as long as every punctuator that matches at the same place.
pub find_rule_longest :
    (i : ℕ) (x r : TokenRule) (p : List ℕ)
    → get_elem? token_elems i ≡ some x
    → rule_matches x p ≡ true
    → find_rule token_list p ≡ some r
    → length (codes x.text) ≤ length (codes r.text)
unfolding token_list
find_rule_longest i x r p at hx found =
    first_match_longest token_elems token_kws i x r p elems_table at hx found
