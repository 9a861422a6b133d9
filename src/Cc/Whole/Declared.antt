-- ===== src/Cc/Whole/Declared.antt =====
-- cc/parser.c: proofs on declarations that the parser does not take.
use estros.Common.{ℕ, ◌≡◌, List, [], ◌∷◌, refl}
use estros.Cc.Token.{Strview, Token, TokenType}
use estros.Cc.Attempt.{ok, aborted}
use estros.Cc.Driver.{parser_state, parse_tokens}
use estros.Cc.Whole.{token, blank}

-- The tokens of `int name`, before others.
abbrev pub int_named : Strview → List Token → List Token
int_named name later = token TokenType.kw_int blank ∷ token TokenType.ident name ∷ later

-- Of `int f()`, `int f(int x);` and `int x;`.
abbrev pub no_parameters : (f : Strview) → List Token → List Token
no_parameters f later =
    int_named f (token TokenType.lparen blank ∷ token TokenType.rparen blank ∷ later)

abbrev pub prototype : (f x : Strview) → List Token → List Token
prototype f x later = int_named f (
    token TokenType.lparen blank
    ∷ int_named x (token TokenType.rparen blank ∷ token TokenType.semi blank ∷ later))

abbrev pub variable : (x : Strview) → List Token → List Token
variable x later = int_named x (token TokenType.semi blank ∷ later)

-- For any names and any tokens behind: a file that begins with `int f()` or with `int f(int x);` makes
-- the compiler abort, and of one that begins with `int x;` it compiles nothing.
pub parse_tokens_declared :
    (text : List ℕ) (f x : Strview) (later : List Token)
    → (parse_tokens 40 (parser_state text (no_parameters f later)) ≡ aborted)
      × (parse_tokens 40 (parser_state text (prototype f x later)) ≡ aborted)
      × (parse_tokens 40 (parser_state text (variable x later)) ≡ ok [])
unfolding parse_tokens
parse_tokens_declared text f x later = (refl, refl, refl)
