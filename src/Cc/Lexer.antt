-- ===== src/Cc/Lexer.antt =====
-- cc/lexer.c: cc_tokenize. The pointer `p` is the list of the bytes from it to `end`, with its
-- distance from `start`; it is empty where `p >= end`. The loops read `*p` before they compare `p` with
-- `end`: a read behind `end` is `undefined`, unless it is of one of the `room` bytes that are mapped
-- there, and what it gives does not matter.
-- `char` is signed, so a byte of 128 or more is a negative number. The C locale holds.
pub mod Munch
pub mod Progress
pub mod Unmapped
use estros.Common.{
  ℕ, zero, suc, ◌+◌, ◌-◌, ◌^◌, ◌%◌, Bool, true, false, not, ◌&&◌, ◌||◌, Option, none, some, List,
  [], ◌∷◌, leb, ltb, ◌==◌, if◌then◌else◌, length, drop,
}
use estros.Common.Strings.{codes, char_at, isspace, isdigit}
use estros.Cc.Attempt.{Attempt, ok, undefined, out_of_fuel, ◌>>=◌}
use estros.Cc.Token.{Strview, Token, TokenType, TokenRule, token_list}

-- `isalpha` and `ispunct` of ctype.h.
unfoldable pub isalpha : ℕ → Bool
isalpha c = (leb b'A' c && leb c b'Z') || (leb b'a' c && leb c b'z')

unfoldable pub ispunct : ℕ → Bool
unfolding isalpha isdigit
ispunct c = leb 33 c && leb c 126 && not (isalpha c || isdigit c)

unfoldable pub cc_is_identifier : ℕ → Bool
unfolding isalpha isdigit
cc_is_identifier c = isalpha c || c == b'_' || isdigit c

-- A byte of 128 or more is negative, and so in none of the ranges of the code.
unfoldable pub cc_utf8_len : ℕ → ℕ
cc_utf8_len c = if ltb c 128 then 1 else 4

-- `strncmp(p, text, strlen(text)) == 0`, for a text without a byte 0.
unfoldable pub starts_with : (text p : List ℕ) → Bool
starts_with [] p = true
starts_with (t ∷ ts) [] = false
starts_with (t ∷ ts) (c ∷ cs) = t == c && starts_with ts cs

-- The condition of an `else if` of the chain.
unfoldable pub rule_matches : TokenRule → (p : List ℕ) → Bool
unfolding starts_with cc_is_identifier
rule_matches rule p =
    let n = length (codes rule.text) in
    let found = ltb n (length p) && starts_with (codes rule.text) p in
    if rule.is_kw
    then found && (leb (length p) (n + 1) || not (cc_is_identifier (char_at p n)))
    else found

unfoldable pub find_rule : List TokenRule → (p : List ℕ) → Option TokenRule
unfolding rule_matches
find_rule [] p = none
find_rule (rule ∷ rules) p =
    let rest = find_rule rules p in if rule_matches rule p then some rule else rest

-- `p += skip; while (test(*p) && p < end) p += cc_utf8_len(*p)`: how far `p` goes, which may be past
-- `end`.
unfoldable pub scan : (test : ℕ → Bool) → (skip : ℕ) → List ℕ → ℕ
unfolding cc_utf8_len
scan test skip [] = skip
scan test (suc skip) (c ∷ cs) = suc (scan test skip cs)
scan test zero (c ∷ cs) =
    let rest = scan test (cc_utf8_len c - 1) cs in if test c then suc rest else 0

-- The token at `p`, and how far `p` goes. `isnumber` is taken for `isdigit`, which it is in the C
-- locale.
unfoldable pub token_at : (p : List ℕ) → TokenType × ℕ
unfolding find_rule scan isdigit ispunct isspace
token_at p = elim (find_rule token_list p) [
  | some rule ↦ (rule.type, length (codes rule.text))
  | none ↦
      if isdigit (char_at p 0)
      then (TokenType.literal, scan isdigit (cc_utf8_len (char_at p 0)) p)
      else (
        TokenType.ident,
        scan (λ c. not (ispunct c) && not (isspace c)) (cc_utf8_len (char_at p 0)) p,
      )
]

-- The two fields of `tok.data` have 24 and 8 bits.
abbrev pub make_token : (pos : ℕ) → TokenType × ℕ → Token
make_token pos (type, n) = record {
  view = record { pos = pos % 2 ^ 24; len = n % 2 ^ 8 };
  type = type;
}

abbrev pub prepend : Token → Attempt (List Token) → Attempt (List Token)
prepend t later = later >>= λ ts. ok (t ∷ ts)

-- Whether `p[n]` can be read.
abbrev pub can_read : (room n : ℕ) → (p : List ℕ) → Bool
can_read room n p = ltb n (length p + room)

-- The body of the loop from the place behind the white space, with what the later rounds give from
-- a place: where `p` is at a byte 0 or at the end, nothing is done. The byte behind the token is read:
-- behind a literal or an identifier in its own loop, and behind another it is before `end`.
unfoldable pub tokenize_step :
    (room : ℕ)
    → (again : ℕ → List ℕ → Attempt (List Token)) → (pos : ℕ) → (p : List ℕ) → Attempt (List Token)
unfolding token_at
tokenize_step room again pos p =
    let n = (token_at p).1 in
    if char_at p 0 == 0
    then again pos p
    else if can_read room n p
    then prepend (make_token pos (token_at p)) (again (pos + n) (drop n p))
    else undefined

-- The loop of cc_tokenize. A byte of white space is one byte long, and the byte behind it is read.
unfoldable pub tokenize_loop : (room fuel pos : ℕ) → (p : List ℕ) → Attempt (List Token)
unfolding tokenize_step isspace
tokenize_loop room zero pos p = out_of_fuel
tokenize_loop room (suc fuel) pos [] = ok []
tokenize_loop room (suc fuel) pos (c ∷ cs) =
    let n = scan isspace 0 (c ∷ cs) in
    if can_read room n (c ∷ cs)
    then tokenize_step room (tokenize_loop room fuel) (pos + n) (drop n (c ∷ cs))
    else undefined

-- `fuel` bounds the rounds of the loop, and `room` is the number of the bytes mapped behind the input.
unfoldable pub cc_tokenize : (room fuel : ℕ) → (input : List ℕ) → Attempt (List Token)
unfolding tokenize_loop
cc_tokenize room fuel input = tokenize_loop room fuel 0 input
