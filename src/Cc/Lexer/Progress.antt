-- ===== src/Cc/Lexer/Progress.antt =====
-- cc/lexer.c: proofs on the progress of the tokenizer.
use mathlib.Core.Option.{none-ne-some}
use estros.Common.{
  ℕ, zero, suc, ◌+◌, ◌-◌, ◌^◌, ◌≤◌, ◌<◌, ◌≡◌, ◌≢◌, Bool, true, false, not, ◌&&◌, some, List, [],
  ◌∷◌, ◌++◌, leb, ltb, ◌==◌, inl, inr, Option-cases, length, drop, refl, arith, ap,
}
use estros.Common.Strings.{codes, char_at, isspace, isdigit}
use estros.Cc.Attempt.{Attempt, ok, out_of_fuel}
use estros.Cc.Token.{Token, TokenRule, token_list}
use estros.Cc.Lexer.{
  can_read, find_rule, rule_matches, scan, cc_utf8_len, ispunct, token_at, make_token, prepend,
  tokenize_step, tokenize_loop, cc_tokenize,
}

pub length-drop : (n : ℕ) (p : List ℕ) → length (drop n p) ≡ length p - n
length-drop zero p = omega arith
length-drop (suc n) [] = omega arith
length-drop (suc n) (c ∷ p) = omega (arith, length-drop n p)

scan_le : (test : ℕ → Bool) (skip : ℕ) (p : List ℕ) → skip ≤ scan test skip p
unfolding scan
scan_le test skip [] = omega arith
scan_le test (suc skip) (c ∷ p) = omega (arith, scan_le test skip p)
scan_le test zero (c ∷ p) = omega arith

utf8_len_pos : (c : ℕ) → 1 ≤ cc_utf8_len c
unfolding cc_utf8_len
utf8_len_pos c = ground arith

abbrev all_nonempty : List TokenRule → Bool
all_nonempty [] = true
all_nonempty (r ∷ rs) = leb 1 (length (codes r.text)) && all_nonempty rs

nonempty_table : all_nonempty token_list ≡ true
unfolding token_list
nonempty_table = refl

find_rule_nonempty :
    (rs : List TokenRule) (p : List ℕ) (r : TokenRule)
    → all_nonempty rs ≡ true
    → find_rule rs p ≡ some r
    → 1 ≤ length (codes r.text)
unfolding find_rule
find_rule_nonempty [] p r h found = absurd (none-ne-some _ found)
find_rule_nonempty (x ∷ rs) p r h found = ground (arith, find_rule_nonempty rs p r)

-- Each matched rule's text ends before the end.
find_rule_inside :
    (rs : List TokenRule) (p : List ℕ) (r : TokenRule)
    → find_rule rs p ≡ some r
    → length (codes r.text) < length p
unfolding find_rule rule_matches
find_rule_inside [] p r found = absurd (none-ne-some _ found)
find_rule_inside (x ∷ rs) p r found = ground (arith, find_rule_inside rs p r)

utf8_len_le : (c : ℕ) → cc_utf8_len c ≤ 4
unfolding cc_utf8_len
utf8_len_le c = ground arith

-- A pointer that is moved stays within three bytes of the end.
scan_within :
    (test : ℕ → Bool) (skip : ℕ) (p : List ℕ)
    → skip ≤ length p + 3
    → scan test skip p ≤ length p + 3
unfolding scan
scan_within test skip [] h = h
scan_within test (suc skip) (c ∷ p) h = omega (arith, scan_within test skip p (omega arith))
scan_within test zero (c ∷ p) h =
    let small = utf8_len_le c in
    ground (arith, scan_within test (cc_utf8_len c - 1) p (omega arith))

token_at_within : (c : ℕ) (p : List ℕ) → (token_at (c ∷ p)).1 ≤ length (c ∷ p) + 3
unfolding token_at
token_at_within c p = elim (Option-cases (find_rule token_list (c ∷ p))) [
  | inl absent ↦
      let small = utf8_len_le c in
      rw (token_at, absent)
        (ground (
          arith,
          scan_within isdigit (cc_utf8_len c) (c ∷ p) (omega arith),
          scan_within (λ d. not (ispunct d) && not (isspace d)) (cc_utf8_len c) (c ∷ p)
              (omega arith),
        ))
  | inr (r, found) ↦
      let inside = find_rule_inside token_list (c ∷ p) r found in rw (token_at, found) (omega arith)
]

-- With four bytes behind the end every read is defined.
can_read_within : (room n : ℕ) (p : List ℕ) → 4 ≤ room → n ≤ length p + 3 → can_read room n p ≡ true
can_read_within room n p h k = ground arith

-- Each token takes at least one byte.
pub token_at_pos : (p : List ℕ) → 1 ≤ (token_at p).1
unfolding token_at
token_at_pos p = elim (Option-cases (find_rule token_list p)) [
  | inl absent ↦
      rw (token_at, absent)
        (ground (
          arith,
          utf8_len_pos (char_at p 0),
          scan_le isdigit (cc_utf8_len (char_at p 0)) p,
          scan_le (λ c. not (ispunct c) && not (isspace c)) (cc_utf8_len (char_at p 0)) p,
        ))
  | inr (r, found) ↦ rw (token_at, found) (find_rule_nonempty token_list p r nonempty_table found)
]

-- No byte is 0.
abbrev pub IsText : List ℕ → Type 0
IsText [] = Unit
IsText (c ∷ cs) = (c ≢ 0) × IsText cs

pub IsText-drop : (n : ℕ) (p : List ℕ) → IsText p → IsText (drop n p)
IsText-drop zero p h = h
IsText-drop (suc n) [] h = tt
IsText-drop (suc n) (c ∷ p) h = IsText-drop n p h.1

-- The tokens start at `low` or later and before `stop`, and each behind the end of the one before.
abbrev pub InOrder : (low stop : ℕ) → List Token → Type 0
InOrder low stop [] = Unit
InOrder low stop (t ∷ ts) =
    (low ≤ t.view.pos) × (t.view.pos < stop) × InOrder (t.view.pos + t.view.len) stop ts

InOrder-le :
    (low low' stop : ℕ) (ts : List Token) → low' ≤ low → InOrder low stop ts → InOrder low' stop ts
InOrder-le low low' stop [] h o = tt
InOrder-le low low' stop (t ∷ ts) h o = (omega arith, o.1, o.2)

abbrev Ends : (low stop : ℕ) → Attempt (List Token) → Type 0
Ends low stop r = (ts : List Token) × (r ≡ ok ts) × InOrder low stop ts

prepend-Ends :
    (pos m stop : ℕ) (p : List ℕ) (r : Attempt (List Token))
    → pos < stop
    → stop ≤ 2 ^ 24
    → m ≡ (token_at p).1
    → Ends (pos + m) stop r
    → Ends pos stop (prepend (make_token pos (token_at p)) r)
prepend-Ends pos m stop p r lt small same (ts, is, o) = (
  make_token pos (token_at p) ∷ ts,
  ap (prepend (make_token pos (token_at p))) is,
  (omega arith, omega arith, InOrder-le (pos + m) _ stop ts (omega arith) o),
)

-- A round, where the later rounds end well from every place with less text left than `fuel`.
tokenize_step-Ends :
    (room : ℕ) (again : ℕ → List ℕ → Attempt (List Token)) (fuel pos stop : ℕ) (p : List ℕ)
    → 4 ≤ room
    → ((pos : ℕ) (q : List ℕ)
        → length q < fuel
        → IsText q
        → length q ≡ stop - pos
        → Ends pos stop (again pos q))
    → length p ≤ fuel
    → 1 ≤ fuel
    → IsText p
    → length p ≡ stop - pos
    → stop ≤ 2 ^ 24
    → Ends pos stop (tokenize_step room again pos p)
unfolding tokenize_step
tokenize_step-Ends room again fuel pos stop [] mapped go h some_left text len small =
    go pos [] (omega arith) tt len
tokenize_step-Ends room again fuel pos stop (d ∷ ds) mapped go h some_left text len small =
    let m = (token_at (d ∷ ds)).1 in
    let m_pos : 1 ≤ m = token_at_pos (d ∷ ds) in
    let left : length (drop m (d ∷ ds)) ≡ length (d ∷ ds) - m = length-drop m (d ∷ ds) in
    let rest : Ends (pos + m) stop (again (pos + m) (drop m (d ∷ ds))) =
      go (pos + m) (drop m (d ∷ ds)) (omega arith) (IsText-drop m (d ∷ ds) text) (omega arith) in
    let byte : (d == 0) ≡ false = ground (arith, text.0) in
    let readable = can_read_within room m (d ∷ ds) mapped (token_at_within d ds) in
    rw (byte, readable) (prepend-Ends pos m stop (d ∷ ds) _ (omega arith) small refl rest)

lower-Ends :
    (low low' stop : ℕ) (r : Attempt (List Token)) → low' ≤ low → Ends low stop r → Ends low' stop r
lower-Ends low low' stop r h (ts, is, o) = (ts, is, InOrder-le low low' stop ts h o)

tokenize_loop-Ends :
    (room fuel pos stop : ℕ) (p : List ℕ)
    → 4 ≤ room
    → length p < fuel
    → IsText p
    → length p ≡ stop - pos
    → stop ≤ 2 ^ 24
    → Ends pos stop (tokenize_loop room fuel pos p)
unfolding tokenize_loop
tokenize_loop-Ends room zero pos stop p mapped h text len small = absurd (omega arith)
tokenize_loop-Ends room (suc fuel) pos stop [] mapped h text len small = ([], refl, tt)
tokenize_loop-Ends room (suc fuel) pos stop (c ∷ cs) mapped h text len small =
    let n = scan isspace 0 (c ∷ cs) in
    let left : length (drop n (c ∷ cs)) ≡ length (c ∷ cs) - n = length-drop n (c ∷ cs) in
    let readable =
      can_read_within room n (c ∷ cs) mapped (scan_within isspace 0 (c ∷ cs) (omega arith)) in
    rw readable (
      lower-Ends (pos + n) pos stop _ (omega arith) (
        tokenize_step-Ends room (tokenize_loop room fuel) fuel (pos + n) stop (drop n (c ∷ cs))
          mapped
          (λ pos' q short text' len'.
            tokenize_loop-Ends room fuel pos' stop q mapped short text' len' small)
          (omega arith) (omega arith) (IsText-drop n (c ∷ cs) text) (omega arith) small))

-- For a text without a byte 0 of at most 2 ^ 24 bytes, behind which at least four bytes are mapped,
-- the tokenizer reads no other byte and ends after at most as many rounds as the text has bytes and one
-- more, and the tokens start inside the text, in its order, none before the end of the one before.
pub cc_tokenize-InOrder :
    (room : ℕ) (input : List ℕ)
    → 4 ≤ room
    → IsText input
    → length input ≤ 2 ^ 24
    → (ts : List Token) × (cc_tokenize room (suc (length input)) input ≡ ok ts)
      × InOrder 0 (length input) ts
unfolding cc_tokenize
cc_tokenize-InOrder room input mapped text small =
    tokenize_loop-Ends room (suc (length input)) 0 (length input) input mapped (omega arith) text
      (omega arith) small

-- At a byte 0 the loop goes round without a step: it never ends.
tokenize_loop_zero :
    (room fuel pos : ℕ) (rest : List ℕ) → tokenize_loop room fuel pos (0 ∷ rest) ≡ out_of_fuel
unfolding tokenize_loop tokenize_step
tokenize_loop_zero room zero pos rest = refl
tokenize_loop_zero room (suc fuel) pos rest =
    let readable : can_read room 0 (0 ∷ rest) ≡ true = ground arith in
    rw readable (tokenize_loop_zero room fuel (pos + 0) rest)

abbrev pub IsBlank : List ℕ → Type 0
IsBlank [] = Unit
IsBlank (c ∷ cs) = (isspace c ≡ true) × IsBlank cs

scan-IsBlank : (s rest : List ℕ) → IsBlank s → scan isspace 0 (s ++ 0 ∷ rest) ≡ length s
unfolding scan isspace cc_utf8_len
scan-IsBlank [] rest h = refl
scan-IsBlank (c ∷ s) rest h =
    let ascii : ltb c 128 ≡ true = ground (arith, h.0) in
    rw (h.0, ascii) (ap suc (scan-IsBlank s rest h.1))

drop-length : (s q : List ℕ) → drop (length s) (s ++ q) ≡ q
drop-length [] q = refl
drop-length (c ∷ s) q = drop-length s q

length_before : (s rest : List ℕ) → length s < length (s ++ 0 ∷ rest)
length_before [] rest = omega arith
length_before (c ∷ s) rest = omega (arith, length_before s rest)

tokenize_loop_blank_zero :
    (room fuel pos : ℕ) (s rest : List ℕ)
    → IsBlank s
    → tokenize_loop room fuel pos (s ++ 0 ∷ rest) ≡ out_of_fuel
unfolding tokenize_loop tokenize_step
tokenize_loop_blank_zero room zero pos s rest h = refl
tokenize_loop_blank_zero room (suc fuel) pos [] rest h = tokenize_loop_zero room (suc fuel) pos rest
tokenize_loop_blank_zero room (suc fuel) pos (c ∷ s) rest h =
    let readable : can_read room (length (c ∷ s)) (c ∷ s ++ 0 ∷ rest) ≡ true =
      ground (arith, length_before (c ∷ s) rest) in
    rw (scan-IsBlank (c ∷ s) rest h, readable, drop-length (c ∷ s) (0 ∷ rest))
      (tokenize_loop_zero room fuel (pos + length (c ∷ s)) rest)

-- The tokenizer does not end, with however many rounds, where white space and then a byte 0 stand at
-- the beginning of the text.
pub cc_tokenize_zero :
    (room fuel : ℕ) (s rest : List ℕ)
    → IsBlank s
    → cc_tokenize room fuel (s ++ 0 ∷ rest) ≡ out_of_fuel
unfolding cc_tokenize
cc_tokenize_zero room fuel s rest h = tokenize_loop_blank_zero room fuel 0 s rest h
