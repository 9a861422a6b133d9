-- ===== src/Cc/Lexer/Unmapped.antt =====
-- cc/lexer.c: proofs on the tokenizer where no byte behind the text is mapped.
use estros.Common.{
  ap, ℕ, zero, suc, ◌+◌, ◌-◌, ◌≤◌, ◌<◌, ◌≡◌, false, List, [], ◌∷◌, ◌==◌, inl, inr, Bool-cases,
  length, drop, refl, arith,
}
use estros.Common.Strings.{isspace}
use estros.Cc.Attempt.{Attempt, undefined}
use estros.Cc.Token.{Token}
use estros.Cc.Lexer.{
  can_read, scan, token_at, make_token, prepend, tokenize_step, tokenize_loop, cc_tokenize,
}
use estros.Cc.Lexer.Progress.{length-drop, token_at_pos, IsText, IsText-drop}

-- A round from a place before the end, where the later rounds are undefined from such places.
tokenize_step_undefined :
    (again : ℕ → List ℕ → Attempt (List Token)) (fuel pos : ℕ) (p : List ℕ)
    → ((pos : ℕ) (q : List ℕ) → length q < fuel → 1 ≤ length q → IsText q → again pos q ≡ undefined)
    → length p ≤ fuel
    → 1 ≤ length p
    → IsText p
    → tokenize_step 0 again pos p ≡ undefined
unfolding tokenize_step
tokenize_step_undefined again fuel pos [] go h some_left text = absurd (omega arith)
tokenize_step_undefined again fuel pos (d ∷ ds) go h some_left text =
    let m = (token_at (d ∷ ds)).1 in
    let m_pos : 1 ≤ m = token_at_pos (d ∷ ds) in
    let left : length (drop m (d ∷ ds)) ≡ length (d ∷ ds) - m = length-drop m (d ∷ ds) in
    let byte : (d == 0) ≡ false = ground (arith, text.0) in
    elim (Bool-cases (can_read 0 m (d ∷ ds))) [
      | inl readable ↦
          let shorter : m < length (d ∷ ds) = ground arith in
          let later : again (pos + m) (drop m (d ∷ ds)) ≡ undefined =
            go (pos + m) (drop m (d ∷ ds)) (omega arith) (omega arith)
              (IsText-drop m (d ∷ ds) text) in
          rw (byte, readable) (ap (prepend (make_token pos (token_at (d ∷ ds)))) later)
      | inr unreadable ↦ rw (byte, unreadable) refl
    ]

tokenize_loop_undefined :
    (fuel pos : ℕ) (p : List ℕ)
    → length p < fuel
    → 1 ≤ length p
    → IsText p
    → tokenize_loop 0 fuel pos p ≡ undefined
unfolding tokenize_loop
tokenize_loop_undefined zero pos p h some_left text = absurd (omega arith)
tokenize_loop_undefined (suc fuel) pos [] h some_left text = absurd (omega arith)
tokenize_loop_undefined (suc fuel) pos (c ∷ cs) h some_left text =
    let n = scan isspace 0 (c ∷ cs) in
    let left : length (drop n (c ∷ cs)) ≡ length (c ∷ cs) - n = length-drop n (c ∷ cs) in
    elim (Bool-cases (can_read 0 n (c ∷ cs))) [
      | inl readable ↦
          let shorter : n < length (c ∷ cs) = ground arith in
          rw readable (
            tokenize_step_undefined (tokenize_loop 0 fuel) fuel (pos + n) (drop n (c ∷ cs))
              (λ pos' q short more text'. tokenize_loop_undefined fuel pos' q short more text')
              (omega arith) (omega arith) (IsText-drop n (c ∷ cs) text))
      | inr unreadable ↦ rw unreadable refl
    ]

-- Where no byte behind a text is mapped, as behind a file that fills its last page, the tokenizer reads
-- one all the same: for any text with a byte and without a byte 0, what it does is undefined.
pub cc_tokenize_unmapped :
    (input : List ℕ)
    → 1 ≤ length input
    → IsText input
    → cc_tokenize 0 (suc (length input)) input ≡ undefined
unfolding cc_tokenize
cc_tokenize_unmapped input some_left text =
    tokenize_loop_undefined (suc (length input)) 0 input (omega arith) some_left text
