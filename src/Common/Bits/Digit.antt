-- ===== src/Common/Bits/Digit.antt =====
-- `|`, `&` and `^` one binary digit at a time.
use Prim.Native.Nat.{ℕ, zero, suc, ◌+◌, ◌*◌, ◌/◌, ◌%◌, ◌≤◌, ◌<◌, differ, min, max}
use Prim.Native.Nat.{bit_and, bit_or, bit_xor, digits, bitwise}
use Prim.Native.Nat.{bit_and-bitwise, bit_or-bitwise, bit_xor-bitwise}
use mathlib.Core.Path.{◌≡◌, refl, sym, ap, ◌∙◌}
use native.Mathlib.Decide.{dec_lt}
use native.Mathlib.Omega.{arith}

-- The recursion of the library stops at the first operand's zero, so one more unit of fuel than the
-- operand needs changes nothing, and neither do several.
module _ (base : ℕ → ℕ) (digit : ℕ → ℕ → ℕ) where
  one_more :
      (fuel a b : ℕ) → a ≤ fuel → digits base digit (suc fuel) a b ≡ digits base digit fuel a b
  one_more (suc fuel) (suc a) b h = rw (one_more fuel (suc a / 2) (b / 2) (omega arith))
  one_more zero (suc a) b h = absurd (omega arith)
  one_more zero zero b h = refl
  one_more (suc fuel) zero b h = refl

  surplus :
      (more fuel a b : ℕ)
      → fuel ≤ more
      → a ≤ fuel
      → digits base digit more a b ≡ digits base digit fuel a b
  surplus zero zero a b le h = refl
  surplus zero (suc fuel) a b le h = absurd (omega arith)
  surplus (suc more) fuel a b le h = elim (dec_lt more fuel) [
    | yes all ↦
        let same : fuel ≡ suc more = omega arith in
        sym (ap (λ (n : ℕ). digits base digit n a b) same)
    | no some_left ↦ one_more more a b (omega arith) ∙ surplus more fuel a b (omega arith) h
  ]

  lowest_digit :
      (a b : ℕ)
      → bitwise base digit (suc a) b
        ≡ 2 * bitwise base digit (suc a / 2) (b / 2) + digit (suc a % 2) (b % 2)
  lowest_digit a b =
      omega (arith, surplus a (suc a / 2) (suc a / 2) (b / 2) (omega arith) (omega arith))

pub bit_and_digit : (a b : ℕ) → bit_and a b ≡ 2 * bit_and (a / 2) (b / 2) + min (a % 2) (b % 2)
bit_and_digit (suc a) b = simp bit_and-bitwise (lowest_digit (λ high. 0) min a b)
bit_and_digit zero b = simp bit_and-bitwise (omega arith)

pub bit_or_digit : (a b : ℕ) → bit_or a b ≡ 2 * bit_or (a / 2) (b / 2) + max (a % 2) (b % 2)
bit_or_digit (suc a) b = simp bit_or-bitwise (lowest_digit (λ high. high) max a b)
bit_or_digit zero b = simp bit_or-bitwise (omega arith)

pub zero-bit_or : (b : ℕ) → bit_or 0 b ≡ b
zero-bit_or b = bit_or-bitwise 0 b

pub zero-bit_and : (b : ℕ) → bit_and 0 b ≡ 0
zero-bit_and b = bit_and-bitwise 0 b

differ-parity : (x y : ℕ) → x < 2 → y < 2 → differ x y ≡ (x + y) % 2
differ-parity zero y p q = omega arith
differ-parity (suc zero) zero p q = refl
differ-parity (suc zero) (suc zero) p q = refl
differ-parity (suc zero) (suc (suc y)) p q = absurd (omega arith)
differ-parity (suc (suc x)) y p q = absurd (omega arith)

pub bit_xor_digit : (a b : ℕ) → bit_xor a b ≡ 2 * bit_xor (a / 2) (b / 2) + (a % 2 + b % 2) % 2
bit_xor_digit (suc a) b =
    let parity = differ-parity (suc a % 2) (b % 2) (omega arith) (omega arith) in
    simp bit_xor-bitwise (omega (arith, lowest_digit (λ high. high) differ a b, parity))
bit_xor_digit zero b = simp bit_xor-bitwise (omega arith)
