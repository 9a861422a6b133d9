-- ===== src/Common/Word.antt =====
-- C's fixed-width unsigned numbers as native numbers: casts, masks, shifts and sign extension.
-- A signed number stands as its two's complement bit pattern.
use Prim.Native.Nat.{ℕ, ◌+◌, ◌-◌, ◌*◌, ◌/◌, ◌%◌, ◌^◌, ◌<◌, bit_and}
use mathlib.Core.Path.{◌≡◌, refl}
use mathlib.Core.Bool.{Bool, true, false}
use native.Mathlib.Omega.{arith}
use estros.Common.Tests.{ltb, ◌==◌, if◌then◌else◌, ==_iff, all_from, all_from_each}

abbrev pub u8 : ℕ → ℕ
u8 n = n % 2 ^ 8

abbrev pub u16 : ℕ → ℕ
u16 n = n % 2 ^ 16

abbrev pub u32 : ℕ → ℕ
u32 n = n % 2 ^ 32

abbrev pub u64 : ℕ → ℕ
u64 n = n % 2 ^ 64

-- `b & 0x0f` and `(b >> 4) & 0x0f`.
abbrev pub low4 : ℕ → ℕ
low4 b = b % 16

abbrev pub high4 : ℕ → ℕ
high4 b = b / 16 % 16

-- `(x & (1 << k)) != 0`.
abbrev pub test_bit : ℕ → ℕ → Bool
test_bit x k = x / 2 ^ k % 2 == 1

-- `x & ~(1 << k)`, then `| (1 << k)` if the flag is set.
abbrev pub put_bit : ℕ → ℕ → Bool → ℕ
put_bit x k flag = x / (2 * 2 ^ k) * (2 * 2 ^ k) + (if flag then 2 ^ k else 0) + x % 2 ^ k

-- `(int32_t)(int8_t)b` and `(int32_t)(int16_t)w`, as patterns of 32 bits.
abbrev pub sext8 : ℕ → ℕ
sext8 b = if ltb b 128 then b else b + (2 ^ 32 - 2 ^ 8)

abbrev pub sext16 : ℕ → ℕ
sext16 w = if ltb w 32768 then w else w + (2 ^ 32 - 2 ^ 16)

-- `(int32_t)w < 0`.
abbrev pub is_negative : ℕ → Bool
is_negative w = if ltb w (2 ^ 31) then false else true

masks_table : all_from 256 0 (λ b. bit_and b 0x0f == low4 b) ≡ true
unfolding all_from
masks_table = refl

-- The arithmetic form of the mask `& 0x0f` on a byte.
pub low4-eq-bit_and : (b : ℕ) → b < 256 → bit_and b 0x0f ≡ low4 b
low4-eq-bit_and b h = (==_iff _ _).0 (all_from_each 256 0 _ b (omega arith) h masks_table)
