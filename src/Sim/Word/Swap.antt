-- ===== src/Sim/Word/Swap.antt =====
-- isa/sim.c: proofs on cpu_i_bswap.
use estros.Common.{ℕ, ◌+◌, ◌*◌, ◌/◌, ◌%◌, ◌^◌, ◌<◌, ◌≡◌, arith}
use estros.Common.Bits.{bit_or_low}
use estros.Sim.Word.{cpu_i_bswap}

-- The fields of the four `|` are disjoint, so the result is a sum.
pub bswap_value :
    (v : ℕ)
    → cpu_i_bswap v
      ≡ v % 256 * 2 ^ 24 + v / 256 % 256 * 2 ^ 16 + v / 65536 % 256 * 2 ^ 8 + v / 2 ^ 24 % 256
unfolding cpu_i_bswap
bswap_value v =
    rw
      (
        bit_or_low 8 (v / 2 ^ 16 % 256) (v / 2 ^ 24 % 256 * 1) (omega arith),
        bit_or_low 16 (v / 2 ^ 8 % 256) (v / 2 ^ 16 % 256 * 2 ^ 8 + v / 2 ^ 24 % 256 * 1)
            (omega arith),
        bit_or_low 24 (v / 1 % 256)
            (v / 2 ^ 8 % 256 * 2 ^ 16 + (v / 2 ^ 16 % 256 * 2 ^ 8 + v / 2 ^ 24 % 256 * 1))
            (omega arith),
      )
      (omega arith)

pub bswap-lt : (v : ℕ) → cpu_i_bswap v < 2 ^ 32
bswap-lt v = omega (arith, bswap_value v)

-- On 32 bits the byte swap undoes itself.
pub bswap-bswap : (v : ℕ) → v < 2 ^ 32 → cpu_i_bswap (cpu_i_bswap v) ≡ v
bswap-bswap v h = omega (arith, bswap_value v, bswap_value (cpu_i_bswap v))
