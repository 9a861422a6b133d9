-- ===== src/Sim/Word.antt =====
-- isa/sim.c, lines 121 to 167: the bit-counting helpers, the byte swap and the addition of `cmp`.
pub mod Swap
pub mod Count
use estros.Common.{
  ℕ, zero, suc, ◌+◌, ◌-◌, ◌*◌, ◌/◌, ◌%◌, ◌^◌, not, bit_and, bit_or, u32, u64, test_bit, put_bit,
  is_negative, ◌==◌, if◌then◌else◌,
}
use estros.Isa.{flags_bit_c}
use estros.Sim.State.{Sim, set_flags}

-- The loop of cpu_i_popcount at `i`, with `left` rounds to go.
unfoldable pub popcount_loop : (left i c v : ℕ) → ℕ
popcount_loop zero i c v = c
popcount_loop (suc left) i c v =
    popcount_loop left (i + 1) (if test_bit v i then u32 (c + 1) else c) v

unfoldable pub cpu_i_popcount : ℕ → ℕ
unfolding popcount_loop
cpu_i_popcount v = popcount_loop 32 0 0 v

-- The loop of cpu_i_clz, which leaves at the first bit set, counting from bit 0.
unfoldable pub clz_loop : (left i c v : ℕ) → ℕ
clz_loop zero i c v = c
clz_loop (suc left) i c v =
    let rest = clz_loop left (i + 1) (u32 (c + 1)) v in if test_bit v i then c else rest

unfoldable pub cpu_i_clz : ℕ → ℕ
unfolding clz_loop
cpu_i_clz v = clz_loop 32 0 0 v

-- The loop of cpu_i_clo: its test is that of cpu_i_clz.
unfoldable pub clo_loop : (left i c v : ℕ) → ℕ
clo_loop zero i c v = c
clo_loop (suc left) i c v =
    let rest = clo_loop left (i + 1) (u32 (c + 1)) v in if test_bit v i then c else rest

unfoldable pub cpu_i_clo : ℕ → ℕ
unfolding clo_loop
cpu_i_clo v = clo_loop 32 0 0 v

unfoldable pub cpu_i_bswap : ℕ → ℕ
cpu_i_bswap v =
    bit_or
      (bit_or (bit_or (v / 2 ^ 24 % 2 ^ 8 * 2 ^ 0) (v / 2 ^ 16 % 2 ^ 8 * 2 ^ 8))
        (v / 2 ^ 8 % 2 ^ 8 * 2 ^ 16))
      (v / 2 ^ 0 % 2 ^ 8 * 2 ^ 24)

-- `UINT32_MAX` has the type `unsigned int`, so `~UINT32_MAX` is taken on 32 bits, and is 0, before
-- it is widened for the `&`.
abbrev not_uint32_max : ℕ
not_uint32_max = 2 ^ 32 - 1 - (2 ^ 32 - 1)

-- The new state has FLAGS_BIT_C cleared and then set by the test.
unfoldable pub cpu_i_add32 : {F : Type 0} → Sim F → ℕ → ℕ → ℕ × Sim F
cpu_i_add32 sim a b =
    let result = u64 (a + b) in
    (
      u32 result,
      set_flags sim
          (put_bit (sim.cpu.flags) flags_bit_c (not (bit_and result not_uint32_max == 0))),
    )

-- `(int64_t)a`, for the pattern of an `int32_t`.
abbrev widened : ℕ → ℕ
widened a = if is_negative a then a + (2 ^ 64 - 2 ^ 32) else a

-- No code calls it.
unfoldable pub cpu_i_sub32 : {F : Type 0} → Sim F → ℕ → ℕ → ℕ × Sim F
cpu_i_sub32 sim a b =
    let result = u64 (widened a + 2 ^ 64 - widened b) in
    (
      u32 result,
      set_flags sim
          (put_bit (sim.cpu.flags) flags_bit_c (not (bit_and result not_uint32_max == 0))),
    )
