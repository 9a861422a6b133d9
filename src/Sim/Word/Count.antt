-- ===== src/Sim/Word/Count.antt =====
-- isa/sim.c: proofs on cpu_i_popcount, cpu_i_clz and cpu_i_clo.
use estros.Common.{
  ℕ, zero, suc, ◌+◌, ◌-◌, ◌/◌, ◌%◌, ◌^◌, ◌≤◌, ◌<◌, ◌≡◌, true, false, arith, test_bit, u32, inl, inr,
  Bool-cases, ◌∙◌, ap, refl,
}
use native.Mathlib.Nat.{pow-suc, div-div-eq-div-mul}
use native.Mathlib.Decide.{dec_lt}
use native.Mathlib.Numerals.{towards_suc}
use estros.Sim.Word.{popcount_loop, cpu_i_popcount, clz_loop, cpu_i_clz, clo_loop, cpu_i_clo}

-- The number of ones among the lowest `n` binary digits.
unfoldable pub ones : (n v : ℕ) → ℕ
ones zero v = 0
ones (suc n) v = v % 2 + ones n (v / 2)

halve_shifted : (v i : ℕ) → v / 2 ^ i / 2 ≡ v / 2 ^ (i + 1)
halve_shifted v i =
    div-div-eq-div-mul v (2 ^ i) 2
    ∙ ap (λ (t : ℕ). v / t) (simp towards_suc (omega (arith, pow-suc 2 i)))

popcount_loop-eq-ones :
    (left i c v : ℕ) → c + left < 2 ^ 32 → popcount_loop left i c v ≡ c + ones left (v / 2 ^ i)
unfolding popcount_loop ones
popcount_loop-eq-ones zero i c v h = omega arith
popcount_loop-eq-ones (suc left) i c v h = elim (Bool-cases (test_bit v i)) [
  | inl set ↦ rw set (
      popcount_loop-eq-ones left (i + 1) (u32 (c + 1)) v (omega arith)
      ∙ ground (arith, halve_shifted v i))
  | inr clear ↦
      rw clear
        (popcount_loop-eq-ones left (i + 1) c v (omega arith) ∙ ground (arith, halve_shifted v i))
]

-- cpu_i_popcount counts the ones among the 32 digits.
pub popcount-eq-ones : (v : ℕ) → cpu_i_popcount v ≡ ones 32 v
unfolding cpu_i_popcount
popcount-eq-ones v =
    let unshifted : v / 2 ^ 0 ≡ v = omega arith in
    popcount_loop-eq-ones 32 0 0 v (omega arith) ∙ rw unshifted (omega arith)

-- It is at most 32.
ones-le : (n v : ℕ) → ones n v ≤ n
unfolding ones
ones-le zero v = omega arith
ones-le (suc n) v = omega (arith, ones-le n (v / 2))

ones-complement : (n v : ℕ) → v < 2 ^ n → ones n v + ones n (2 ^ n - 1 - v) ≡ n
unfolding ones
ones-complement zero v h = omega arith
ones-complement (suc n) v h =
    let half : (2 ^ suc n - 1 - v) / 2 ≡ 2 ^ n - 1 - v / 2 = omega (arith, pow-suc 2 n) in
    rw half (omega (arith, pow-suc 2 n, ones-complement n (v / 2) (omega (arith, pow-suc 2 n))))

-- The loop of cpu_i_clz stops at the first digit that is set, or at 32.
abbrev pub StopsAt : (i end v c : ℕ) → Type 0
StopsAt i end v c =
    (i ≤ c)
    × (c ≤ end)
    × ((j : ℕ) → i ≤ j → j < c → test_bit v j ≡ false)
    × (c < end → test_bit v c ≡ true)

clz_loop-StopsAt : (left i v : ℕ) → i + left < 2 ^ 32 → StopsAt i (i + left) v (clz_loop left i i v)
unfolding clz_loop
clz_loop-StopsAt zero i v h =
    (omega arith, omega arith, λ j p q. absurd (omega arith), λ p. absurd (omega arith))
clz_loop-StopsAt (suc left) i v h = elim (Bool-cases (test_bit v i)) [
  | inl set ↦ rw set (omega arith, omega arith, λ j p q. absurd (omega arith), λ p. set)
  | inr clear ↦
      let wraps : u32 (i + 1) ≡ i + 1 = omega arith in
      let (above, below, zeros, one) = clz_loop-StopsAt left (i + 1) v (omega arith) in
      rw (clear, wraps)
        (
          omega arith,
          omega arith,
          λ j p q. elim (dec_lt i j) [
            | yes lt ↦ zeros j (omega arith) q
            | no ge ↦ let same : j ≡ i = omega arith in rw same clear
          ],
          λ p. one (omega arith),
        )
]

clo_loop-eq-clz_loop : (left i c v : ℕ) → clo_loop left i c v ≡ clz_loop left i c v
unfolding clo_loop clz_loop
clo_loop-eq-clz_loop zero i c v = refl
clo_loop-eq-clz_loop (suc left) i c v = rw (clo_loop-eq-clz_loop left (i + 1) (u32 (c + 1)) v)

-- cpu_i_clz is the number of zeros below the lowest one, which is the count of trailing zeros: 32
-- where there is no one among the 32 digits.
pub clz-StopsAt : (v : ℕ) → StopsAt 0 32 v (cpu_i_clz v)
unfolding cpu_i_clz
clz-StopsAt v = clz_loop-StopsAt 32 0 v (omega arith)

-- cpu_i_clo, the count of leading ones by its name, equals cpu_i_clz on every value.
pub clo-eq-clz : (v : ℕ) → cpu_i_clo v ≡ cpu_i_clz v
unfolding cpu_i_clo cpu_i_clz
clo-eq-clz v = clo_loop-eq-clz_loop 32 0 0 v

pub popcount-le : (v : ℕ) → cpu_i_popcount v ≤ 32
popcount-le v = omega (arith, popcount-eq-ones v, ones-le 32 v)

-- The ones of a 32-bit value and those of its complement are 32 together.
pub popcount-complement :
    (v : ℕ) → v < 2 ^ 32 → cpu_i_popcount v + cpu_i_popcount (2 ^ 32 - 1 - v) ≡ 32
popcount-complement v h =
    omega (arith, popcount-eq-ones v, popcount-eq-ones (2 ^ 32 - 1 - v), ones-complement 32 v h)
