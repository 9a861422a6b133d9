-- ===== src/Sim/Integer/Imul.antt =====
-- isa/sim.c: proofs on imul and mul.
use estros.Common.{
  ℕ, ◌+◌, ◌-◌, ◌*◌, ◌^◌, ◌≤◌, ◌<◌, ◌≡◌, inl, inr, some, u32, arith, Bool-cases, ltb, ap,
}
use mathlib.Core.Bool.{xor}
use native.Mathlib.Nat.{mul_comm}
use estros.Common.{Bool, true, refl, ◌∙◌, is_negative, leb, if◌then◌else◌}
use estros.Sim.State.{Sim, Inst}
use estros.Sim.Integer.{
  checked_imul, magnitude, alu_option, cpu_decode_r4x2i8_ifhbs, cpu_exec_imul, cpu_exec_mul,
}
use estros.Sim.Invariant.{IsValid}
use estros.Sim.Invariant.Results.{IsInst, decode_lt}

-- A product with one factor negated, with both negated.
one_negated : (a b n : ℕ) → n + a ≡ 2 ^ 32 → n * b ≤ 2 ^ 31 → u32 (2 ^ 32 - n * b) ≡ u32 (a * b)
one_negated a b n h p = omega (arith, ap (λ (t : ℕ). t * b) h)

both_negated : (a b n m : ℕ) → n + a ≡ 2 ^ 32 → m + b ≡ 2 ^ 32 → u32 (n * m) ≡ u32 (a * b)
both_negated a b n m h k = omega (arith, ap (λ (t : ℕ). t * b) h, ap (λ (t : ℕ). t * n) k)

-- imul returns the low 32 bits of the product of the two patterns, for every pair of operands whose
-- signed product an `int` holds; for the others C leaves the result undefined.
pub checked_imul-eq-mul :
    (a b x : ℕ) → a < 2 ^ 32 → b < 2 ^ 32 → checked_imul a b ≡ some x → x ≡ u32 (a * b)
unfolding checked_imul xor
checked_imul-eq-mul a b x ha hb e = elim (Bool-cases (ltb a (2 ^ 31))) [
  | inl pa ↦ elim (Bool-cases (ltb b (2 ^ 31))) [
    | inl pb ↦ let h = rw (pa, pb) at e in ground arith
    | inr nb ↦
        let h = rw (pa, nb) at e in
        ground
          (arith, one_negated b a (2 ^ 32 - b) (omega arith), mul_comm a (2 ^ 32 - b), mul_comm a b)
  ]
  | inr na ↦ elim (Bool-cases (ltb b (2 ^ 31))) [
    | inl pb ↦
        let h = rw (na, pb) at e in ground (arith, one_negated a b (2 ^ 32 - a) (omega arith))
    | inr nb ↦
        let h = rw (na, nb) at e in
        ground (arith, both_negated a b (2 ^ 32 - a) (2 ^ 32 - b) (omega arith) (omega arith))
  ]
]

-- The product of the two numbers that the patterns stand for is one that an `int` holds.
abbrev pub fits_int : (a b : ℕ) → Bool
fits_int a b =
    if xor (is_negative a) (is_negative b)
    then leb (magnitude a * magnitude b) (2 ^ 31)
    else ltb (magnitude a * magnitude b) (2 ^ 31)

checked_imul-eq-some :
    (a b : ℕ)
    → a < 2 ^ 32
    → b < 2 ^ 32
    → fits_int a b ≡ true
    → checked_imul a b ≡ some (u32 (a * b))
unfolding checked_imul
checked_imul-eq-some a b ha hb fits = elim (Bool-cases (xor (is_negative a) (is_negative b))) [
  | inl differ ↦
      let h = rw differ at fits in
      let value : checked_imul a b ≡ some (u32 (2 ^ 32 - magnitude a * magnitude b)) =
        rw (differ, h) refl in
      value ∙ ap some (checked_imul-eq-mul a b _ ha hb value)
  | inr same ↦
      let h = rw same at fits in
      let value : checked_imul a b ≡ some (magnitude a * magnitude b) = rw (same, h) refl in
      value ∙ ap some (checked_imul-eq-mul a b _ ha hb value)
]

-- imul does what mul does, its flags included, on every valid state and bytes for which the product
-- of the signed operands fits an `int`, so that C defines it.
pub imul-eq-mul :
    {F : Type 0} (sim : Sim F) (id : Inst)
    → IsValid sim
    → IsInst id
    → fits_int ((cpu_decode_r4x2i8_ifhbs sim id).a) ((cpu_decode_r4x2i8_ifhbs sim id).b) ≡ true
    → cpu_exec_imul sim id ≡ cpu_exec_mul sim id
unfolding cpu_exec_imul cpu_exec_mul alu_option
imul-eq-mul sim id v i fits =
    let (a, b, addr) = decode_lt v i in
    ap (alu_option sim ((cpu_decode_r4x2i8_ifhbs sim id).dp)) (checked_imul-eq-some _ _ a b fits)
