-- ===== src/Cc/Asm/Registers.antt =====
-- cc/asm.c: proofs on the allocation of registers.
pub mod Held
pub mod Full
use mathlib.Core.Bool.{false≢true}
use mathlib.Core.Option.{some-injective, none-ne-some}
use native.Mathlib.Decide.{dec_lt}
use estros.Common.{
  ℕ, zero, suc, ◌+◌, ◌-◌, ◌≤◌, ◌<◌, ◌≡◌, ◌≢◌, ◌⊎◌, inl, inr, Bool, true, false, Option, none, some,
  List, [], ◌∷◌, ◌++◌, ltb, ◌==◌, ==_iff, if◌then◌else◌, Bool-cases, Option-cases, length,
  length-append, refl, arith, sym, ap, ◌∙◌,
}
use estros.Cc.Attempt.{ok, aborted, undefined}
use estros.Cc.Ssa.{SsaArgument, zero_argument}
use estros.Cc.Asm.{
  RegisterCategory, reg_at, set_reg, regname, cc_asm_is_fixed_reg, reg_with, or_else, or_abort,
  is_integer, is_float, free_reg, cc_asm_find_free, cc_asm_regalloc, cc_asm_regfree,
  cc_asm_find_used,
}

reg_at-set :
    (regs : List SsaArgument) (r : ℕ) (v : SsaArgument)
    → r < length regs
    → reg_at (set_reg regs r v) r ≡ v
reg_at-set [] r v h = absurd (omega arith)
reg_at-set (a ∷ regs) zero v h = refl
reg_at-set (a ∷ regs) (suc r) v h = reg_at-set regs r v (omega arith)

reg_at-set_ne :
    (regs : List SsaArgument) (r i : ℕ) (v : SsaArgument)
    → i ≢ r
    → reg_at (set_reg regs r v) i ≡ reg_at regs i
reg_at-set_ne [] r i v h = refl
reg_at-set_ne (a ∷ regs) zero zero v h = absurd (h refl)
reg_at-set_ne (a ∷ regs) zero (suc i) v h = refl
reg_at-set_ne (a ∷ regs) (suc r) zero v h = refl
reg_at-set_ne (a ∷ regs) (suc r) (suc i) v h = reg_at-set_ne regs r i v (omega arith)

length-set_reg :
    (regs : List SsaArgument) (r : ℕ) (v : SsaArgument) → length (set_reg regs r v) ≡ length regs
length-set_reg [] r v = refl
length-set_reg (a ∷ regs) zero v = refl
length-set_reg (a ∷ regs) (suc r) v = ap suc (length-set_reg regs r v)

reg_at-append :
    (regs : List SsaArgument) (i : ℕ) → reg_at (regs ++ zero_argument ∷ []) i ≡ reg_at regs i
reg_at-append [] zero = refl
reg_at-append [] (suc i) = refl
reg_at-append (a ∷ regs) zero = refl
reg_at-append (a ∷ regs) (suc i) = reg_at-append regs i

-- A register that the search finds is in its range and has the id.
reg_with_found :
    (left i : ℕ) (regs : List SsaArgument) (id r : ℕ)
    → reg_with left i regs id ≡ some r
    → (i ≤ r) × (r < i + left) × ((reg_at regs r).id ≡ id)
unfolding reg_with
reg_with_found zero i regs id r h = absurd (none-ne-some _ h)
reg_with_found (suc left) i regs id r h = elim (Bool-cases ((reg_at regs i).id == id)) [
  | inl hit ↦
      let same : i ≡ r = some-injective _ _ (rw hit at h) in
      let has : (reg_at regs i).id ≡ id = (==_iff _ id).0 hit in
      (omega arith, omega arith, rw (← same) has)
  | inr miss ↦
      let (low, high, has) = reg_with_found left (i + 1) regs id r (rw miss at h) in
      (omega arith, omega arith, has)
]

-- The first register with the id is found.
reg_with_first :
    (left i : ℕ) (regs : List SsaArgument) (id r : ℕ)
    → i ≤ r
    → r < i + left
    → (reg_at regs r).id ≡ id
    → ((j : ℕ) → j < r → (reg_at regs j).id ≢ id)
    → reg_with left i regs id ≡ some r
unfolding reg_with
reg_with_first zero i regs id r low high has before = absurd (omega arith)
reg_with_first (suc left) i regs id r low high has before =
    elim (Bool-cases ((reg_at regs i).id == id)) [
      | inl hit ↦ elim (dec_lt i r) [
        | yes lt ↦ absurd (before i lt ((==_iff _ id).0 hit))
        | no ge ↦ rw hit (ap some (omega arith))
      ]
      | inr miss ↦ elim (dec_lt i r) [
        | yes lt ↦
            rw miss (reg_with_first left (i + 1) regs id r (omega arith) (omega arith) has before)
        | no ge ↦
            let same : r ≡ i = omega arith in
            absurd (
              false≢true
                (sym miss ∙ (==_iff _ id).1 (ap (λ j. (reg_at regs j).id) (sym same) ∙ has)))
      ]
    ]

reg_at_past : (regs : List SsaArgument) (i : ℕ) → length regs ≤ i → (reg_at regs i).id ≡ 0
reg_at_past [] i h = refl
reg_at_past (a ∷ regs) zero h = absurd (omega arith)
reg_at_past (a ∷ regs) (suc i) h = reg_at_past regs i (omega arith)

-- Where a register is taken: it is free, and none of the fixed ones.
abbrev IsFreeReg : List SsaArgument → ℕ → Type 0
IsFreeReg regs r = ((reg_at regs r).id ≡ 0) × ((r < 23) ⊎ (32 ≤ r))

or_else_cases : (a b : Option ℕ) (r : ℕ) → or_else a b ≡ some r → (a ≡ some r) ⊎ (b ≡ some r)
or_else_cases none b r h = inr h
or_else_cases (some x) b r h = inl h

if_some : (b : Bool) (o : Option ℕ) (r : ℕ) → (if b then o else none) ≡ some r → o ≡ some r
if_some true o r h = h
if_some false o r h = absurd (none-ne-some _ h)

free_reg-IsFreeReg :
    (regs : List SsaArgument) (cat : RegisterCategory) (r : ℕ)
    → 32 ≤ length regs
    → free_reg regs cat ≡ some r
    → (r < length regs) × IsFreeReg regs r
unfolding free_reg
free_reg-IsFreeReg regs cat r long h = elim (or_else_cases _ _ r h) [
  | inl int ↦
      let (low, high, free) = reg_with_found 7 16 regs 0 r (if_some (is_integer cat) _ r int) in
      (omega arith, (free, inl (omega arith)))
  | inr other ↦ elim (or_else_cases _ _ r other) [
    | inl flt ↦
        let (low, high, free) = reg_with_found 15 0 regs 0 r (if_some (is_float cat) _ r flt) in
        (omega arith, (free, inl (omega arith)))
    | inr spill ↦
        let (low, high, free) = reg_with_found (length regs - 32) 32 regs 0 r spill in
        (omega arith, (free, inr (omega arith)))
  ]
]

-- What a search for a free register gives: it is in the list, and free, and the rest is as before.
record IsFound (regs : List SsaArgument) (found : List SsaArgument × ℕ) : Type 0 where
  pub inside : found.1 < length found.0
  pub is_free : IsFreeReg regs found.1
  pub same : (i : ℕ) → reg_at found.0 i ≡ reg_at regs i
  pub longer : length regs ≤ length found.0

find_free-IsFound :
    (regs : List SsaArgument) (cat : RegisterCategory)
    → 32 ≤ length regs
    → IsFound regs (cc_asm_find_free regs cat)
unfolding cc_asm_find_free
find_free-IsFound regs cat long = elim (Option-cases (free_reg regs cat)) [
  | inl full ↦ rw full (record {
    inside = omega (arith, length-append regs (zero_argument ∷ []));
    is_free = (reg_at_past regs (length regs) (omega arith), inr long);
    same = reg_at-append regs;
    longer = omega (arith, length-append regs (zero_argument ∷ []));
  })
  | inr (r, found) ↦
      let (inside, free) = free_reg-IsFreeReg regs cat r long found in
      rw found (record { inside = inside; is_free = free; same = λ i. refl; longer = omega arith })
]

-- For a list of at least the 32 named registers, a register is given to an argument only where it is
-- free, and never one of A0 to A3, RA, BP, SP and TP; afterwards it holds the argument, and every other register holds what it held before.
pub cc_asm_regalloc_takes_free :
    (regs : List SsaArgument) (cat : RegisterCategory) (arg : SsaArgument)
    → 32 ≤ length regs
    → let r = (cc_asm_regalloc regs cat arg).1 in
      let after = (cc_asm_regalloc regs cat arg).0 in
      ((reg_at regs r).id ≡ 0)
      × ((r < 24) ⊎ (32 ≤ r))
      × (reg_at after r ≡ arg)
      × ((i : ℕ) → i ≢ r → reg_at after i ≡ reg_at regs i)
unfolding cc_asm_regalloc
cc_asm_regalloc_takes_free regs cat arg long =
    let found = cc_asm_find_free regs cat in
    let is = find_free-IsFound regs cat long in
    (
      is.is_free.0,
      elim is.is_free.1 [ inl low ↦ inl (omega arith) | inr spill ↦ inr spill ],
      reg_at-set found.0 found.1 arg is.inside,
      λ i ne. reg_at-set_ne found.0 found.1 i arg ne ∙ is.same i,
    )
