-- ===== src/Cc/Asm/Registers/Full.antt =====
-- cc/asm.c: proofs on what becomes of the registers.
use mathlib.Core.Bool.{false≢true}
use estros.Common.{
  ℕ, zero, suc, ◌+◌, ◌-◌, ◌≤◌, ◌<◌, ◌≡◌, ◌≢◌, ◌⊎◌, inl, inr, true, false, Option, none, some, List,
  ltb, ◌==◌, ==_iff, Bool-cases, Option-cases, length, refl, arith, sym, ◌∙◌,
}
use estros.Cc.Attempt.{ok, aborted, undefined}
use estros.Cc.Ssa.{SsaArgument}
use estros.Cc.Asm.{
  RegisterCategory, reg_at, regname, cc_asm_is_fixed_reg, reg_with, or_else, free_reg,
  cc_asm_find_free, cc_asm_regalloc, cc_asm_regfree,
}
use estros.Cc.Asm.Registers.{reg_with_found}

is_fixed_reg_all : (r : ℕ) → cc_asm_is_fixed_reg r ≡ true
unfolding cc_asm_is_fixed_reg
is_fixed_reg_all r = ground arith

-- No register is ever freed: cc_asm_regfree leaves all of them as they are, or its assertion fails,
-- whatever the register is.
pub cc_asm_regfree_keeps :
    (regs : List SsaArgument) (r : ℕ)
    → (((reg_at regs r).id ≡ 0) × (cc_asm_regfree regs r ≡ aborted))
      ⊎ (((reg_at regs r).id ≢ 0) × (cc_asm_regfree regs r ≡ ok regs))
unfolding cc_asm_regfree
cc_asm_regfree_keeps regs r = elim (Bool-cases ((reg_at regs r).id == 0)) [
  | inl none_held ↦ inl ((==_iff _ 0).0 none_held, rw none_held refl)
  | inr held ↦
      inr (λ eq. false≢true (sym held ∙ (==_iff _ 0).1 eq), rw (held, is_fixed_reg_all r) refl)
]

reg_with_none :
    (left i : ℕ) (regs : List SsaArgument) (id : ℕ)
    → ((j : ℕ) → i ≤ j → j < i + left → (reg_at regs j).id ≢ id)
    → reg_with left i regs id ≡ none
unfolding reg_with
reg_with_none zero i regs id h = refl
reg_with_none (suc left) i regs id h =
    let miss : ((reg_at regs i).id == id) ≡ false =
      ground (arith, h i (omega arith) (omega arith)) in
    rw miss (reg_with_none left (i + 1) regs id (λ j low high. h j (omega arith) (omega arith)))

or_none : (o : Option ℕ) → or_else o none ≡ o
or_none none = refl
or_none (some r) = refl

find_free_spills :
    (regs : List SsaArgument)
    → 32 ≤ length regs
    → ((j : ℕ) → 16 ≤ j → j < 23 → (reg_at regs j).id ≢ 0)
    → 32 ≤ (cc_asm_find_free regs RegisterCategory.integer).1
unfolding cc_asm_find_free free_reg
find_free_spills regs long full =
    let first : reg_with 7 16 regs 0 ≡ none =
      reg_with_none 7 16 regs 0 (λ j low high. full j low (omega arith)) in
    let spills = reg_with (length regs - 32) 32 regs 0 in
    elim (Option-cases spills) [
      | inl all_taken ↦ rw (first, all_taken) long
      | inr (r, found) ↦ rw (first, found) ((reg_with_found (length regs - 32) 32 regs 0 r found).0)
    ]

-- The allocation of an integer register where T0 to T6 are taken gives a register that has no name.
pub cc_asm_regalloc-regname :
    (regs : List SsaArgument) (arg : SsaArgument)
    → 32 ≤ length regs
    → ((j : ℕ) → 16 ≤ j → j < 23 → (reg_at regs j).id ≢ 0)
    → regname (cc_asm_regalloc regs RegisterCategory.integer arg).1 ≡ undefined
unfolding cc_asm_regalloc regname
cc_asm_regalloc-regname regs arg long full =
    let r = (cc_asm_find_free regs RegisterCategory.integer).1 in
    let spill = find_free_spills regs long full in
    let past : ltb r 32 ≡ false = ground (arith, spill) in rw past refl
