-- ===== src/Cc/Asm/Registers/Held.antt =====
-- cc/asm.c: proofs on the register of an argument.
use mathlib.Core.Bool.{false≢true}
use native.Mathlib.Decide.{dec_lt}
use estros.Common.{
  all_from, all_from_each, ◌||◌, ℕ, ◌+◌, ◌≤◌, ◌<◌, ◌≡◌, ◌≢◌, inl, inr, true, List, ◌==◌, ==_iff,
  Bool-cases, length, refl, arith, sym, ap, ◌∙◌,
}
use estros.Cc.Attempt.{ok}
use estros.Cc.Ssa.{SsaArgument}
use estros.Cc.Asm.{RegisterCategory, reg_at, or_abort, cc_asm_regalloc, cc_asm_find_used}
use estros.Cc.Asm.Lower.{initial_regs}
use estros.Cc.Asm.Registers.{reg_with_first, reg_at_past, cc_asm_regalloc_takes_free}

-- No id is in two registers.
abbrev pub IsInjective : List SsaArgument → Type 0
IsInjective regs =
    (i j : ℕ) → (reg_at regs i).id ≢ 0 → (reg_at regs i).id ≡ (reg_at regs j).id → i ≡ j

abbrev pub IsHeld : List SsaArgument → ℕ → Type 0
IsHeld regs id = (r : ℕ) × ((reg_at regs r).id ≡ id)

-- The register that holds an id is the one that is found for it.
find_used_held :
    (regs : List SsaArgument) (r : ℕ) (arg : SsaArgument)
    → IsInjective regs
    → arg.id ≢ 0
    → (reg_at regs r).id ≡ arg.id
    → cc_asm_find_used regs arg ≡ ok r
unfolding cc_asm_find_used
find_used_held regs r arg once ne has =
    let inside : r < length regs = elim (dec_lt r (length regs)) [
      | yes lt ↦ lt
      | no ge ↦ absurd (ne (sym has ∙ reg_at_past regs r (omega arith)))
    ] in
    ap or_abort (
      reg_with_first (length regs) 0 regs arg.id r (omega arith) (omega arith) has (λ j lt is.
        let eq : r ≡ j = once r j (λ z. ne (sym has ∙ z)) (has ∙ sym is) in absurd (omega arith)))

-- One register more for an id that none has, in a place that was free.
IsInjective-set :
    (regs after : List SsaArgument) (r : ℕ) (id : ℕ)
    → IsInjective regs
    → ¬ IsHeld regs id
    → (reg_at after r).id ≡ id
    → ((i : ℕ) → i ≢ r → reg_at after i ≡ reg_at regs i)
    → IsInjective after
IsInjective-set regs after r id once new at others i j ne same = elim (Bool-cases (i == r)) [
  | inl ir ↦ elim (Bool-cases (j == r)) [
    | inl jr ↦ (==_iff i r).0 ir ∙ sym ((==_iff j r).0 jr)
    | inr jn ↦
        let i_is : i ≡ r = (==_iff i r).0 ir in
        let j_ne : j ≢ r = λ eq. false≢true (sym jn ∙ (==_iff j r).1 eq) in
        absurd (
          new (
            j,
            ap (λ a. a.id) (sym (others j j_ne))
                ∙ sym same
                ∙ ap (λ k. (reg_at after k).id) i_is
                ∙ at,
          ))
  ]
  | inr in_ ↦
      let i_ne : i ≢ r = λ eq. false≢true (sym in_ ∙ (==_iff i r).1 eq) in
      let i_same = ap (λ a. a.id) (others i i_ne) in
      elim (Bool-cases (j == r)) [
        | inl jr ↦
            let j_is : j ≡ r = (==_iff j r).0 jr in
            absurd (new (i, sym i_same ∙ same ∙ ap (λ k. (reg_at after k).id) j_is ∙ at))
        | inr jn ↦
            let j_ne : j ≢ r = λ eq. false≢true (sym jn ∙ (==_iff j r).1 eq) in
            once i j (λ z. ne (i_same ∙ z)) (sym i_same ∙ same ∙ ap (λ a. a.id) (others j j_ne))
      ]
]

-- Where the list has at least the 32 named registers and no id is in two of them, an allocation for an
-- id that is not 0 and that none holds keeps this; the new argument is then found in the register that
-- was given to it, and each argument that is held is found where it was.
pub cc_asm_regalloc-IsInjective :
    (regs : List SsaArgument) (cat : RegisterCategory) (arg : SsaArgument)
    → 32 ≤ length regs
    → IsInjective regs
    → arg.id ≢ 0
    → ¬ IsHeld regs arg.id
    → let after = (cc_asm_regalloc regs cat arg).0 in
      IsInjective after
      × (cc_asm_find_used after arg ≡ ok (cc_asm_regalloc regs cat arg).1)
      × ((other : SsaArgument)
          → other.id ≢ 0
          → IsHeld regs other.id
          → cc_asm_find_used after other ≡ cc_asm_find_used regs other)
cc_asm_regalloc-IsInjective regs cat arg long once ne new =
    let (free, range, at, others) = cc_asm_regalloc_takes_free regs cat arg long in
    let r = (cc_asm_regalloc regs cat arg).1 in
    let after = (cc_asm_regalloc regs cat arg).0 in
    let once' = IsInjective-set regs after r arg.id once new (ap (λ a. a.id) at) others in
    (
      once',
      find_used_held after r arg once' ne (ap (λ a. a.id) at),
      λ other ne_other (q, has).
          let q_ne : q ≢ r = λ eq. ne_other (sym has ∙ ap (λ k. (reg_at regs k).id) eq ∙ free) in
          find_used_held after q other once' ne_other (ap (λ a. a.id) (others q q_ne) ∙ has)
          ∙ sym (find_used_held regs q other once ne_other has),
    )

-- What the registers hold at the beginning of a function: ids 2 to 5 in A0 to A3.
initial_ids :
    (i : ℕ)
    → i < 32
    → ((reg_at initial_regs i).id == 0 || (reg_at initial_regs i).id + 22 == i) ≡ true
unfolding all_from
initial_ids i small =
    all_from_each 32 0
      (λ i. (reg_at initial_regs i).id == 0 || (reg_at initial_regs i).id + 22 == i) i (omega arith)
      small refl

initial_place :
    (k : ℕ) → (reg_at initial_regs k).id ≢ 0 → (k < 32) × (k ≡ (reg_at initial_regs k).id + 22)
initial_place k some_id = elim (dec_lt k 32) [
  | yes lt ↦ (lt, ground (arith, initial_ids k lt))
  | no ge ↦ absurd (some_id (reg_at_past initial_regs k (omega arith)))
]

-- The registers at the beginning of a function hold different arguments.
pub initial_regs-IsInjective : IsInjective initial_regs
initial_regs-IsInjective i j ne same =
    (initial_place i ne).1 ∙ ap (λ id. id + 22) same ∙ sym (initial_place j (λ z. ne (same ∙ z))).1

-- None of them holds a temporary.
pub initial_regs_temporary_free : (id : ℕ) → 10 ≤ id → ¬ IsHeld initial_regs id
initial_regs_temporary_free id temporary (r, has) =
    let (inside, is) = initial_place r (λ z. absurd (omega (arith, has, z))) in omega arith
