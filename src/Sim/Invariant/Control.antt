-- ===== src/Sim/Invariant/Control.antt =====
-- Proofs on the invariant: jumps, calls, branches and conversions.
use estros.Common.{
  ℕ, ◌^◌, ◌<◌, ◌≡◌, Bool, true, false, Option, none, some, arith, refl, ltb, Bool-cases, inl, inr,
  if◌then◌else◌,
}
use estros.Common.Bits.{bit_or-lt}
use estros.Sim.State.{Sim, Inst}
use estros.Sim.Control.{
  cpu_exec_jmp, cpu_exec_jmprel, cpu_exec_call, cpu_exec_ret, cpu_exec_common_b,
}
use estros.Sim.FloatOps.{FloatOps, FloatLaws}
use estros.Sim.Float.Convert.{store_converted, cpu_exec_fcvti, cpu_exec_fcvtri}
use estros.Sim.Invariant.{IsValid, Keeps}
use estros.Sim.Invariant.Fields.{
  add_pc-IsValid, set_pc-IsValid, set_r-IsValid, count_jump-IsValid, count_taken-IsValid,
  count_miss-IsValid,
}
use estros.Sim.Invariant.Results.{IsInst}

module _ {F : Type 0} {sim : Sim F} (v : IsValid sim) where
  pub jmp-Keeps : {id : Inst} → IsInst id → Keeps (cpu_exec_jmp sim id)
  unfolding cpu_exec_jmp
  jmp-Keeps i = count_jump-IsValid (set_pc-IsValid v (bit_or-lt 32 _ _ (omega arith) (omega arith)))

  pub jmprel-Keeps : (id : Inst) → Keeps (cpu_exec_jmprel sim id)
  unfolding cpu_exec_jmprel
  jmprel-Keeps id = count_jump-IsValid (add_pc-IsValid v _)

  pub call-Keeps : (id : Inst) → Keeps (cpu_exec_call sim id)
  unfolding cpu_exec_call
  call-Keeps id = elim (Bool-cases (ltb (id.b1) 16)) [
    | inl inside ↦
        rw inside
          (count_jump-IsValid (set_r-IsValid (set_pc-IsValid v (omega arith)) _ (omega arith)))
    | inr outside ↦ rw outside tt
  ]

  pub ret-Keeps : (id : Inst) → Keeps (cpu_exec_ret sim id)
  unfolding cpu_exec_ret
  ret-Keeps id = count_jump-IsValid (set_pc-IsValid v (v.cpu.r _))

  either-IsValid :
      (test : Bool) {s t : Sim F} → IsValid s → IsValid t → IsValid (if test then s else t)
  either-IsValid true p q = p
  either-IsValid false p q = q

  pub branch-Keeps : (id : Inst) → Keeps (cpu_exec_common_b sim id)
  unfolding cpu_exec_common_b
  branch-Keeps id =
      either-IsValid _ (count_taken-IsValid (add_pc-IsValid v _))
        (count_miss-IsValid (add_pc-IsValid v 4))

  store_converted-Keeps :
      (rd : ℕ) (o : Option ℕ)
      → ((n : ℕ) → o ≡ some n → n < 2 ^ 32)
      → Keeps (store_converted sim rd o)
  unfolding store_converted
  store_converted-Keeps rd none h = tt
  store_converted-Keeps rd (some n) h = add_pc-IsValid (set_r-IsValid v rd (h n refl)) 4

  module _ {D C K : Type 0} {o : FloatOps F D C K} (laws : FloatLaws o) where
    pub fcvti-Keeps : (id : Inst) → Keeps (cpu_exec_fcvti o sim id)
    unfolding cpu_exec_fcvti
    fcvti-Keeps id = add_pc-IsValid (set_r-IsValid v _ (laws.to_bits_lt _)) 4

    pub fcvtri-Keeps : (id : Inst) → Keeps (cpu_exec_fcvtri o sim id)
    unfolding cpu_exec_fcvtri
    fcvtri-Keeps id = store_converted-Keeps _ _ (laws.to_u32_lt _)
