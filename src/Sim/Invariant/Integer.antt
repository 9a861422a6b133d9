-- ===== src/Sim/Invariant/Integer.antt =====
-- Proofs on the invariant: the integer instructions.
use estros.Common.{ℕ, ◌<◌, ◌≤◌, ◌^◌, arith}
use estros.Common.Bits.{bit_or-lt, bit_xor-lt}
use estros.Sim.State.{Sim, Inst, set_r, add_pc}
use estros.Sim.Word.{cpu_i_popcount, cpu_i_add32}
use estros.Sim.Word.Swap.{bswap-lt}
use estros.Sim.Word.Count.{popcount-le}
use estros.Sim.Integer.{
  cpu_exec_add, cpu_exec_sub, cpu_exec_mul, cpu_exec_div, cpu_exec_rem, cpu_exec_imul, cpu_exec_and,
  cpu_exec_xor, cpu_exec_or, cpu_exec_shl, cpu_exec_shr, cpu_exec_pcnt, cpu_exec_clz, cpu_exec_clo,
  cpu_exec_bswap, cpu_exec_ipcnt, cpu_exec_stb, cpu_exec_stw, cpu_exec_stl, cpu_exec_stq,
  cpu_exec_ldb, cpu_exec_ldw, cpu_exec_ldl, cpu_exec_ldq, cpu_exec_lea, cpu_exec_cmp,
  cpu_exec_cmpkp,
}
use estros.Sim.Invariant.{IsValid, Keeps}
use estros.Sim.Invariant.Fields.{
  put_bit-lt, add_pc-IsValid, set_r-IsValid, set_flags-IsValid, update_flags-IsValid,
}
use estros.Sim.Invariant.Memory.{
  ReadsBelow, cpu_read8-ReadsBelow, cpu_read16-ReadsBelow, cpu_read32-ReadsBelow,
  cpu_write8-IsValid, cpu_write16-IsValid, cpu_write32-IsValid,
}
use estros.Sim.Invariant.Results.{
  IsInst, alu_result-Keeps, alu_option-Keeps, decode_lt, bit_and-lt, clz-lt, clo-lt,
  checked_div-Fits, checked_rem-Fits, checked_imul-Fits, checked_shl-Fits, checked_shr-Fits,
}

popcount-lt : (x : ℕ) → cpu_i_popcount x < 2 ^ 32
popcount-lt x = omega (arith, popcount-le x)

module _ {F : Type 0} where
  -- The store of a loaded value.
  load-IsValid :
      {bound : ℕ} {result : ℕ × Sim F}
      → ReadsBelow bound result
      → bound ≤ 2 ^ 32
      → (dp : ℕ) → IsValid (add_pc (set_r (result.1) dp (result.0)) 4)
  load-IsValid (fits, after) h dp = add_pc-IsValid (set_r-IsValid after dp (omega arith)) 4

  add32-IsValid : {sim : Sim F} → IsValid sim → (a b : ℕ) → IsValid ((cpu_i_add32 sim a b).1)
  unfolding cpu_i_add32
  add32-IsValid v a b = set_flags-IsValid v (put_bit-lt _ 2 _ (v.cpu.flags) (omega arith))

module _ {F : Type 0} {sim : Sim F} (v : IsValid sim) {id : Inst} (i : IsInst id) where
  pub add-Keeps : Keeps (cpu_exec_add sim id)
  unfolding cpu_exec_add
  add-Keeps = alu_result-Keeps v _ (omega arith)

  pub sub-Keeps : Keeps (cpu_exec_sub sim id)
  unfolding cpu_exec_sub
  sub-Keeps = alu_result-Keeps v _ (omega arith)

  pub mul-Keeps : Keeps (cpu_exec_mul sim id)
  unfolding cpu_exec_mul
  mul-Keeps = alu_result-Keeps v _ (omega arith)

  pub div-Keeps : Keeps (cpu_exec_div sim id)
  unfolding cpu_exec_div
  div-Keeps = let (a, b, addr) = decode_lt v i in alu_option-Keeps v _ _ (checked_div-Fits _ _ a)

  pub rem-Keeps : Keeps (cpu_exec_rem sim id)
  unfolding cpu_exec_rem
  rem-Keeps = let (a, b, addr) = decode_lt v i in alu_option-Keeps v _ _ (checked_rem-Fits _ _ a)

  pub imul-Keeps : Keeps (cpu_exec_imul sim id)
  unfolding cpu_exec_imul
  imul-Keeps = alu_option-Keeps v _ _ (checked_imul-Fits _ _)

  pub and-Keeps : Keeps (cpu_exec_and sim id)
  unfolding cpu_exec_and
  and-Keeps = let (a, b, addr) = decode_lt v i in alu_result-Keeps v _ (bit_and-lt _ _ a)

  pub xor-Keeps : Keeps (cpu_exec_xor sim id)
  unfolding cpu_exec_xor
  xor-Keeps = let (a, b, addr) = decode_lt v i in alu_result-Keeps v _ (bit_xor-lt 32 _ _ a b)

  pub or-Keeps : Keeps (cpu_exec_or sim id)
  unfolding cpu_exec_or
  or-Keeps = let (a, b, addr) = decode_lt v i in alu_result-Keeps v _ (bit_or-lt 32 _ _ a b)

  pub shl-Keeps : Keeps (cpu_exec_shl sim id)
  unfolding cpu_exec_shl
  shl-Keeps = alu_option-Keeps v _ _ (checked_shl-Fits _ _)

  pub shr-Keeps : Keeps (cpu_exec_shr sim id)
  unfolding cpu_exec_shr
  shr-Keeps = let (a, b, addr) = decode_lt v i in alu_option-Keeps v _ _ (checked_shr-Fits _ _ a)

  pub pcnt-Keeps : Keeps (cpu_exec_pcnt sim id)
  unfolding cpu_exec_pcnt
  pcnt-Keeps = alu_result-Keeps v _ (popcount-lt _)

  pub clz-Keeps : Keeps (cpu_exec_clz sim id)
  unfolding cpu_exec_clz
  clz-Keeps = alu_result-Keeps v _ (clz-lt _)

  pub clo-Keeps : Keeps (cpu_exec_clo sim id)
  unfolding cpu_exec_clo
  clo-Keeps = alu_result-Keeps v _ (clo-lt _)

  pub bswap-Keeps : Keeps (cpu_exec_bswap sim id)
  unfolding cpu_exec_bswap
  bswap-Keeps = alu_result-Keeps v _ (bswap-lt _)

  pub ipcnt-Keeps : Keeps (cpu_exec_ipcnt sim id)
  unfolding cpu_exec_ipcnt
  ipcnt-Keeps = alu_result-Keeps v _ (omega arith)

  pub stb-Keeps : Keeps (cpu_exec_stb sim id)
  unfolding cpu_exec_stb
  stb-Keeps = add_pc-IsValid (cpu_write8-IsValid v _ _) 4

  pub stw-Keeps : Keeps (cpu_exec_stw sim id)
  unfolding cpu_exec_stw
  stw-Keeps = add_pc-IsValid (cpu_write16-IsValid v _ _) 4

  pub stl-Keeps : Keeps (cpu_exec_stl sim id)
  unfolding cpu_exec_stl
  stl-Keeps = add_pc-IsValid (cpu_write32-IsValid v _ _) 4

  pub stq-Keeps : Keeps (cpu_exec_stq sim id)
  unfolding cpu_exec_stq
  stq-Keeps = add_pc-IsValid (cpu_write32-IsValid v _ _) 4

  pub ldb-Keeps : Keeps (cpu_exec_ldb sim id)
  unfolding cpu_exec_ldb
  ldb-Keeps = load-IsValid (cpu_read8-ReadsBelow v _) (omega arith) _

  pub ldw-Keeps : Keeps (cpu_exec_ldw sim id)
  unfolding cpu_exec_ldw
  ldw-Keeps = load-IsValid (cpu_read16-ReadsBelow v _) (omega arith) _

  pub ldl-Keeps : Keeps (cpu_exec_ldl sim id)
  unfolding cpu_exec_ldl
  ldl-Keeps = load-IsValid (cpu_read32-ReadsBelow v _) (omega arith) _

  pub ldq-Keeps : Keeps (cpu_exec_ldq sim id)
  unfolding cpu_exec_ldq
  ldq-Keeps = load-IsValid (cpu_read32-ReadsBelow v _) (omega arith) _

  pub lea-Keeps : Keeps (cpu_exec_lea sim id)
  unfolding cpu_exec_lea
  lea-Keeps = add_pc-IsValid (set_r-IsValid v _ ((decode_lt v i).2)) 4

  pub cmp-Keeps : Keeps (cpu_exec_cmp sim id)
  unfolding cpu_exec_cmp
  cmp-Keeps =
      let compared = update_flags-IsValid (add32-IsValid v _ _) _ in
      add_pc-IsValid (set_r-IsValid compared _ (compared.cpu.flags)) 4

  pub cmpkp-Keeps : Keeps (cpu_exec_cmpkp sim id)
  unfolding cpu_exec_cmpkp
  cmpkp-Keeps =
      let compared = update_flags-IsValid (add32-IsValid v _ _) _ in
      add_pc-IsValid
        (set_flags-IsValid (set_r-IsValid compared _ (compared.cpu.flags)) (v.cpu.flags)) 4
