-- ===== src/Sim/Float/Convert.antt =====
-- isa/sim.c, lines 536 to 570: the conversions between integer and float registers.
use estros.Common.{ℕ, ◌+◌, Option, none, some, u32, low4, high4}
use estros.Sim.State.{Sim, Inst, Outcome, cpue_continue, undefined, set_r, set_f, add_pc}
use estros.Sim.FloatOps.{FloatOps}

-- `struct cpu_decode_r4f4x3`.
pub record DecodeR4f4x3 : Type 0 where
  pub rd : ℕ
  pub ra : ℕ
  pub rb : ℕ
  pub rc : ℕ

unfoldable pub cpu_decode_r4f4x3 : Inst → DecodeR4f4x3
cpu_decode_r4f4x3 id = record {
  rd = low4 (id.b1);
  ra = high4 (id.b1);
  rb = low4 (id.b2);
  rc = high4 (id.b2);
}

module _ {F : Type 0} where
  -- `r[ra] + r[rb] + r[rc]`.
  unfoldable pub register_sum : Sim F → DecodeR4f4x3 → ℕ
  register_sum sim ds = u32 (u32 (sim.cpu.r (ds.ra) + sim.cpu.r (ds.rb)) + sim.cpu.r (ds.rc))

  -- The store of a converted value, which is undefined where the conversion is.
  unfoldable pub store_converted : Sim F → ℕ → Option ℕ → Outcome F
  store_converted sim rd none = undefined
  store_converted sim rd (some value) = cpue_continue (add_pc (set_r sim rd value) 4)

module _ {F D C K : Type 0} (o : FloatOps F D C K) where
  unfoldable pub float_sum : Sim F → DecodeR4f4x3 → F
  float_sum sim ds = o.fadd (o.fadd (sim.cpu.f (ds.ra)) (sim.cpu.f (ds.rb))) (sim.cpu.f (ds.rc))

  unfoldable pub cpu_exec_fcvti : Sim F → Inst → Outcome F
  unfolding float_sum
  cpu_exec_fcvti sim id =
      let ds = cpu_decode_r4f4x3 id in
      cpue_continue (add_pc (set_r sim (ds.rd) (o.to_bits (float_sum sim ds))) 4)

  unfoldable pub cpu_exec_icvtf : Sim F → Inst → Outcome F
  cpu_exec_icvtf sim id =
      let ds = cpu_decode_r4f4x3 id in
      cpue_continue (add_pc (set_f sim (ds.rd) (o.of_bits (register_sum sim ds))) 4)

  unfoldable pub cpu_exec_fcvtri : Sim F → Inst → Outcome F
  unfolding float_sum
  cpu_exec_fcvtri sim id =
      let ds = cpu_decode_r4f4x3 id in store_converted sim (ds.rd) (o.to_u32 (float_sum sim ds))

  unfoldable pub cpu_exec_icvtrf : Sim F → Inst → Outcome F
  cpu_exec_icvtrf sim id =
      let ds = cpu_decode_r4f4x3 id in
      cpue_continue (add_pc (set_f sim (ds.rd) (o.of_u32 (register_sum sim ds))) 4)
