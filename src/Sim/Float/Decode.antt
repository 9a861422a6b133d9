-- ===== src/Sim/Float/Decode.antt =====
-- isa/sim.c, lines 168 to 195: the decoding of four float registers, and what the float instructions
-- share. `o` is the arithmetic of C; `ds.dp` is a pointer into `f`, here the register's number.
use estros.Common.{ℕ, low4, high4, if◌then◌else◌}
use estros.Sim.State.{Sim, Inst, Outcome, cpue_continue, set_f, add_pc}
use estros.Sim.FloatOps.{FloatOps}

-- `struct cpu_decode_f4x4`.
pub record DecodeF4x4 (F : Type 0) : Type 0 where
  pub dp : ℕ
  pub v0 : F
  pub v1 : F
  pub v2 : F

module _ {F : Type 0} where
  unfoldable pub cpu_decode_f4x4 : Sim F → Inst → DecodeF4x4 F
  cpu_decode_f4x4 sim id = record {
    dp = low4 (id.b1);
    v0 = sim.cpu.f (high4 (id.b1));
    v1 = sim.cpu.f (low4 (id.b2));
    v2 = sim.cpu.f (high4 (id.b2));
  }

  -- `*ds.dp = value; pc += 4`.
  unfoldable pub float_result : Sim F → ℕ → F → Outcome F
  float_result sim dp value = cpue_continue (add_pc (set_f sim dp value) 4)

module _ {F D C K : Type 0} (o : FloatOps F D C K) where
  unfoldable pub cpu_i_maxf : F → F → F
  cpu_i_maxf a b = if o.fgt a b then a else b

  unfoldable pub cpu_i_minf : F → F → F
  cpu_i_minf a b = if o.flt a b then a else b

  unfoldable pub cpu_i_clampf : F → F → F → F
  unfolding cpu_i_maxf cpu_i_minf
  cpu_i_clampf a low upper = cpu_i_minf (cpu_i_maxf a low) upper

  -- `ds.v[0] + ds.v[1] + ds.v[2]`.
  unfoldable pub sum3 : DecodeF4x4 F → F
  sum3 ds = o.fadd (o.fadd (ds.v0) (ds.v1)) (ds.v2)

  -- `ds.v[0] + ds.v[1] * I`.
  unfoldable pub complex2 : DecodeF4x4 F → C
  complex2 ds = o.add_fc (ds.v0) (o.scale_i (ds.v1))
