-- ===== src/Sim/Float/Transform.antt =====
-- isa/sim.c, lines 274 to 465: functions of the sum of three float registers, and selections.
use estros.Sim.State.{Sim, Inst, Outcome}
use estros.Sim.FloatOps.{FloatOps}
use estros.Sim.Float.Decode.{
  cpu_decode_f4x4, float_result, sum3, cpu_i_maxf, cpu_i_minf, cpu_i_clampf,
}

module _ {F D C K : Type 0} (o : FloatOps F D C K) where
  unfoldable pub cpu_exec_fcos : Sim F → Inst → Outcome F
  cpu_exec_fcos sim id =
      let ds = cpu_decode_f4x4 sim id in float_result sim (ds.dp) (o.cosf (sum3 o ds))

  unfoldable pub cpu_exec_fsin : Sim F → Inst → Outcome F
  cpu_exec_fsin sim id =
      let ds = cpu_decode_f4x4 sim id in float_result sim (ds.dp) (o.sinf (sum3 o ds))

  unfoldable pub cpu_exec_ftan : Sim F → Inst → Outcome F
  cpu_exec_ftan sim id =
      let ds = cpu_decode_f4x4 sim id in float_result sim (ds.dp) (o.tanf (sum3 o ds))

  unfoldable pub cpu_exec_facos : Sim F → Inst → Outcome F
  cpu_exec_facos sim id =
      let ds = cpu_decode_f4x4 sim id in float_result sim (ds.dp) (o.acosf (sum3 o ds))

  unfoldable pub cpu_exec_fatan : Sim F → Inst → Outcome F
  cpu_exec_fatan sim id =
      let ds = cpu_decode_f4x4 sim id in float_result sim (ds.dp) (o.atanf (sum3 o ds))

  unfoldable pub cpu_exec_fasin : Sim F → Inst → Outcome F
  cpu_exec_fasin sim id =
      let ds = cpu_decode_f4x4 sim id in float_result sim (ds.dp) (o.asinf (sum3 o ds))

  unfoldable pub cpu_exec_fcbrt : Sim F → Inst → Outcome F
  cpu_exec_fcbrt sim id =
      let ds = cpu_decode_f4x4 sim id in float_result sim (ds.dp) (o.cbrtf (sum3 o ds))

  unfoldable pub cpu_exec_fy0 : Sim F → Inst → Outcome F
  cpu_exec_fy0 sim id =
      let ds = cpu_decode_f4x4 sim id in float_result sim (ds.dp) (o.y0f (sum3 o ds))

  unfoldable pub cpu_exec_fy1 : Sim F → Inst → Outcome F
  cpu_exec_fy1 sim id =
      let ds = cpu_decode_f4x4 sim id in float_result sim (ds.dp) (o.y1f (sum3 o ds))

  unfoldable pub cpu_exec_fj0 : Sim F → Inst → Outcome F
  cpu_exec_fj0 sim id =
      let ds = cpu_decode_f4x4 sim id in float_result sim (ds.dp) (o.j0f (sum3 o ds))

  unfoldable pub cpu_exec_fj1 : Sim F → Inst → Outcome F
  cpu_exec_fj1 sim id =
      let ds = cpu_decode_f4x4 sim id in float_result sim (ds.dp) (o.j1f (sum3 o ds))

  unfoldable pub cpu_exec_fexp : Sim F → Inst → Outcome F
  cpu_exec_fexp sim id =
      let ds = cpu_decode_f4x4 sim id in float_result sim (ds.dp) (o.expf (sum3 o ds))

  unfoldable pub cpu_exec_frsqrt : Sim F → Inst → Outcome F
  cpu_exec_frsqrt sim id =
      let ds = cpu_decode_f4x4 sim id in
      float_result sim (ds.dp) (o.fdiv (o.one) (o.sqrtf (sum3 o ds)))

  unfoldable pub cpu_exec_frcbrt : Sim F → Inst → Outcome F
  cpu_exec_frcbrt sim id =
      let ds = cpu_decode_f4x4 sim id in
      float_result sim (ds.dp) (o.fdiv (o.one) (o.cbrtf (sum3 o ds)))

  unfoldable pub cpu_exec_fpow2 : Sim F → Inst → Outcome F
  cpu_exec_fpow2 sim id =
      let ds = cpu_decode_f4x4 sim id in
      float_result sim (ds.dp) (o.powf (o.fadd (ds.v0) (ds.v1)) (ds.v2))

  unfoldable pub cpu_exec_fpow3 : Sim F → Inst → Outcome F
  cpu_exec_fpow3 sim id =
      let ds = cpu_decode_f4x4 sim id in
      float_result sim (ds.dp) (o.powf (o.powf (ds.v0) (ds.v1)) (ds.v2))

  unfoldable pub cpu_exec_fmax : Sim F → Inst → Outcome F
  cpu_exec_fmax sim id =
      let ds = cpu_decode_f4x4 sim id in
      float_result sim (ds.dp) (cpu_i_maxf o (o.fadd (ds.v0) (ds.v1)) (ds.v2))

  unfoldable pub cpu_exec_fmin : Sim F → Inst → Outcome F
  cpu_exec_fmin sim id =
      let ds = cpu_decode_f4x4 sim id in
      float_result sim (ds.dp) (cpu_i_minf o (o.fadd (ds.v0) (ds.v1)) (ds.v2))

  unfoldable pub cpu_exec_fclamp : Sim F → Inst → Outcome F
  cpu_exec_fclamp sim id =
      let ds = cpu_decode_f4x4 sim id in
      float_result sim (ds.dp) (cpu_i_clampf o (ds.v0) (ds.v1) (ds.v2))

  unfoldable pub cpu_exec_finv : Sim F → Inst → Outcome F
  cpu_exec_finv sim id =
      let ds = cpu_decode_f4x4 sim id in float_result sim (ds.dp) (o.fdiv (o.one) (sum3 o ds))

  unfoldable pub cpu_exec_fconstpi : Sim F → Inst → Outcome F
  cpu_exec_fconstpi sim id =
      let ds = cpu_decode_f4x4 sim id in
      float_result sim (ds.dp) (o.narrow (o.dmul (o.m_pi) (o.widen (sum3 o ds))))

  unfoldable pub cpu_exec_fconste : Sim F → Inst → Outcome F
  cpu_exec_fconste sim id =
      let ds = cpu_decode_f4x4 sim id in
      float_result sim (ds.dp) (o.narrow (o.dmul (o.m_e) (o.widen (sum3 o ds))))

  unfoldable pub cpu_exec_fconstpi2 : Sim F → Inst → Outcome F
  cpu_exec_fconstpi2 sim id =
      let ds = cpu_decode_f4x4 sim id in
      float_result sim (ds.dp) (o.narrow (o.dmul (o.m_pi_2) (o.widen (sum3 o ds))))

  unfoldable pub cpu_exec_frad : Sim F → Inst → Outcome F
  cpu_exec_frad sim id =
      let ds = cpu_decode_f4x4 sim id in
      float_result sim (ds.dp)
        (o.narrow (o.ddiv (o.dmul (o.widen (sum3 o ds)) (o.m_pi)) (o.widen (o.degrees_180))))

  unfoldable pub cpu_exec_fdeg : Sim F → Inst → Outcome F
  cpu_exec_fdeg sim id =
      let ds = cpu_decode_f4x4 sim id in
      float_result sim (ds.dp)
        (o.narrow (o.ddiv (o.widen (o.fmul (sum3 o ds) (o.degrees_180))) (o.m_pi)))

  unfoldable pub cpu_exec_fsel : Sim F → Inst → Outcome F
  cpu_exec_fsel sim id = let ds = cpu_decode_f4x4 sim id in float_result sim (ds.dp) (sum3 o ds)

  unfoldable pub cpu_exec_fsel2 : Sim F → Inst → Outcome F
  cpu_exec_fsel2 sim id = let ds = cpu_decode_f4x4 sim id in float_result sim (ds.dp) (sum3 o ds)

  unfoldable pub cpu_exec_fgamma : Sim F → Inst → Outcome F
  cpu_exec_fgamma sim id =
      let ds = cpu_decode_f4x4 sim id in float_result sim (ds.dp) (o.gammaf (sum3 o ds))

  unfoldable pub cpu_exec_flgamma : Sim F → Inst → Outcome F
  cpu_exec_flgamma sim id =
      let ds = cpu_decode_f4x4 sim id in float_result sim (ds.dp) (o.lgammaf (sum3 o ds))

  unfoldable pub cpu_exec_fround : Sim F → Inst → Outcome F
  cpu_exec_fround sim id =
      let ds = cpu_decode_f4x4 sim id in float_result sim (ds.dp) (o.roundf (sum3 o ds))

  unfoldable pub cpu_exec_ffloor : Sim F → Inst → Outcome F
  cpu_exec_ffloor sim id =
      let ds = cpu_decode_f4x4 sim id in float_result sim (ds.dp) (o.floorf (sum3 o ds))

  unfoldable pub cpu_exec_fceil : Sim F → Inst → Outcome F
  cpu_exec_fceil sim id =
      let ds = cpu_decode_f4x4 sim id in float_result sim (ds.dp) (o.ceilf (sum3 o ds))
