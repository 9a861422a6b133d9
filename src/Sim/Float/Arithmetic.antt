-- ===== src/Sim/Float/Arithmetic.antt =====
-- isa/sim.c, lines 196 to 273: the sums, products and norms of three float registers.
use estros.Sim.State.{Sim, Inst, Outcome}
use estros.Sim.FloatOps.{FloatOps}
use estros.Sim.Float.Decode.{cpu_decode_f4x4, float_result, sum3}

module _ {F D C K : Type 0} (o : FloatOps F D C K) where
  unfoldable pub cpu_exec_fadd3 : Sim F → Inst → Outcome F
  cpu_exec_fadd3 sim id = let ds = cpu_decode_f4x4 sim id in float_result sim (ds.dp) (sum3 o ds)

  unfoldable pub cpu_exec_fsub3 : Sim F → Inst → Outcome F
  cpu_exec_fsub3 sim id =
      let ds = cpu_decode_f4x4 sim id in
      float_result sim (ds.dp) (o.fsub (o.fadd (ds.v0) (ds.v1)) (ds.v2))

  unfoldable pub cpu_exec_fdiv3 : Sim F → Inst → Outcome F
  cpu_exec_fdiv3 sim id =
      let ds = cpu_decode_f4x4 sim id in
      float_result sim (ds.dp) (o.fdiv (o.fadd (ds.v0) (ds.v1)) (ds.v2))

  unfoldable pub cpu_exec_fmul3 : Sim F → Inst → Outcome F
  cpu_exec_fmul3 sim id =
      let ds = cpu_decode_f4x4 sim id in
      float_result sim (ds.dp) (o.fdiv (o.fadd (ds.v0) (ds.v1)) (ds.v2))

  unfoldable pub cpu_exec_fmod3 : Sim F → Inst → Outcome F
  cpu_exec_fmod3 sim id =
      let ds = cpu_decode_f4x4 sim id in
      float_result sim (ds.dp)
        (o.narrow (o.fmod (o.widen (o.fadd (ds.v0) (ds.v1))) (o.widen (ds.v2))))

  unfoldable pub cpu_exec_fmadd : Sim F → Inst → Outcome F
  cpu_exec_fmadd sim id =
      let ds = cpu_decode_f4x4 sim id in
      float_result sim (ds.dp) (o.fadd (ds.v0) (o.fmul (ds.v1) (ds.v2)))

  unfoldable pub cpu_exec_fmsub : Sim F → Inst → Outcome F
  cpu_exec_fmsub sim id =
      let ds = cpu_decode_f4x4 sim id in
      float_result sim (ds.dp) (o.fsub (ds.v0) (o.fmul (ds.v1) (ds.v2)))

  unfoldable pub cpu_exec_fsqrt3 : Sim F → Inst → Outcome F
  cpu_exec_fsqrt3 sim id =
      let ds = cpu_decode_f4x4 sim id in float_result sim (ds.dp) (o.sqrtf (sum3 o ds))

  unfoldable pub cpu_exec_fhyp : Sim F → Inst → Outcome F
  cpu_exec_fhyp sim id =
      let ds = cpu_decode_f4x4 sim id in
      float_result sim (ds.dp) (o.hypotf (o.fadd (ds.v0) (ds.v1)) (ds.v2))

  unfoldable pub cpu_exec_fnorm : Sim F → Inst → Outcome F
  cpu_exec_fnorm sim id =
      let ds = cpu_decode_f4x4 sim id in
      float_result sim (ds.dp) (
        o.sqrtf (
          o.fadd (o.fadd (o.fmul (ds.v0) (ds.v0)) (o.fmul (ds.v1) (ds.v1)))
            (o.fmul (ds.v2) (ds.v2))))

  unfoldable pub cpu_exec_fabs : Sim F → Inst → Outcome F
  cpu_exec_fabs sim id =
      let ds = cpu_decode_f4x4 sim id in
      float_result sim (ds.dp) (o.narrow (o.fabs (o.widen (sum3 o ds))))

  unfoldable pub cpu_exec_fsign : Sim F → Inst → Outcome F
  cpu_exec_fsign sim id =
      let ds = cpu_decode_f4x4 sim id in float_result sim (ds.dp) (o.of_int (o.signbit (sum3 o ds)))

  unfoldable pub cpu_exec_fnabs : Sim F → Inst → Outcome F
  cpu_exec_fnabs sim id =
      let ds = cpu_decode_f4x4 sim id in
      float_result sim (ds.dp) (o.narrow (o.dneg (o.fabs (o.widen (sum3 o ds)))))
