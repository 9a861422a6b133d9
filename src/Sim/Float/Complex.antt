-- ===== src/Sim/Float/Complex.antt =====
-- isa/sim.c, lines 466 to 534: the real and imaginary parts of complex arithmetic.
use estros.Sim.State.{Sim, Inst, Outcome}
use estros.Sim.FloatOps.{FloatOps}
use estros.Sim.Float.Decode.{cpu_decode_f4x4, float_result, complex2}

module _ {F D C K : Type 0} (o : FloatOps F D C K) where
  unfoldable pub cpu_exec_faddcrr : Sim F → Inst → Outcome F
  cpu_exec_faddcrr sim id =
      let ds = cpu_decode_f4x4 sim id in
      float_result sim (ds.dp)
        (o.narrow (o.creal (o.widen_complex (o.add_cf (complex2 o ds) (ds.v2)))))

  unfoldable pub cpu_exec_fsubcrr : Sim F → Inst → Outcome F
  cpu_exec_fsubcrr sim id =
      let ds = cpu_decode_f4x4 sim id in
      float_result sim (ds.dp)
        (o.narrow (o.creal (o.widen_complex (o.sub_cf (complex2 o ds) (ds.v2)))))

  unfoldable pub cpu_exec_fdivcrr : Sim F → Inst → Outcome F
  cpu_exec_fdivcrr sim id =
      let ds = cpu_decode_f4x4 sim id in
      float_result sim (ds.dp)
        (o.narrow (o.creal (o.widen_complex (o.div_cf (complex2 o ds) (ds.v2)))))

  unfoldable pub cpu_exec_fmulcrr : Sim F → Inst → Outcome F
  cpu_exec_fmulcrr sim id =
      let ds = cpu_decode_f4x4 sim id in
      float_result sim (ds.dp)
        (o.narrow (o.creal (o.widen_complex (o.mul_cf (complex2 o ds) (ds.v2)))))

  unfoldable pub cpu_exec_fsqrtcrr : Sim F → Inst → Outcome F
  cpu_exec_fsqrtcrr sim id =
      let ds = cpu_decode_f4x4 sim id in
      float_result sim (ds.dp)
        (o.narrow (o.creal (o.widen_complex (o.mul_cf (o.csqrtf (complex2 o ds)) (ds.v2)))))

  unfoldable pub cpu_exec_faddcri : Sim F → Inst → Outcome F
  cpu_exec_faddcri sim id =
      let ds = cpu_decode_f4x4 sim id in
      float_result sim (ds.dp)
        (o.narrow (o.cimag (o.widen_complex (o.add_cf (complex2 o ds) (ds.v2)))))

  unfoldable pub cpu_exec_fsubcri : Sim F → Inst → Outcome F
  cpu_exec_fsubcri sim id =
      let ds = cpu_decode_f4x4 sim id in
      float_result sim (ds.dp)
        (o.narrow (o.cimag (o.widen_complex (o.sub_cf (complex2 o ds) (ds.v2)))))

  unfoldable pub cpu_exec_fdivcri : Sim F → Inst → Outcome F
  cpu_exec_fdivcri sim id =
      let ds = cpu_decode_f4x4 sim id in
      float_result sim (ds.dp)
        (o.narrow (o.cimag (o.widen_complex (o.div_cf (complex2 o ds) (ds.v2)))))

  unfoldable pub cpu_exec_fmulcri : Sim F → Inst → Outcome F
  cpu_exec_fmulcri sim id =
      let ds = cpu_decode_f4x4 sim id in
      float_result sim (ds.dp)
        (o.narrow (o.cimag (o.widen_complex (o.mul_cf (complex2 o ds) (ds.v2)))))

  unfoldable pub cpu_exec_fsqrtcri : Sim F → Inst → Outcome F
  cpu_exec_fsqrtcri sim id =
      let ds = cpu_decode_f4x4 sim id in
      float_result sim (ds.dp)
        (o.narrow (o.cimag (o.widen_complex (o.mul_cf (o.csqrtf (complex2 o ds)) (ds.v2)))))
