-- ===== src/Sim/Invariant/Exec.antt =====
-- Proofs on the invariant: the float instructions, and the choice of the instruction.
use estros.Common.{ℕ, arith, ltb}
use estros.Isa.{Mnemonic}
use estros.Sim.State.{Sim, Inst}
use estros.Sim.Exec.{exec}
use estros.Sim.FloatOps.{FloatOps, FloatLaws}
use estros.Sim.Control.{cpu_exec_halt}
use estros.Sim.Block.{
  cpu_decode_r4x4, cpu_exec_memcpy, cpu_exec_memmov, cpu_exec_memset, cpu_exec_memchr,
  cpu_exec_memchrf, cpu_exec_strcat, cpu_exec_strpbrk, cpu_exec_strncpy, cpu_exec_strncat,
  cpu_exec_strchr, cpu_exec_strnchr, cpu_exec_indtab, cpu_exec_indtab8, cpu_exec_chtree,
  cpu_exec_chtreeunchk,
}
use estros.Sim.Float.Arithmetic.{
  cpu_exec_fadd3, cpu_exec_fsub3, cpu_exec_fdiv3, cpu_exec_fmul3, cpu_exec_fmod3, cpu_exec_fmadd,
  cpu_exec_fmsub, cpu_exec_fsqrt3, cpu_exec_fhyp, cpu_exec_fnorm, cpu_exec_fabs, cpu_exec_fsign,
  cpu_exec_fnabs,
}
use estros.Sim.Float.Transform.{
  cpu_exec_fcos, cpu_exec_fsin, cpu_exec_ftan, cpu_exec_facos, cpu_exec_fatan, cpu_exec_fasin,
  cpu_exec_fcbrt, cpu_exec_fy0, cpu_exec_fy1, cpu_exec_fj0, cpu_exec_fj1, cpu_exec_fexp,
  cpu_exec_frsqrt, cpu_exec_frcbrt, cpu_exec_fpow2, cpu_exec_fpow3, cpu_exec_fmax, cpu_exec_fmin,
  cpu_exec_fclamp, cpu_exec_finv, cpu_exec_fconstpi, cpu_exec_fconste, cpu_exec_fconstpi2,
  cpu_exec_frad, cpu_exec_fdeg, cpu_exec_fsel, cpu_exec_fsel2, cpu_exec_fgamma, cpu_exec_flgamma,
  cpu_exec_fround, cpu_exec_ffloor, cpu_exec_fceil,
}
use estros.Sim.Float.Complex.{
  cpu_exec_faddcrr, cpu_exec_fsubcrr, cpu_exec_fdivcrr, cpu_exec_fmulcrr, cpu_exec_fsqrtcrr,
  cpu_exec_faddcri, cpu_exec_fsubcri, cpu_exec_fdivcri, cpu_exec_fmulcri, cpu_exec_fsqrtcri,
}
use estros.Sim.Float.Convert.{cpu_exec_icvtf, cpu_exec_icvtrf}
use estros.Sim.Invariant.{IsValid, Keeps}
use estros.Sim.Invariant.Fields.{add_pc-IsValid, set_r-IsValid, set_f-IsValid, update_flags-IsValid}
use estros.Sim.Invariant.Results.{IsInst, float_result-Keeps}
use estros.Sim.Invariant.Integer.{
  add-Keeps, sub-Keeps, mul-Keeps, div-Keeps, rem-Keeps, imul-Keeps, and-Keeps, xor-Keeps, or-Keeps,
  shl-Keeps, shr-Keeps, pcnt-Keeps, clz-Keeps, clo-Keeps, bswap-Keeps, ipcnt-Keeps, stb-Keeps,
  stw-Keeps, stl-Keeps, stq-Keeps, ldb-Keeps, ldw-Keeps, ldl-Keeps, ldq-Keeps, lea-Keeps, cmp-Keeps,
  cmpkp-Keeps,
}
use estros.Sim.Invariant.Block.{
  if-IsValid, forward_loop-IsValid, backward_loop-IsValid, fill_loop-IsValid, search_loop-IsValid,
  strncpy_loop-IsValid, chase_loop-IsValid, chase_unchecked_loop-IsValid, block_result-Keeps,
  cpu_exec_strcpy-Keeps, table_read-Keeps,
}
use estros.Sim.Invariant.Control.{
  jmp-Keeps, jmprel-Keeps, call-Keeps, ret-Keeps, branch-Keeps, fcvti-Keeps, fcvtri-Keeps,
}

memmov-Keeps :
    {F : Type 0} {sim : Sim F} → IsValid sim → (id : Inst) → Keeps (cpu_exec_memmov sim id)
unfolding cpu_exec_memmov
memmov-Keeps {sim = sim} v id =
    let ds = cpu_decode_r4x4 sim id in
    block_result-Keeps
      (if-IsValid (ltb (ds.b) (ds.a)) (forward_loop-IsValid (ds.c) 0 (ds.a) (ds.b) v)
        (backward_loop-IsValid (ds.c) 0 (ds.a) (ds.b) (ds.c) v))
      ds (unfold cpu_decode_r4x4 in v.cpu.r _)

memcpy-Keeps :
    {F : Type 0} {sim : Sim F} → IsValid sim → (id : Inst) → Keeps (cpu_exec_memcpy sim id)
unfolding cpu_exec_memcpy
memcpy-Keeps {sim = sim} v id =
    let ds = cpu_decode_r4x4 sim id in
    block_result-Keeps (forward_loop-IsValid (ds.c) 0 (ds.a) (ds.b) v) ds
      (unfold cpu_decode_r4x4 in v.cpu.r _)

memset-Keeps :
    {F : Type 0} {sim : Sim F} → IsValid sim → (id : Inst) → Keeps (cpu_exec_memset sim id)
unfolding cpu_exec_memset
memset-Keeps {sim = sim} v id =
    let ds = cpu_decode_r4x4 sim id in
    block_result-Keeps (fill_loop-IsValid (ds.c) 0 (ds.a) (ds.b) v) ds
      (unfold cpu_decode_r4x4 in v.cpu.r _)

module _ {F D C K : Type 0} {o : FloatOps F D C K} (laws : FloatLaws o) (fuel : ℕ) where
  pub exec-Keeps :
      (m : Mnemonic) {sim : Sim F}
      → IsValid sim
      → {id : Inst} → IsInst id
      → Keeps (exec o fuel m sim id)
  unfolding exec cpu_exec_halt cpu_decode_r4x4 cpu_exec_memchr cpu_exec_memchrf cpu_exec_strcat
      cpu_exec_strpbrk cpu_exec_strncpy cpu_exec_strncat cpu_exec_strchr cpu_exec_strnchr
      cpu_exec_indtab cpu_exec_indtab8 cpu_exec_chtree cpu_exec_chtreeunchk cpu_exec_fadd3
      cpu_exec_fsub3 cpu_exec_fdiv3 cpu_exec_fmul3 cpu_exec_fmod3 cpu_exec_fmadd cpu_exec_fmsub
      cpu_exec_fsqrt3 cpu_exec_fhyp cpu_exec_fnorm cpu_exec_fabs cpu_exec_fsign cpu_exec_fnabs
      cpu_exec_fcos cpu_exec_fsin cpu_exec_ftan cpu_exec_facos cpu_exec_fatan cpu_exec_fasin
      cpu_exec_fcbrt cpu_exec_fy0 cpu_exec_fy1 cpu_exec_fj0 cpu_exec_fj1 cpu_exec_fexp
      cpu_exec_frsqrt cpu_exec_frcbrt cpu_exec_fpow2 cpu_exec_fpow3 cpu_exec_fmax cpu_exec_fmin
      cpu_exec_fclamp cpu_exec_finv cpu_exec_fconstpi cpu_exec_fconste cpu_exec_fconstpi2
      cpu_exec_frad cpu_exec_fdeg cpu_exec_fsel cpu_exec_fsel2 cpu_exec_fgamma cpu_exec_flgamma
      cpu_exec_fround cpu_exec_ffloor cpu_exec_fceil cpu_exec_faddcrr cpu_exec_fsubcrr
      cpu_exec_fdivcrr cpu_exec_fmulcrr cpu_exec_fsqrtcrr cpu_exec_faddcri cpu_exec_fsubcri
      cpu_exec_fdivcri cpu_exec_fmulcri cpu_exec_fsqrtcri cpu_exec_icvtf cpu_exec_icvtrf
  exec-Keeps Mnemonic.add v {id} i = add-Keeps v i
  exec-Keeps Mnemonic.sub v {id} i = sub-Keeps v i
  exec-Keeps Mnemonic.mul v {id} i = mul-Keeps v i
  exec-Keeps Mnemonic.div v {id} i = div-Keeps v i
  exec-Keeps Mnemonic.rem v {id} i = rem-Keeps v i
  exec-Keeps Mnemonic.imul v {id} i = imul-Keeps v i
  exec-Keeps Mnemonic.and v {id} i = and-Keeps v i
  exec-Keeps Mnemonic.xor v {id} i = xor-Keeps v i
  exec-Keeps Mnemonic.or v {id} i = or-Keeps v i
  exec-Keeps Mnemonic.shl v {id} i = shl-Keeps v i
  exec-Keeps Mnemonic.shr v {id} i = shr-Keeps v i
  exec-Keeps Mnemonic.pcnt v {id} i = pcnt-Keeps v i
  exec-Keeps Mnemonic.clz v {id} i = clz-Keeps v i
  exec-Keeps Mnemonic.clo v {id} i = clo-Keeps v i
  exec-Keeps Mnemonic.bswap v {id} i = bswap-Keeps v i
  exec-Keeps Mnemonic.ipcnt v {id} i = ipcnt-Keeps v i
  exec-Keeps Mnemonic.stb v {id} i = stb-Keeps v i
  exec-Keeps Mnemonic.stw v {id} i = stw-Keeps v i
  exec-Keeps Mnemonic.stl v {id} i = stl-Keeps v i
  exec-Keeps Mnemonic.stq v {id} i = stq-Keeps v i
  exec-Keeps Mnemonic.ldb v {id} i = ldb-Keeps v i
  exec-Keeps Mnemonic.ldw v {id} i = ldw-Keeps v i
  exec-Keeps Mnemonic.ldl v {id} i = ldl-Keeps v i
  exec-Keeps Mnemonic.ldq v {id} i = ldq-Keeps v i
  exec-Keeps Mnemonic.lea v {id} i = lea-Keeps v i
  exec-Keeps Mnemonic.cmp v {id} i = cmp-Keeps v i
  exec-Keeps Mnemonic.cmpkp v {id} i = cmpkp-Keeps v i
  exec-Keeps Mnemonic.memcpy v {id} i = memcpy-Keeps v id
  exec-Keeps Mnemonic.memmov v {id} i = memmov-Keeps v id
  exec-Keeps Mnemonic.memset v {id} i = memset-Keeps v id
  exec-Keeps Mnemonic.memchr v {id} i =
      add_pc-IsValid (search_loop-IsValid _ 0 _ _ _ (v.cpu.r _) (set_r-IsValid v _ (omega arith))) 4
  exec-Keeps Mnemonic.memchrf v {id} i =
      add_pc-IsValid
        (update_flags-IsValid
          (search_loop-IsValid _ 0 _ _ _ (v.cpu.r _) (set_r-IsValid v _ (omega arith))) _)
        4
  exec-Keeps Mnemonic.strcpy v {id} i = cpu_exec_strcpy-Keeps v fuel id
  exec-Keeps Mnemonic.strcat v {id} i = tt
  exec-Keeps Mnemonic.strpbrk v {id} i = tt
  exec-Keeps Mnemonic.strncpy v {id} i =
      add_pc-IsValid (strncpy_loop-IsValid _ 0 _ _ (set_r-IsValid v _ (v.cpu.r _))) 4
  exec-Keeps Mnemonic.strncat v {id} i = tt
  exec-Keeps Mnemonic.strchr v {id} i = tt
  exec-Keeps Mnemonic.strnchr v {id} i = tt
  exec-Keeps Mnemonic.indtab v {id} i = table_read-Keeps v id 4
  exec-Keeps Mnemonic.indtab8 v {id} i = table_read-Keeps v id 8
  exec-Keeps Mnemonic.chtree v {id} i = add_pc-IsValid (chase_loop-IsValid _ _ _ v) 4
  exec-Keeps Mnemonic.chtreeunchk {sim} v {id} i =
      let ds = cpu_decode_r4x4 sim id in
      add_pc-IsValid (chase_unchecked_loop-IsValid (ds.c) (ds.a) (ds.b) v) 4
  exec-Keeps Mnemonic.jmp v {id} i = jmp-Keeps v i
  exec-Keeps Mnemonic.jmprel v {id} i = jmprel-Keeps v id
  exec-Keeps Mnemonic.call v {id} i = call-Keeps v id
  exec-Keeps Mnemonic.ret v {id} i = ret-Keeps v id
  exec-Keeps Mnemonic.bz v {id} i = branch-Keeps v id
  exec-Keeps Mnemonic.b v {id} i = branch-Keeps v id
  exec-Keeps Mnemonic.bgzs v {id} i = branch-Keeps v id
  exec-Keeps Mnemonic.bgpc v {id} i = branch-Keeps v id
  exec-Keeps Mnemonic.bgpcrela v {id} i = branch-Keeps v id
  exec-Keeps Mnemonic.bo v {id} i = branch-Keeps v id
  exec-Keeps Mnemonic.bgoz v {id} i = branch-Keeps v id
  exec-Keeps Mnemonic.bemax v {id} i = branch-Keeps v id
  exec-Keeps Mnemonic.bet0 v {id} i = branch-Keeps v id
  exec-Keeps Mnemonic.bet1 v {id} i = branch-Keeps v id
  exec-Keeps Mnemonic.bet2 v {id} i = branch-Keeps v id
  exec-Keeps Mnemonic.bet3 v {id} i = branch-Keeps v id
  exec-Keeps Mnemonic.bet4 v {id} i = branch-Keeps v id
  exec-Keeps Mnemonic.bet5 v {id} i = branch-Keeps v id
  exec-Keeps Mnemonic.bet6 v {id} i = branch-Keeps v id
  exec-Keeps Mnemonic.bet7 v {id} i = branch-Keeps v id
  exec-Keeps Mnemonic.fadd3 v {id} i = float_result-Keeps v _ _
  exec-Keeps Mnemonic.fsub3 v {id} i = float_result-Keeps v _ _
  exec-Keeps Mnemonic.fdiv3 v {id} i = float_result-Keeps v _ _
  exec-Keeps Mnemonic.fmul3 v {id} i = float_result-Keeps v _ _
  exec-Keeps Mnemonic.fmod3 v {id} i = float_result-Keeps v _ _
  exec-Keeps Mnemonic.fmadd v {id} i = float_result-Keeps v _ _
  exec-Keeps Mnemonic.fmsub v {id} i = float_result-Keeps v _ _
  exec-Keeps Mnemonic.fsqrt3 v {id} i = float_result-Keeps v _ _
  exec-Keeps Mnemonic.fhyp v {id} i = float_result-Keeps v _ _
  exec-Keeps Mnemonic.fnorm v {id} i = float_result-Keeps v _ _
  exec-Keeps Mnemonic.fabs v {id} i = float_result-Keeps v _ _
  exec-Keeps Mnemonic.fsign v {id} i = float_result-Keeps v _ _
  exec-Keeps Mnemonic.fnabs v {id} i = float_result-Keeps v _ _
  exec-Keeps Mnemonic.fcos v {id} i = float_result-Keeps v _ _
  exec-Keeps Mnemonic.fsin v {id} i = float_result-Keeps v _ _
  exec-Keeps Mnemonic.ftan v {id} i = float_result-Keeps v _ _
  exec-Keeps Mnemonic.facos v {id} i = float_result-Keeps v _ _
  exec-Keeps Mnemonic.fatan v {id} i = float_result-Keeps v _ _
  exec-Keeps Mnemonic.fasin v {id} i = float_result-Keeps v _ _
  exec-Keeps Mnemonic.fcbrt v {id} i = float_result-Keeps v _ _
  exec-Keeps Mnemonic.fy0 v {id} i = float_result-Keeps v _ _
  exec-Keeps Mnemonic.fy1 v {id} i = float_result-Keeps v _ _
  exec-Keeps Mnemonic.fj0 v {id} i = float_result-Keeps v _ _
  exec-Keeps Mnemonic.fj1 v {id} i = float_result-Keeps v _ _
  exec-Keeps Mnemonic.fexp v {id} i = float_result-Keeps v _ _
  exec-Keeps Mnemonic.frsqrt v {id} i = float_result-Keeps v _ _
  exec-Keeps Mnemonic.frcbrt v {id} i = float_result-Keeps v _ _
  exec-Keeps Mnemonic.fpow2 v {id} i = float_result-Keeps v _ _
  exec-Keeps Mnemonic.fpow3 v {id} i = float_result-Keeps v _ _
  exec-Keeps Mnemonic.fmax v {id} i = float_result-Keeps v _ _
  exec-Keeps Mnemonic.fmin v {id} i = float_result-Keeps v _ _
  exec-Keeps Mnemonic.fclamp v {id} i = float_result-Keeps v _ _
  exec-Keeps Mnemonic.finv v {id} i = float_result-Keeps v _ _
  exec-Keeps Mnemonic.fconstpi v {id} i = float_result-Keeps v _ _
  exec-Keeps Mnemonic.fconste v {id} i = float_result-Keeps v _ _
  exec-Keeps Mnemonic.fconstpi2 v {id} i = float_result-Keeps v _ _
  exec-Keeps Mnemonic.frad v {id} i = float_result-Keeps v _ _
  exec-Keeps Mnemonic.fdeg v {id} i = float_result-Keeps v _ _
  exec-Keeps Mnemonic.fsel v {id} i = float_result-Keeps v _ _
  exec-Keeps Mnemonic.fsel2 v {id} i = float_result-Keeps v _ _
  exec-Keeps Mnemonic.fgamma v {id} i = float_result-Keeps v _ _
  exec-Keeps Mnemonic.flgamma v {id} i = float_result-Keeps v _ _
  exec-Keeps Mnemonic.fround v {id} i = float_result-Keeps v _ _
  exec-Keeps Mnemonic.ffloor v {id} i = float_result-Keeps v _ _
  exec-Keeps Mnemonic.fceil v {id} i = float_result-Keeps v _ _
  exec-Keeps Mnemonic.faddcrr v {id} i = float_result-Keeps v _ _
  exec-Keeps Mnemonic.fsubcrr v {id} i = float_result-Keeps v _ _
  exec-Keeps Mnemonic.fdivcrr v {id} i = float_result-Keeps v _ _
  exec-Keeps Mnemonic.fmulcrr v {id} i = float_result-Keeps v _ _
  exec-Keeps Mnemonic.fsqrtcrr v {id} i = float_result-Keeps v _ _
  exec-Keeps Mnemonic.faddcri v {id} i = float_result-Keeps v _ _
  exec-Keeps Mnemonic.fsubcri v {id} i = float_result-Keeps v _ _
  exec-Keeps Mnemonic.fdivcri v {id} i = float_result-Keeps v _ _
  exec-Keeps Mnemonic.fmulcri v {id} i = float_result-Keeps v _ _
  exec-Keeps Mnemonic.fsqrtcri v {id} i = float_result-Keeps v _ _
  exec-Keeps Mnemonic.fcvti v {id} i = fcvti-Keeps v laws id
  exec-Keeps Mnemonic.icvtf v {id} i = add_pc-IsValid (set_f-IsValid v _ _) 4
  exec-Keeps Mnemonic.fcvtri v {id} i = fcvtri-Keeps v laws id
  exec-Keeps Mnemonic.icvtrf v {id} i = add_pc-IsValid (set_f-IsValid v _ _) 4
  exec-Keeps Mnemonic.halt v {id} i = v
