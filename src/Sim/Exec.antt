-- ===== src/Sim/Exec.antt =====
-- isa/sim.c, lines 1002 to 1021 and the branches of cpu_step: which function each mnemonic runs.
use estros.Common.{ℕ}
use estros.Isa.{Mnemonic}
use estros.Sim.State.{Sim, Inst, Outcome}
use estros.Sim.FloatOps.{FloatOps}
use estros.Sim.Integer.{
  cpu_exec_add, cpu_exec_sub, cpu_exec_mul, cpu_exec_div, cpu_exec_rem, cpu_exec_imul, cpu_exec_and,
  cpu_exec_xor, cpu_exec_or, cpu_exec_shl, cpu_exec_shr, cpu_exec_pcnt, cpu_exec_clz, cpu_exec_clo,
  cpu_exec_bswap, cpu_exec_ipcnt, cpu_exec_stb, cpu_exec_stw, cpu_exec_stl, cpu_exec_stq,
  cpu_exec_ldb, cpu_exec_ldw, cpu_exec_ldl, cpu_exec_ldq, cpu_exec_lea, cpu_exec_cmp,
  cpu_exec_cmpkp,
}
use estros.Sim.Block.{
  cpu_exec_memcpy, cpu_exec_memmov, cpu_exec_memset, cpu_exec_memchr, cpu_exec_memchrf,
  cpu_exec_strcpy, cpu_exec_strcat, cpu_exec_strpbrk, cpu_exec_strncpy, cpu_exec_strncat,
  cpu_exec_strchr, cpu_exec_strnchr, cpu_exec_indtab, cpu_exec_indtab8, cpu_exec_chtree,
  cpu_exec_chtreeunchk,
}
use estros.Sim.Control.{cpu_exec_jmp, cpu_exec_jmprel, cpu_exec_call, cpu_exec_ret, cpu_exec_halt}
use estros.Sim.Control.{cpu_exec_common_b}
use estros.Sim.Float.Arithmetic.{
  cpu_exec_fadd3, cpu_exec_fsub3, cpu_exec_fdiv3, cpu_exec_fmul3, cpu_exec_fmod3, cpu_exec_fmadd,
  cpu_exec_fmsub, cpu_exec_fsqrt3, cpu_exec_fhyp, cpu_exec_fnorm, cpu_exec_fabs, cpu_exec_fsign,
  cpu_exec_fnabs,
}
use estros.Sim.Float.Transform.{
  cpu_exec_fcos, cpu_exec_fsin, cpu_exec_ftan, cpu_exec_facos, cpu_exec_fatan, cpu_exec_fasin,
  cpu_exec_fcbrt, cpu_exec_fy0, cpu_exec_fy1, cpu_exec_fj0, cpu_exec_fj1, cpu_exec_fexp,
  cpu_exec_frsqrt, cpu_exec_frcbrt, cpu_exec_fpow2, cpu_exec_fpow3, cpu_exec_fmax, cpu_exec_fmin,
  cpu_exec_fclamp, cpu_exec_finv, cpu_exec_fconstpi, cpu_exec_fconste, cpu_exec_fconstpi2,
  cpu_exec_frad, cpu_exec_fdeg, cpu_exec_fsel, cpu_exec_fsel2, cpu_exec_fgamma, cpu_exec_flgamma,
  cpu_exec_fround, cpu_exec_ffloor, cpu_exec_fceil,
}
use estros.Sim.Float.Complex.{
  cpu_exec_faddcrr, cpu_exec_fsubcrr, cpu_exec_fdivcrr, cpu_exec_fmulcrr, cpu_exec_fsqrtcrr,
  cpu_exec_faddcri, cpu_exec_fsubcri, cpu_exec_fdivcri, cpu_exec_fmulcri, cpu_exec_fsqrtcri,
}
use estros.Sim.Float.Convert.{cpu_exec_fcvti, cpu_exec_icvtf, cpu_exec_fcvtri, cpu_exec_icvtrf}

-- `cpu_exec_##NAME`; `fuel` bounds the loop of strcpy.
module _ {F D C K : Type 0} (o : FloatOps F D C K) (fuel : ℕ) where
  unfoldable pub exec : Mnemonic → Sim F → Inst → Outcome F
  exec Mnemonic.add = cpu_exec_add
  exec Mnemonic.sub = cpu_exec_sub
  exec Mnemonic.mul = cpu_exec_mul
  exec Mnemonic.div = cpu_exec_div
  exec Mnemonic.rem = cpu_exec_rem
  exec Mnemonic.imul = cpu_exec_imul
  exec Mnemonic.and = cpu_exec_and
  exec Mnemonic.xor = cpu_exec_xor
  exec Mnemonic.or = cpu_exec_or
  exec Mnemonic.shl = cpu_exec_shl
  exec Mnemonic.shr = cpu_exec_shr
  exec Mnemonic.pcnt = cpu_exec_pcnt
  exec Mnemonic.clz = cpu_exec_clz
  exec Mnemonic.clo = cpu_exec_clo
  exec Mnemonic.bswap = cpu_exec_bswap
  exec Mnemonic.ipcnt = cpu_exec_ipcnt
  exec Mnemonic.stb = cpu_exec_stb
  exec Mnemonic.stw = cpu_exec_stw
  exec Mnemonic.stl = cpu_exec_stl
  exec Mnemonic.stq = cpu_exec_stq
  exec Mnemonic.ldb = cpu_exec_ldb
  exec Mnemonic.ldw = cpu_exec_ldw
  exec Mnemonic.ldl = cpu_exec_ldl
  exec Mnemonic.ldq = cpu_exec_ldq
  exec Mnemonic.lea = cpu_exec_lea
  exec Mnemonic.cmp = cpu_exec_cmp
  exec Mnemonic.cmpkp = cpu_exec_cmpkp
  exec Mnemonic.memcpy = cpu_exec_memcpy
  exec Mnemonic.memmov = cpu_exec_memmov
  exec Mnemonic.memset = cpu_exec_memset
  exec Mnemonic.memchr = cpu_exec_memchr
  exec Mnemonic.memchrf = cpu_exec_memchrf
  exec Mnemonic.strcpy = cpu_exec_strcpy fuel
  exec Mnemonic.strcat = cpu_exec_strcat
  exec Mnemonic.strpbrk = cpu_exec_strpbrk
  exec Mnemonic.strncpy = cpu_exec_strncpy
  exec Mnemonic.strncat = cpu_exec_strncat
  exec Mnemonic.strchr = cpu_exec_strchr
  exec Mnemonic.strnchr = cpu_exec_strnchr
  exec Mnemonic.indtab = cpu_exec_indtab
  exec Mnemonic.indtab8 = cpu_exec_indtab8
  exec Mnemonic.chtree = cpu_exec_chtree
  exec Mnemonic.chtreeunchk = cpu_exec_chtreeunchk
  exec Mnemonic.jmp = cpu_exec_jmp
  exec Mnemonic.jmprel = cpu_exec_jmprel
  exec Mnemonic.call = cpu_exec_call
  exec Mnemonic.ret = cpu_exec_ret
  exec Mnemonic.bz = cpu_exec_common_b
  exec Mnemonic.b = cpu_exec_common_b
  exec Mnemonic.bgzs = cpu_exec_common_b
  exec Mnemonic.bgpc = cpu_exec_common_b
  exec Mnemonic.bgpcrela = cpu_exec_common_b
  exec Mnemonic.bo = cpu_exec_common_b
  exec Mnemonic.bgoz = cpu_exec_common_b
  exec Mnemonic.bemax = cpu_exec_common_b
  exec Mnemonic.bet0 = cpu_exec_common_b
  exec Mnemonic.bet1 = cpu_exec_common_b
  exec Mnemonic.bet2 = cpu_exec_common_b
  exec Mnemonic.bet3 = cpu_exec_common_b
  exec Mnemonic.bet4 = cpu_exec_common_b
  exec Mnemonic.bet5 = cpu_exec_common_b
  exec Mnemonic.bet6 = cpu_exec_common_b
  exec Mnemonic.bet7 = cpu_exec_common_b
  exec Mnemonic.fadd3 = cpu_exec_fadd3 o
  exec Mnemonic.fsub3 = cpu_exec_fsub3 o
  exec Mnemonic.fdiv3 = cpu_exec_fdiv3 o
  exec Mnemonic.fmul3 = cpu_exec_fmul3 o
  exec Mnemonic.fmod3 = cpu_exec_fmod3 o
  exec Mnemonic.fmadd = cpu_exec_fmadd o
  exec Mnemonic.fmsub = cpu_exec_fmsub o
  exec Mnemonic.fsqrt3 = cpu_exec_fsqrt3 o
  exec Mnemonic.fhyp = cpu_exec_fhyp o
  exec Mnemonic.fnorm = cpu_exec_fnorm o
  exec Mnemonic.fabs = cpu_exec_fabs o
  exec Mnemonic.fsign = cpu_exec_fsign o
  exec Mnemonic.fnabs = cpu_exec_fnabs o
  exec Mnemonic.fcos = cpu_exec_fcos o
  exec Mnemonic.fsin = cpu_exec_fsin o
  exec Mnemonic.ftan = cpu_exec_ftan o
  exec Mnemonic.facos = cpu_exec_facos o
  exec Mnemonic.fatan = cpu_exec_fatan o
  exec Mnemonic.fasin = cpu_exec_fasin o
  exec Mnemonic.fcbrt = cpu_exec_fcbrt o
  exec Mnemonic.fy0 = cpu_exec_fy0 o
  exec Mnemonic.fy1 = cpu_exec_fy1 o
  exec Mnemonic.fj0 = cpu_exec_fj0 o
  exec Mnemonic.fj1 = cpu_exec_fj1 o
  exec Mnemonic.fexp = cpu_exec_fexp o
  exec Mnemonic.frsqrt = cpu_exec_frsqrt o
  exec Mnemonic.frcbrt = cpu_exec_frcbrt o
  exec Mnemonic.fpow2 = cpu_exec_fpow2 o
  exec Mnemonic.fpow3 = cpu_exec_fpow3 o
  exec Mnemonic.fmax = cpu_exec_fmax o
  exec Mnemonic.fmin = cpu_exec_fmin o
  exec Mnemonic.fclamp = cpu_exec_fclamp o
  exec Mnemonic.finv = cpu_exec_finv o
  exec Mnemonic.fconstpi = cpu_exec_fconstpi o
  exec Mnemonic.fconste = cpu_exec_fconste o
  exec Mnemonic.fconstpi2 = cpu_exec_fconstpi2 o
  exec Mnemonic.frad = cpu_exec_frad o
  exec Mnemonic.fdeg = cpu_exec_fdeg o
  exec Mnemonic.fsel = cpu_exec_fsel o
  exec Mnemonic.fsel2 = cpu_exec_fsel2 o
  exec Mnemonic.fgamma = cpu_exec_fgamma o
  exec Mnemonic.flgamma = cpu_exec_flgamma o
  exec Mnemonic.fround = cpu_exec_fround o
  exec Mnemonic.ffloor = cpu_exec_ffloor o
  exec Mnemonic.fceil = cpu_exec_fceil o
  exec Mnemonic.faddcrr = cpu_exec_faddcrr o
  exec Mnemonic.fsubcrr = cpu_exec_fsubcrr o
  exec Mnemonic.fdivcrr = cpu_exec_fdivcrr o
  exec Mnemonic.fmulcrr = cpu_exec_fmulcrr o
  exec Mnemonic.fsqrtcrr = cpu_exec_fsqrtcrr o
  exec Mnemonic.faddcri = cpu_exec_faddcri o
  exec Mnemonic.fsubcri = cpu_exec_fsubcri o
  exec Mnemonic.fdivcri = cpu_exec_fdivcri o
  exec Mnemonic.fmulcri = cpu_exec_fmulcri o
  exec Mnemonic.fsqrtcri = cpu_exec_fsqrtcri o
  exec Mnemonic.fcvti = cpu_exec_fcvti o
  exec Mnemonic.icvtf = cpu_exec_icvtf o
  exec Mnemonic.fcvtri = cpu_exec_fcvtri o
  exec Mnemonic.icvtrf = cpu_exec_icvtrf o
  exec Mnemonic.halt = cpu_exec_halt
