-- ===== src/Sim/Float/Same.antt =====
-- isa/sim.c: proofs on float instructions that share their code.
use estros.Common.{◌≡◌, refl}
use estros.Sim.State.{Sim, Inst}
use estros.Sim.FloatOps.{FloatOps}
use estros.Sim.Float.Arithmetic.{cpu_exec_fadd3, cpu_exec_fdiv3, cpu_exec_fmul3}
use estros.Sim.Float.Transform.{cpu_exec_fsel, cpu_exec_fsel2}

module _ {F D C K : Type 0} (o : FloatOps F D C K) (sim : Sim F) (id : Inst) where
  -- fmul3 is fdiv3, and fsel and fsel2 are both fadd3: on every state and operands the outcome is the
  -- same, whatever the arithmetic is.
  pub same_instructions :
      (cpu_exec_fmul3 o sim id ≡ cpu_exec_fdiv3 o sim id)
      × (cpu_exec_fsel o sim id ≡ cpu_exec_fadd3 o sim id)
      × (cpu_exec_fsel2 o sim id ≡ cpu_exec_fadd3 o sim id)
  unfolding cpu_exec_fmul3 cpu_exec_fdiv3 cpu_exec_fsel cpu_exec_fsel2 cpu_exec_fadd3
  same_instructions = (refl, refl, refl)
