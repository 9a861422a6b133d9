-- ===== src/Sim/Invariant.antt =====
-- The invariant of the simulator: each field has the width of its C type.
pub mod Fields
pub mod Step
pub mod Started
pub mod Control
pub mod Exec
pub mod Integer
pub mod Block
pub mod Results
pub mod Memory
use estros.Common.{ℕ, ◌^◌, ◌<◌}
use estros.Sim.State.{
  Cpu, Perf, Sim, Outcome, cpue_continue, cpue_halt, aborted, undefined, out_of_fuel,
}

pub record IsCpu {F : Type 0} (cpu : Cpu F) : Type 0 where
  pub pc : cpu.pc < 2 ^ 32
  pub flags : cpu.flags < 2 ^ 32
  pub r : (i : ℕ) → cpu.r i < 2 ^ 32

pub record IsPerf (perf : Perf) : Type 0 where
  pub ticks : perf.ticks < 2 ^ 64
  pub b_misses : perf.b_misses < 2 ^ 64
  pub b_taken : perf.b_taken < 2 ^ 64
  pub jumps : perf.jumps < 2 ^ 64
  pub reads : perf.reads < 2 ^ 64
  pub writes : perf.writes < 2 ^ 64

abbrev pub AreBytes : (ℕ → ℕ) → Type 0
AreBytes array = (i : ℕ) → array i < 256

pub record IsValid {F : Type 0} (sim : Sim F) : Type 0 where
  pub cpu : IsCpu (sim.cpu)
  pub perf : IsPerf (sim.perf)
  pub trap_page : AreBytes (sim.trap_page)
  pub ram : AreBytes (sim.ram)
  pub rom : AreBytes (sim.rom)

-- The state that an outcome carries is valid.
abbrev pub Keeps : {F : Type 0} → Outcome F → Type 0
Keeps (cpue_continue sim) = IsValid sim
Keeps (cpue_halt sim) = IsValid sim
Keeps aborted = Unit
Keeps undefined = Unit
Keeps out_of_fuel = Unit
