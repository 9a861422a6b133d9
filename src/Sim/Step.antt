-- ===== src/Sim/Step.antt =====
-- isa/sim.c, lines 1039 to 1110: one step, the loop of main and the loading of the ROM.
pub mod End
use estros.Common.{ℕ, zero, suc, ◌+◌, none, some, List, u32, ltb, if◌then◌else◌, get_elem?}
use estros.Isa.{inst_table}
use estros.Sim.State.{
  Sim, Inst, Outcome, cpue_continue, cpue_halt, undefined, aborted, out_of_fuel, sim_rom_size,
  count_tick,
}
use estros.Sim.Memory.{cpu_read8}
use estros.Sim.FloatOps.{FloatOps}
use estros.Sim.Dispatch.{Decoded, find_inst}
use estros.Sim.Exec.{exec}

module _ {F : Type 0} where
  -- The four reads at `pc`, in order.
  unfoldable pub fetch : Sim F → Inst × Sim F
  fetch sim =
      let (b0, s0) = cpu_read8 sim (sim.cpu.pc) in
      let (b1, s1) = cpu_read8 s0 (u32 (s0.cpu.pc + 1)) in
      let (b2, s2) = cpu_read8 s1 (u32 (s1.cpu.pc + 2)) in
      let (b3, s3) = cpu_read8 s2 (u32 (s2.cpu.pc + 3)) in
      (record { b0 = b0; b1 = b1; b2 = b2; b3 = b3 }, s3)

  -- `fread` of a file into `rom`, and the `memset` of what it leaves: a file longer than the ROM
  -- is cut off.
  unfoldable pub load_rom : List ℕ → Sim F → Sim F
  load_rom bytes sim = record sim {
    rom = λ i.
        if ltb i sim_rom_size
        then elim (get_elem? bytes i) [ none ↦ 0xff | some value ↦ value ]
        else sim.rom i;
  }

  -- The test of the loop of main, `cer != CPUE_HALT && sim->perf.ticks < max_ticks`, after a step.
  unfoldable pub continue_run : (Sim F → Outcome F) → (max_ticks : ℕ) → Outcome F → Outcome F
  continue_run again max_ticks (cpue_continue sim) =
      if ltb (sim.perf.ticks) max_ticks then again sim else cpue_continue sim
  continue_run again max_ticks (cpue_halt sim) = cpue_halt sim
  continue_run again max_ticks aborted = aborted
  continue_run again max_ticks undefined = undefined
  continue_run again max_ticks out_of_fuel = out_of_fuel

module _ {F D C K : Type 0} (o : FloatOps F D C K) (fuel : ℕ) where
  -- With no instruction found cpu_step ends without a `return`, and its value is used.
  unfoldable pub run_decoded : Decoded → Sim F → Inst → Outcome F
  run_decoded (Decoded.found m) sim id = exec o fuel m sim id
  run_decoded Decoded.unmatched sim id = undefined
  run_decoded Decoded.test_aborted sim id = aborted

  unfoldable pub cpu_step : Sim F → Outcome F
  unfolding run_decoded
  cpu_step sim =
      let (id, fetched) = fetch (count_tick sim) in run_decoded (find_inst inst_table id) fetched id

  -- The loop of main, for at most `rounds` steps.
  unfoldable pub run : (rounds max_ticks : ℕ) → Sim F → Outcome F
  unfolding continue_run
  run zero max_ticks sim = out_of_fuel
  run (suc rounds) max_ticks sim = continue_run (run rounds max_ticks) max_ticks (cpu_step sim)
