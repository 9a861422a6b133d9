-- ===== src/Sim/Invariant/Step.antt =====
-- Proofs on the invariant: cpu_step and the loop of main.
use estros.Common.{ℕ, zero, suc, ltb, if◌then◌else◌, Bool, true, false}
use estros.Isa.{inst_table}
use estros.Sim.State.{Sim, Inst, Outcome, cpue_continue, cpue_halt, aborted, undefined, out_of_fuel}
use estros.Sim.FloatOps.{FloatOps, FloatLaws}
use estros.Sim.Dispatch.{Decoded, find_inst}
use estros.Sim.Step.{fetch, run_decoded, continue_run, cpu_step, run}
use estros.Sim.Invariant.{IsValid, Keeps}
use estros.Sim.Invariant.Fields.{count_tick-IsValid}
use estros.Sim.Invariant.Memory.{cpu_read8-ReadsBelow}
use estros.Sim.Invariant.Results.{IsInst}
use estros.Sim.Invariant.Exec.{exec-Keeps}

-- The bytes fetched are bytes, and the fetch keeps the invariant.
pub fetch_lem :
    {F : Type 0} {sim : Sim F} → IsValid sim → IsInst ((fetch sim).0) × IsValid ((fetch sim).1)
unfolding fetch
fetch_lem v =
    let r0 = cpu_read8-ReadsBelow v _ in
    let r1 = cpu_read8-ReadsBelow (r0.1) _ in
    let r2 = cpu_read8-ReadsBelow (r1.1) _ in
    let r3 = cpu_read8-ReadsBelow (r2.1) _ in
    (record { b0 = r0.0; b1 = r1.0; b2 = r2.0; b3 = r3.0 }, r3.1)

if-Keeps :
    {F : Type 0} (test : Bool) (s t : Outcome F) → Keeps s → Keeps t → Keeps (if test then s else t)
if-Keeps true s t p q = p
if-Keeps false s t p q = q

continue_run-Keeps :
    {F : Type 0} (again : Sim F → Outcome F) (max_ticks : ℕ)
    → ((sim : Sim F) → IsValid sim → Keeps (again sim))
    → (r : Outcome F) → Keeps r
    → Keeps (continue_run again max_ticks r)
unfolding continue_run
continue_run-Keeps again max_ticks h (cpue_continue sim) v =
    if-Keeps (ltb (sim.perf.ticks) max_ticks) _ _ (h sim v) v
continue_run-Keeps again max_ticks h (cpue_halt sim) v = v
continue_run-Keeps again max_ticks h aborted v = tt
continue_run-Keeps again max_ticks h undefined v = tt
continue_run-Keeps again max_ticks h out_of_fuel v = tt

module _ {F D C K : Type 0} {o : FloatOps F D C K} (laws : FloatLaws o) (fuel : ℕ) where
  run_decoded-Keeps :
      (d : Decoded) {sim : Sim F}
      → IsValid sim
      → {id : Inst} → IsInst id
      → Keeps (run_decoded o fuel d sim id)
  unfolding run_decoded
  run_decoded-Keeps (Decoded.found m) v i = exec-Keeps laws fuel m v i
  run_decoded-Keeps Decoded.unmatched v i = tt
  run_decoded-Keeps Decoded.test_aborted v i = tt

  -- Whatever bytes stand at `pc`, a step of a state whose fields have the widths of their C types
  -- gives such a state again, if it gives one.
  pub cpu_step-Keeps : (sim : Sim F) → IsValid sim → Keeps (cpu_step o fuel sim)
  unfolding cpu_step
  cpu_step-Keeps sim v =
      let (i, fetched) = fetch_lem (count_tick-IsValid v) in
      run_decoded-Keeps (find_inst inst_table _) fetched i

  -- The loop of main keeps the invariant through any number of steps.
  pub run-Keeps :
      (rounds max_ticks : ℕ) (sim : Sim F) → IsValid sim → Keeps (run o fuel rounds max_ticks sim)
  unfolding run
  run-Keeps zero max_ticks sim v = tt
  run-Keeps (suc rounds) max_ticks sim v =
      continue_run-Keeps (run o fuel rounds max_ticks) max_ticks (run-Keeps rounds max_ticks)
        (cpu_step o fuel sim) (cpu_step-Keeps sim v)
