-- ===== src/Sim/Step/End.antt =====
-- isa/sim.c, cpu_step: proofs on a step behind the end of the loaded program.
use estros.Common.{
  ℕ, zero, suc, ◌+◌, ◌-◌, ◌≤◌, ◌<◌, ◌≡◌, refl, none, List, [], ◌∷◌, u32, lt→ltb, length, get_elem?,
  arith, ap, ◌∙◌,
}
use estros.Isa.{Mnemonic, inst_table}
use estros.Sim.State.{Sim, Inst, cpue_halt, sim_rom_base, sim_rom_size, count_tick, count_read}
use estros.Sim.Memory.{Cell, rom_at, ram_at, trap_at, cpu_translate, deref, cpu_read8}
use estros.Sim.Memory.Cells.{byte_at, deref-count_read}
use estros.Sim.FloatOps.{FloatOps}
use estros.Sim.Control.{cpu_exec_halt}
use estros.Sim.Dispatch.{Decoded, find_inst, found, cpu_match_inst}
use estros.Sim.Exec.{exec}
use estros.Sim.Step.{fetch, load_rom, run_decoded, cpu_step}

get_elem?-beyond : (xs : List ℕ) (i : ℕ) → length xs ≤ i → get_elem? xs i ≡ none
get_elem?-beyond [] i h = refl
get_elem?-beyond (x ∷ xs) zero h = absurd (omega arith)
get_elem?-beyond (x ∷ xs) (suc i) h = get_elem?-beyond xs i (omega arith)

translate_rom :
    (a : ℕ)
    → sim_rom_base ≤ a
    → a < sim_rom_base + sim_rom_size
    → cpu_translate a ≡ rom_at (a - sim_rom_base)
unfolding cpu_translate
translate_rom a low high = ground arith

abbrev all_ones : Inst
all_ones = record { b0 = 0xff; b1 = 0xff; b2 = 0xff; b3 = 0xff }

all_ones-eq :
    (b0 b1 b2 b3 : ℕ)
    → b0 ≡ 0xff
    → b1 ≡ 0xff
    → b2 ≡ 0xff
    → b3 ≡ 0xff
    → record { b0 = b0; b1 = b1; b2 = b2; b3 = b3 } ≡ all_ones
all_ones-eq b0 b1 b2 b3 p q r t = rw (p, q, r, t) refl

halts_on_ones : find_inst inst_table all_ones ≡ found Mnemonic.halt
unfolding find_inst cpu_match_inst inst_table
halts_on_ones = refl

module _ {F : Type 0} where
  byte_beyond :
      (bytes : List ℕ) (sim : Sim F) (a : ℕ)
      → sim_rom_base + length bytes ≤ a
      → a < sim_rom_base + sim_rom_size
      → byte_at (load_rom bytes sim) a ≡ 0xff
  unfolding load_rom deref
  byte_beyond bytes sim a low high =
      rw
        (
          translate_rom a (omega arith) high,
          lt→ltb (a - sim_rom_base) sim_rom_size (omega arith),
          get_elem?-beyond bytes (a - sim_rom_base) (omega arith),
        )
        refl

  deref-count_tick : (sim : Sim F) (c : Cell) → deref (count_tick sim) c ≡ deref sim c
  unfolding deref count_tick
  deref-count_tick sim (rom_at i) = refl
  deref-count_tick sim (ram_at i) = refl
  deref-count_tick sim (trap_at i) = refl

  -- The state after `n` reads.
  abbrev reads_done : ℕ → Sim F → Sim F
  reads_done zero sim = sim
  reads_done (suc n) sim = count_read (reads_done n sim)

  byte_at-reads_done : (n : ℕ) (sim : Sim F) (a : ℕ) → byte_at (reads_done n sim) a ≡ byte_at sim a
  byte_at-reads_done zero sim a = refl
  byte_at-reads_done (suc n) sim a =
      deref-count_read (reads_done n sim) (cpu_translate a) ∙ byte_at-reads_done n sim a

  fetch-reads_done : (sim : Sim F) → (fetch sim).1 ≡ reads_done 4 sim
  unfolding fetch cpu_read8
  fetch-reads_done sim = refl

  fetch_beyond :
      (bytes : List ℕ) (sim : Sim F)
      → sim_rom_base + length bytes ≤ sim.cpu.pc
      → sim.cpu.pc + 4 ≤ sim_rom_base + sim_rom_size
      → (fetch (count_tick (load_rom bytes sim))).0 ≡ all_ones
  unfolding fetch cpu_read8 count_read count_tick load_rom
  fetch_beyond bytes sim low high =
      all_ones-eq _ _ _ _ (beyond 0 (sim.cpu.pc) low (omega arith))
        (beyond 1 (u32 (sim.cpu.pc + 1)) (omega arith) (omega arith))
        (beyond 2 (u32 (sim.cpu.pc + 2)) (omega arith) (omega arith))
        (beyond 3 (u32 (sim.cpu.pc + 3)) (omega arith) (omega arith))
    where
      beyond :
          (n a : ℕ)
          → sim_rom_base + length bytes ≤ a
          → a < sim_rom_base + sim_rom_size
          → byte_at (reads_done n (count_tick (load_rom bytes sim))) a ≡ 0xff
      beyond n a p q =
          byte_at-reads_done n (count_tick (load_rom bytes sim)) a
          ∙ deref-count_tick (load_rom bytes sim) (cpu_translate a)
          ∙ byte_beyond bytes sim a p q

module _ {F D C K : Type 0} (o : FloatOps F D C K) (fuel : ℕ) where
  -- With a program loaded and `pc` behind its end and four bytes before the end of the ROM, a step halts
  -- and leaves the state of the processor and the RAM as they are.
  pub step_beyond_end :
      (bytes : List ℕ) (sim : Sim F)
      → sim_rom_base + length bytes ≤ sim.cpu.pc
      → sim.cpu.pc + 4 ≤ sim_rom_base + sim_rom_size
      → (s : Sim F) × (cpu_step o fuel (load_rom bytes sim) ≡ cpue_halt s)
        × (s.cpu ≡ sim.cpu)
        × (s.ram ≡ sim.ram)
  unfolding cpu_step run_decoded exec cpu_exec_halt
  step_beyond_end bytes sim low high =
      let ticked = count_tick (load_rom bytes sim) in
      (
        (fetch ticked).1,
        ap (λ (id : Inst). run_decoded o fuel (find_inst inst_table id) ((fetch ticked).1) id)
              (fetch_beyond bytes sim low high)
            ∙ ap (λ (d : Decoded). run_decoded o fuel d ((fetch ticked).1) all_ones) halts_on_ones,
        unfold fetch cpu_read8 count_read count_tick load_rom in refl,
        unfold fetch cpu_read8 count_read count_tick load_rom in refl,
      )
