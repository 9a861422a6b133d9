-- ===== src/Sim/State.antt =====
-- isa/sim.c, lines 19 to 61: the simulator's state, and the result of an instruction.
-- `F` is the type `float`. A register file or a memory is a function of the index; the code keeps
-- the index below the array's size, and where it does not the result is `undefined`.
use estros.Common.{ℕ, ◌+◌, ◌*◌, update, u32, u64}
use estros.Isa.{page_size}

abbrev pub sim_ram_base : ℕ
sim_ram_base = 0xf000_0000

abbrev pub sim_rom_base : ℕ
sim_rom_base = 0x8000

abbrev pub sim_ram_size : ℕ
sim_ram_size = page_size * 512

abbrev pub sim_rom_size : ℕ
sim_rom_size = page_size * 16

-- `struct cpu_state`.
pub record Cpu (F : Type 0) : Type 0 where
  pub pc : ℕ
  pub flags : ℕ
  pub cr : ℕ → ℕ
  pub r : ℕ → ℕ
  pub f : ℕ → F
  pub v : ℕ → ℕ × ℕ
  pub tile : ℕ → ℕ → F

pub record Perf : Type 0 where
  pub ticks : ℕ
  pub b_misses : ℕ
  pub b_taken : ℕ
  pub jumps : ℕ
  pub reads : ℕ
  pub writes : ℕ

-- `sim_state_t`. `opt` only selects what is printed.
pub record Sim (F : Type 0) : Type 0 where
  pub cpu : Cpu F
  pub opt : ℕ
  pub perf : Perf
  pub trap_page : ℕ → ℕ
  pub ram : ℕ → ℕ
  pub rom : ℕ → ℕ

-- What a call of `cpu_exec_…` or `cpu_step` comes to. `aborted` is `abort()`; `undefined` is
-- behaviour that C leaves undefined; `out_of_fuel` is a loop cut off by the model.
pub data Outcome (F : Type 0) : Type 0 where
  cpue_continue cpue_halt : Sim F → Outcome F
  aborted undefined out_of_fuel : Outcome F

module _ {F : Type 0} where
  unfoldable pub set_pc : Sim F → ℕ → Sim F
  set_pc sim a = record sim { cpu = record (sim.cpu) { pc = a } }

  unfoldable pub set_flags : Sim F → ℕ → Sim F
  set_flags sim x = record sim { cpu = record (sim.cpu) { flags = x } }

  unfoldable pub set_r : Sim F → ℕ → ℕ → Sim F
  set_r sim i x = record sim { cpu = record (sim.cpu) { r = update (sim.cpu.r) i x } }

  unfoldable pub set_f : Sim F → ℕ → F → Sim F
  set_f sim i x = record sim { cpu = record (sim.cpu) { f = update (sim.cpu.f) i x } }

  -- `sim->cpu.pc += n`.
  unfoldable pub add_pc : Sim F → ℕ → Sim F
  unfolding set_pc
  add_pc sim n = set_pc sim (u32 (sim.cpu.pc + n))

  -- `++sim->perf.…`, on `unsigned long`.
  unfoldable pub count_tick : Sim F → Sim F
  count_tick sim = record sim { perf = record (sim.perf) { ticks = u64 (sim.perf.ticks + 1) } }

  unfoldable pub count_jump : Sim F → Sim F
  count_jump sim = record sim { perf = record (sim.perf) { jumps = u64 (sim.perf.jumps + 1) } }

  unfoldable pub count_read : Sim F → Sim F
  count_read sim = record sim { perf = record (sim.perf) { reads = u64 (sim.perf.reads + 1) } }

  unfoldable pub count_write : Sim F → Sim F
  count_write sim = record sim { perf = record (sim.perf) { writes = u64 (sim.perf.writes + 1) } }

  unfoldable pub count_taken : Sim F → Sim F
  count_taken sim = record sim { perf = record (sim.perf) { b_taken = u64 (sim.perf.b_taken + 1) } }

  unfoldable pub count_miss : Sim F → Sim F
  count_miss sim = record sim {
    perf = record (sim.perf) { b_misses = u64 (sim.perf.b_misses + 1) };
  }

-- The first four of the bytes `id[8]`: the code reads no other.
pub record Inst : Type 0 where
  pub b0 : ℕ
  pub b1 : ℕ
  pub b2 : ℕ
  pub b3 : ℕ
