-- ===== src/Sim/Memory.antt =====
-- isa/sim.c, lines 63 to 101: address translation and the reads and writes of 1, 2 and 4 bytes.
-- A read returns its value and the state, whose counter it changes. The trace that
-- SIM_OPT_TRACE_MEM prints is left out.
pub mod Translate
pub mod Cells
pub mod RoundTrip
use estros.Common.{
  ℕ, ◌+◌, ◌-◌, ◌*◌, ◌/◌, ◌%◌, ◌^◌, ◌&&◌, bit_or, update, u8, u16, u32, ltb, leb, if◌then◌else◌,
}
use estros.Isa.{page_size}
use estros.Sim.State.{
  Sim, sim_ram_base, sim_rom_base, sim_ram_size, sim_rom_size, count_read, count_write,
}

-- The pointer that cpu_translate returns: an array and an index in it.
pub data Cell : Type 0 where
  rom_at ram_at trap_at : ℕ → Cell

unfoldable pub cpu_translate : ℕ → Cell
cpu_translate a =
    if leb sim_rom_base a && ltb a (sim_rom_base + sim_rom_size)
    then rom_at (a - sim_rom_base)
    else if leb sim_ram_base a && ltb a (sim_ram_base + sim_ram_size)
    then ram_at (a - sim_ram_base)
    else trap_at (a % page_size)

module _ {F : Type 0} where
  -- `*p` and `*p = v` at such a pointer.
  unfoldable pub deref : Sim F → Cell → ℕ
  deref sim (rom_at i) = sim.rom i
  deref sim (ram_at i) = sim.ram i
  deref sim (trap_at i) = sim.trap_page i

  unfoldable pub assign : Sim F → Cell → ℕ → Sim F
  assign sim (rom_at i) v = record sim { rom = update (sim.rom) i v }
  assign sim (ram_at i) v = record sim { ram = update (sim.ram) i v }
  assign sim (trap_at i) v = record sim { trap_page = update (sim.trap_page) i v }

  unfoldable pub cpu_read8 : Sim F → ℕ → ℕ × Sim F
  cpu_read8 sim addr = (deref sim (cpu_translate addr), count_read sim)

  unfoldable pub cpu_write8 : Sim F → ℕ → ℕ → Sim F
  cpu_write8 sim addr v = assign (count_write sim) (cpu_translate addr) (u8 v)

  unfoldable pub cpu_read16 : Sim F → ℕ → ℕ × Sim F
  cpu_read16 sim addr =
      let (high, sim₁) = cpu_read8 sim (u32 (addr + 0)) in
      let (low, sim₂) = cpu_read8 sim₁ (u32 (addr + 1)) in
      (bit_or (high * 2 ^ 8) (low * 2 ^ 0), sim₂)

  unfoldable pub cpu_write16 : Sim F → ℕ → ℕ → Sim F
  cpu_write16 sim addr v =
      cpu_write8 (cpu_write8 sim (u32 (addr + 0)) (u16 v / 2 ^ 0)) (u32 (addr + 1)) (u16 v / 2 ^ 8)

  unfoldable pub cpu_read32 : Sim F → ℕ → ℕ × Sim F
  cpu_read32 sim addr =
      let (high, sim₁) = cpu_read16 sim (u32 (addr + 0)) in
      let (low, sim₂) = cpu_read16 sim₁ (u32 (addr + 2)) in
      (bit_or (high * 2 ^ 16) (low * 2 ^ 0), sim₂)

  unfoldable pub cpu_write32 : Sim F → ℕ → ℕ → Sim F
  cpu_write32 sim addr v =
      cpu_write16 (cpu_write16 sim addr (v / 2 ^ 0)) (u32 (addr + 2)) (v / 2 ^ 16)
