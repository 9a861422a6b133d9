-- ===== src/Sim/Invariant/Memory.antt =====
-- Proofs on the invariant: reads and writes of memory.
use estros.Common.{ℕ, ◌+◌, ◌^◌, ◌<◌, u32, arith, update-lt}
use estros.Common.Bits.{bit_or-lt}
use estros.Sim.State.{Sim}
use estros.Sim.Memory.{
  Cell, rom_at, ram_at, trap_at, cpu_translate, deref, assign, cpu_read8, cpu_write8, cpu_read16,
  cpu_write16, cpu_read32, cpu_write32,
}
use estros.Sim.Invariant.{IsValid}
use estros.Sim.Invariant.Fields.{count_read-IsValid, count_write-IsValid}

module _ {F : Type 0} where
  deref-lt : {sim : Sim F} → IsValid sim → (c : Cell) → deref sim c < 256
  unfolding deref
  deref-lt v (rom_at i) = v.rom i
  deref-lt v (ram_at i) = v.ram i
  deref-lt v (trap_at i) = v.trap_page i

  assign-IsValid :
      {sim : Sim F} → IsValid sim → (c : Cell) {x : ℕ} → x < 256 → IsValid (assign sim c x)
  unfolding assign
  assign-IsValid {sim} v (rom_at i) {x} h = record {
    cpu = v.cpu;
    perf = v.perf;
    trap_page = v.trap_page;
    ram = v.ram;
    rom = update-lt (sim.rom) i x 256 (v.rom) h;
  }
  assign-IsValid {sim} v (ram_at i) {x} h = record {
    cpu = v.cpu;
    perf = v.perf;
    trap_page = v.trap_page;
    ram = update-lt (sim.ram) i x 256 (v.ram) h;
    rom = v.rom;
  }
  assign-IsValid {sim} v (trap_at i) {x} h = record {
    cpu = v.cpu;
    perf = v.perf;
    trap_page = update-lt (sim.trap_page) i x 256 (v.trap_page) h;
    ram = v.ram;
    rom = v.rom;
  }

  -- A read of a value below `bound` that leaves a valid state.
  abbrev pub ReadsBelow : ℕ → ℕ × Sim F → Type 0
  ReadsBelow bound result = (result.0 < bound) × IsValid (result.1)

  pub cpu_read8-ReadsBelow :
      {sim : Sim F} → IsValid sim → (a : ℕ) → ReadsBelow 256 (cpu_read8 sim a)
  unfolding cpu_read8
  cpu_read8-ReadsBelow v a = (deref-lt v (cpu_translate a), count_read-IsValid v)

  pub cpu_write8-IsValid : {sim : Sim F} → IsValid sim → (a x : ℕ) → IsValid (cpu_write8 sim a x)
  unfolding cpu_write8
  cpu_write8-IsValid v a x = assign-IsValid (count_write-IsValid v) (cpu_translate a) (omega arith)

  pub cpu_read16-ReadsBelow :
      {sim : Sim F} → IsValid sim → (a : ℕ) → ReadsBelow (2 ^ 16) (cpu_read16 sim a)
  unfolding cpu_read16
  cpu_read16-ReadsBelow v a =
      let high = cpu_read8-ReadsBelow v (u32 (a + 0)) in
      let low = cpu_read8-ReadsBelow (high.1) (u32 (a + 1)) in
      (bit_or-lt 16 _ _ (omega arith) (omega arith), low.1)

  pub cpu_write16-IsValid : {sim : Sim F} → IsValid sim → (a x : ℕ) → IsValid (cpu_write16 sim a x)
  unfolding cpu_write16
  cpu_write16-IsValid v a x = cpu_write8-IsValid (cpu_write8-IsValid v _ _) _ _

  pub cpu_read32-ReadsBelow :
      {sim : Sim F} → IsValid sim → (a : ℕ) → ReadsBelow (2 ^ 32) (cpu_read32 sim a)
  unfolding cpu_read32
  cpu_read32-ReadsBelow v a =
      let high = cpu_read16-ReadsBelow v (u32 (a + 0)) in
      let low = cpu_read16-ReadsBelow (high.1) (u32 (a + 2)) in
      (bit_or-lt 32 _ _ (omega arith) (omega arith), low.1)

  pub cpu_write32-IsValid : {sim : Sim F} → IsValid sim → (a x : ℕ) → IsValid (cpu_write32 sim a x)
  unfolding cpu_write32
  cpu_write32-IsValid v a x = cpu_write16-IsValid (cpu_write16-IsValid v _ _) _ _
