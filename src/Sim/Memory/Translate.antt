-- ===== src/Sim/Memory/Translate.antt =====
-- isa/sim.c: proofs on cpu_translate.
use native.Mathlib.Decide.{dec_lt}
use estros.Common.{ℕ, ◌+◌, ◌-◌, ◌^◌, ◌<◌, ◌≡◌, ◌≢◌, u32, arith, sym, ap, ◌∙◌}
use estros.Isa.{page_size}
use estros.Sim.State.{sim_ram_size, sim_rom_size}
use estros.Sim.Memory.{Cell, rom_at, ram_at, trap_at, cpu_translate}

-- The index lies in the array.
abbrev pub InBounds : Cell → Type 0
InBounds (rom_at i) = i < sim_rom_size
InBounds (ram_at i) = i < sim_ram_size
InBounds (trap_at i) = i < page_size

-- Every address is translated to a place inside one of the three arrays: no access of the simulated
-- program leaves the simulator's memory.
pub cpu_translate-InBounds : (a : ℕ) → InBounds (cpu_translate a)
unfolding cpu_translate
cpu_translate-InBounds a = ground arith

-- Two different addresses less than a page apart, the wrap at 2^32 included, are translated to
-- different places.
pub cpu_translate-ne :
    (a k : ℕ) → a < 2 ^ 32 → 0 < k → k < page_size → cpu_translate (u32 (a + k)) ≢ cpu_translate a
unfolding cpu_translate
cpu_translate-ne a k h p q = ground arith

offset_split : (a i j : ℕ) → i < j → u32 (a + j) ≡ u32 (u32 (a + i) + (j - i))
offset_split a i j h = omega arith

-- The same for two offsets from one address.
pub cpu_translate-ne_offset :
    (a i j : ℕ)
    → a < 2 ^ 32
    → i < page_size
    → j < page_size
    → i ≢ j
    → cpu_translate (u32 (a + i)) ≢ cpu_translate (u32 (a + j))
cpu_translate-ne_offset a i j h p q ne = elim (dec_lt j i) [
  | yes lt ↦
      rw (offset_split a j i lt)
        (cpu_translate-ne (u32 (a + j)) (i - j) (omega arith) (omega arith) (omega arith))
  | no ge ↦ λ e.
      cpu_translate-ne (u32 (a + i)) (j - i) (omega arith) (omega arith) (omega arith)
        (ap cpu_translate (sym (offset_split a i j (omega arith))) ∙ sym e)
]
