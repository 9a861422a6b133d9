-- ===== src/Tests/Memory.antt =====
-- The theorems on memory and on block instructions at concrete inputs.
use estros.Sim.Block.{cpu_exec_memchr}
use estros.Sim.Block.Memchr.{memchr_lem}
use estros.Common.{◌≤◌, update-lt, refl}
use estros.Sim.Block.{cpu_exec_strcpy}
use estros.Sim.Block.Strcpy.{strcpy_lem}
use estros.Common.{ℕ, ◌≡◌, ◌≢◌}
use estros.Common.{u32, arith, ◌+◌, ◌<◌, update}
use estros.Sim.State.{Sim, Inst, cpue_continue}
use estros.Sim.Memory.{Cell, rom_at, ram_at, trap_at, deref, cpu_translate, cpu_read32, cpu_write32}
use estros.Sim.Memory.Cells.{byte_at}
use estros.Sim.Memory.Translate.{InBounds, cpu_translate-InBounds, cpu_translate-ne}
use estros.Sim.Memory.RoundTrip.{cpu_read32-cpu_write32}
use estros.Sim.Word.{cpu_i_bswap}
use estros.Sim.Block.{cpu_decode_r4x4, cpu_exec_memcpy, cpu_exec_memset, cpu_exec_memmov}
use estros.Sim.Block.Results.{memcpy_lem, memset_lem, memmov-spares_first}
use estros.Tests.Data.{machine, machine-IsValid}

cpu_translate-InBounds_example : InBounds (cpu_translate 0xf000_0010)
cpu_translate-InBounds_example = cpu_translate-InBounds 0xf000_0010

cpu_translate-ne_example : cpu_translate (u32 (0xffff_ffff + 1)) ≢ cpu_translate 0xffff_ffff
cpu_translate-ne_example = cpu_translate-ne 0xffff_ffff 1 (omega arith) (omega arith) (omega arith)

cpu_read32-cpu_write32_example :
    (cpu_read32 (cpu_write32 machine 0xf000_0000 0x12345678) 0xf000_0000).0 ≡ cpu_i_bswap 0x12345678
cpu_read32-cpu_write32_example =
    cpu_read32-cpu_write32 machine 0xf000_0000 0x12345678 (omega arith) (omega arith)

-- Four bytes of RAM copied to, or filled at, 0xf0000000; `$r2` is 0xf0000100 and `$r3` is 4.
abbrev copier : Sim ℕ
copier = record machine {
  cpu = record (machine.cpu) {
    r = update (update (update (λ i. 0) 1 0xf000_0000) 2 0xf000_0100) 3 4;
  };
}

abbrev copy_four : Inst
copy_four = record { b0 = 0; b1 = 0x10; b2 = 0x32; b3 = 0x20 }

copier-bytes : (i : ℕ) → byte_at copier i < 256
copier-bytes i = elim (cpu_translate i) as (λ (c : Cell). deref copier c < 256) [
  | rom_at j ↦ unfold deref in machine-IsValid.rom j
  | ram_at j ↦ unfold deref in machine-IsValid.ram j
  | trap_at j ↦ unfold deref in machine-IsValid.trap_page j
]

copier-apart :
    (j l : ℕ)
    → j < 4
    → l < 4
    → cpu_translate (u32 (0xf000_0100 + l)) ≢ cpu_translate (u32 (0xf000_0000 + j))
unfolding cpu_translate
copier-apart j l p q = ground arith

memcpy_lem_example :
    (s : Sim ℕ) × (cpu_exec_memcpy copier copy_four ≡ cpue_continue s)
    × ((k : ℕ) → k < 4 → byte_at s (u32 (0xf000_0000 + k)) ≡ byte_at copier (u32 (0xf000_0100 + k)))
    × ((x : ℕ)
        → ((j : ℕ) → j < 4 → cpu_translate x ≢ cpu_translate (u32 (0xf000_0000 + j)))
        → byte_at s x ≡ byte_at copier x)
unfolding cpu_decode_r4x4 update
memcpy_lem_example =
    memcpy_lem copier copy_four (omega arith) (omega arith) copier-bytes copier-apart

memset_lem_example :
    (s : Sim ℕ) × (cpu_exec_memset copier copy_four ≡ cpue_continue s)
    × ((k : ℕ) → k < 4 → byte_at s (u32 (0xf000_0000 + k)) ≡ 0)
    × ((x : ℕ)
        → ((j : ℕ) → j < 4 → cpu_translate x ≢ cpu_translate (u32 (0xf000_0000 + j)))
        → byte_at s x ≡ byte_at copier x)
unfolding cpu_decode_r4x4 update
memset_lem_example = memset_lem copier copy_four (omega arith) (omega arith)

memmov-spares_first_example :
    (s : Sim ℕ) × (cpu_exec_memmov copier copy_four ≡ cpue_continue s)
    × (byte_at s (u32 (0xf000_0000 + 0)) ≡ byte_at copier (u32 (0xf000_0000 + 0)))
unfolding cpu_decode_r4x4 update
memmov-spares_first_example =
    memmov-spares_first copier copy_four (omega arith) (omega arith) (omega arith)

-- The string "A" at the source.
abbrev with_string : Sim ℕ
with_string = record copier { ram = update (λ i. 0) 0x100 65 }

with_string-bytes : (i : ℕ) → byte_at with_string i < 256
with_string-bytes i = elim (cpu_translate i) as (λ (c : Cell). deref with_string c < 256) [
  | rom_at j ↦ unfold deref in machine-IsValid.rom j
  | ram_at j ↦ unfold deref in update-lt _ 0x100 _ 256 (λ k. omega arith) (omega arith) j
  | trap_at j ↦ unfold deref in machine-IsValid.trap_page j
]

with_string-inside : (j : ℕ) → j < 1 → byte_at with_string (u32 (0xf000_0100 + j)) ≢ 0
unfolding cpu_translate deref update
with_string-inside j h =
    let same : j ≡ 0 = omega arith in rw same (λ (e : 65 ≡ 0). absurd (omega (arith, e)))

strcpy_lem_example :
    (s : Sim ℕ) × (cpu_exec_strcpy 64 with_string copy_four ≡ cpue_continue s)
    × ((k : ℕ)
        → k ≤ 1
        → byte_at s (u32 (0xf000_0000 + k)) ≡ byte_at with_string (u32 (0xf000_0100 + k)))
unfolding cpu_decode_r4x4 update cpu_translate deref
strcpy_lem_example =
    strcpy_lem with_string copy_four 1 64 (omega arith) (omega arith) (omega arith)
      with_string-bytes refl with_string-inside
      (λ j l p q. copier-apart j l (omega arith) (omega arith))

-- The search of "A" in four bytes from 0xf0000100.
abbrev searcher : Sim ℕ
searcher = record with_string {
  cpu = record (machine.cpu) { r = update (update (update (λ i. 0) 1 0xf000_0100) 2 65) 3 4 };
}

memchr_lem_example :
    (s : Sim ℕ) × (cpu_exec_memchr searcher copy_four ≡ cpue_continue s)
    × ((k : ℕ) → k < 4 → byte_at searcher (u32 (0xf000_0100 + k)) ≡ 65 → s.cpu.r 0 ≡ 0xf000_0100)
    × (((k : ℕ) → k < 4 → byte_at searcher (u32 (0xf000_0100 + k)) ≢ 65) → s.cpu.r 0 ≡ 0)
unfolding cpu_decode_r4x4 update
memchr_lem_example = memchr_lem searcher copy_four
