-- ===== src/Sim/Block/Results.antt =====
-- isa/sim.c: proofs on memcpy, memset and memmov as whole instructions.
use estros.Common.{ℕ, ◌+◌, ◌^◌, ◌≤◌, ◌<◌, ◌≡◌, ◌≢◌, u8, u32, ltb, false, refl, arith, ◌∙◌}
use estros.Isa.{page_size}
use estros.Sim.State.{Sim, Inst, cpue_continue, add_pc, set_pc, set_r}
use estros.Sim.Memory.{Cell, rom_at, ram_at, trap_at, cpu_translate, deref}
use estros.Sim.Memory.Cells.{byte_at}
use estros.Sim.Block.{
  cpu_decode_r4x4, block_result, forward_loop, fill_loop, backward_loop, cpu_exec_memcpy,
  cpu_exec_memset, cpu_exec_memmov, DecodeR4x4,
}
use estros.Sim.Block.Copy.{
  forward_loop-copies, forward_loop-frame, fill_loop-fills, fill_loop-frame,
  backward_loop-spares_first,
}

module _ {F : Type 0} where
  -- The state after a block instruction, whose registers do not touch memory.
  abbrev pub finished : Sim F → DecodeR4x4 → Sim F
  finished sim ds = add_pc (set_r sim (ds.dp) (ds.a)) 4

  pub byte_at-finished :
      (sim : Sim F) (ds : DecodeR4x4) (x : ℕ) → byte_at (finished sim ds) x ≡ byte_at sim x
  unfolding add_pc set_pc set_r deref
  byte_at-finished sim ds x =
      elim (cpu_translate x) as (λ (c : Cell). deref (finished sim ds) c ≡ deref sim c) [
        | rom_at i ↦ refl
        | ram_at i ↦ refl
        | trap_at i ↦ refl
      ]

  pub byte_at-set_r : (sim : Sim F) (i v x : ℕ) → byte_at (set_r sim i v) x ≡ byte_at sim x
  unfolding set_r deref
  byte_at-set_r sim i v x =
      elim (cpu_translate x) as (λ (c : Cell). deref (set_r sim i v) c ≡ deref sim c) [
        | rom_at j ↦ refl
        | ram_at j ↦ refl
        | trap_at j ↦ refl
      ]

  -- memcpy of at most a page, in a memory of bytes, to an address of 32 bits and between places that do
  -- not overlap: the instruction continues, the bytes of the destination are those of the source, and
  -- every other place keeps its byte.
  pub memcpy_lem :
      (sim : Sim F) (id : Inst)
      → (cpu_decode_r4x4 sim id).a < 2 ^ 32
      → (cpu_decode_r4x4 sim id).c ≤ page_size
      → ((i : ℕ) → byte_at sim i < 256)
      → ((j l : ℕ)
          → j < (cpu_decode_r4x4 sim id).c
          → l < (cpu_decode_r4x4 sim id).c
          → cpu_translate (u32 ((cpu_decode_r4x4 sim id).b + l))
            ≢ cpu_translate (u32 ((cpu_decode_r4x4 sim id).a + j)))
      → (s : Sim F) × (cpu_exec_memcpy sim id ≡ cpue_continue s)
        × ((k : ℕ)
            → k < (cpu_decode_r4x4 sim id).c
            → byte_at s (u32 ((cpu_decode_r4x4 sim id).a + k))
              ≡ byte_at sim (u32 ((cpu_decode_r4x4 sim id).b + k)))
        × ((x : ℕ)
            → ((j : ℕ)
                → j < (cpu_decode_r4x4 sim id).c
                → cpu_translate x ≢ cpu_translate (u32 ((cpu_decode_r4x4 sim id).a + j)))
            → byte_at s x ≡ byte_at sim x)
  unfolding cpu_exec_memcpy block_result
  memcpy_lem sim id h p bytes apart =
      let ds = cpu_decode_r4x4 sim id in
      let copied = forward_loop (ds.c) 0 (ds.a) (ds.b) sim in
      (
        finished copied ds,
        refl,
        λ k lt.
            byte_at-finished copied ds _
            ∙ forward_loop-copies (ds.c) 0 (ds.a) (ds.b) k sim h (omega arith)
                (λ j l q r. apart j l (omega arith) (omega arith)) (bytes _) (omega arith)
                (omega arith),
        λ x outside.
            byte_at-finished copied ds x
            ∙ forward_loop-frame (ds.c) 0 (ds.a) (ds.b) x sim (λ j q r. outside j (omega arith)),
      )

  -- memset of at most a page at an address of 32 bits: the instruction continues, every byte of the block is the low byte of
  -- the register, and every other place keeps its byte.
  pub memset_lem :
      (sim : Sim F) (id : Inst)
      → (cpu_decode_r4x4 sim id).a < 2 ^ 32
      → (cpu_decode_r4x4 sim id).c ≤ page_size
      → (s : Sim F) × (cpu_exec_memset sim id ≡ cpue_continue s)
        × ((k : ℕ)
            → k < (cpu_decode_r4x4 sim id).c
            → byte_at s (u32 ((cpu_decode_r4x4 sim id).a + k)) ≡ u8 ((cpu_decode_r4x4 sim id).b))
        × ((x : ℕ)
            → ((j : ℕ)
                → j < (cpu_decode_r4x4 sim id).c
                → cpu_translate x ≢ cpu_translate (u32 ((cpu_decode_r4x4 sim id).a + j)))
            → byte_at s x ≡ byte_at sim x)
  unfolding cpu_exec_memset block_result
  memset_lem sim id h p =
      let ds = cpu_decode_r4x4 sim id in
      let filled = fill_loop (ds.c) 0 (ds.a) (ds.b) sim in
      (
        finished filled ds,
        refl,
        λ k lt.
            byte_at-finished filled ds _
            ∙ fill_loop-fills (ds.c) 0 (ds.a) (ds.b) k sim h (omega arith) (omega arith)
                (omega arith),
        λ x outside.
            byte_at-finished filled ds x
            ∙ fill_loop-frame (ds.c) 0 (ds.a) (ds.b) x sim (λ j q r. outside j (omega arith)),
      )

  -- memmov of less than a page to a destination of 32 bits that is not above its source continues and
  -- leaves the first byte of the destination as it was.
  pub memmov-spares_first :
      (sim : Sim F) (id : Inst)
      → (cpu_decode_r4x4 sim id).a < 2 ^ 32
      → (cpu_decode_r4x4 sim id).c < page_size
      → (cpu_decode_r4x4 sim id).a ≤ (cpu_decode_r4x4 sim id).b
      → (s : Sim F) × (cpu_exec_memmov sim id ≡ cpue_continue s)
        × (byte_at s (u32 ((cpu_decode_r4x4 sim id).a + 0))
            ≡ byte_at sim (u32 ((cpu_decode_r4x4 sim id).a + 0)))
  unfolding cpu_exec_memmov block_result
  memmov-spares_first sim id h p below =
      let ds = cpu_decode_r4x4 sim id in
      let moved = backward_loop (ds.c) 0 (ds.a) (ds.b) (ds.c) sim in
      let up : ltb (ds.b) (ds.a) ≡ false = ground arith in
      (
        finished moved ds,
        rw up refl,
        byte_at-finished moved ds _
            ∙ backward_loop-spares_first (ds.c) 0 (ds.a) (ds.b) (ds.c) sim h (omega arith) p,
      )
