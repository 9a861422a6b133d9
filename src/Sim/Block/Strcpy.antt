-- ===== src/Sim/Block/Strcpy.antt =====
-- isa/sim.c: proofs on strcpy.
use estros.Common.{
  ℕ, zero, suc, ◌+◌, ◌^◌, ◌≤◌, ◌<◌, ◌≡◌, ◌≢◌, some, u32, refl, arith, ap, sym, ◌∙◌, ◌==◌, true,
  false,
}
use estros.Isa.{page_size}
use estros.Sim.State.{Sim, Inst, cpue_continue}
use estros.Sim.Memory.{cpu_translate, cpu_read8}
use estros.Sim.Memory.Cells.{byte_at}
use estros.Sim.Block.{
  cpu_decode_r4x4, block_result, copy8, forward_loop, strcpy_loop, strcpy_result, cpu_exec_strcpy,
}
use estros.Sim.Block.Copy.{byte_at-copy8_ne, forward_loop-copies}
use estros.Sim.Block.Results.{finished, byte_at-finished}

is_zero : (c : ℕ) → c ≡ 0 → (c == 0) ≡ true
is_zero c h = ground arith

is_nonzero : (c : ℕ) → c ≢ 0 → (c == 0) ≡ false
is_nonzero c h = ground arith

module _ {F : Type 0} where
  -- With the terminator `left` places ahead and no written place among those that are read, the loop
  -- is the copying of `left + 1` bytes.
  strcpy_loop-eq-forward_loop :
      (left fuel i a b : ℕ) (sim : Sim F)
      → left < fuel
      → byte_at sim (u32 (b + (i + left))) ≡ 0
      → ((j : ℕ) → i ≤ j → j < i + left → byte_at sim (u32 (b + j)) ≢ 0)
      → ((j l : ℕ)
          → j < i + suc left
          → l < i + suc left
          → cpu_translate (u32 (b + l)) ≢ cpu_translate (u32 (a + j)))
      → strcpy_loop fuel i a b sim ≡ some (forward_loop (suc left) i a b sim)
  unfolding strcpy_loop forward_loop copy8 cpu_read8
  strcpy_loop-eq-forward_loop left zero i a b sim enough ends inside apart = absurd (omega arith)
  strcpy_loop-eq-forward_loop zero (suc fuel) i a b sim enough ends inside apart =
      let here : i + 0 ≡ i = omega arith in
      rw (is_zero (byte_at sim (u32 (b + i))) (rw here at ends)) refl
  strcpy_loop-eq-forward_loop (suc left) (suc fuel) i a b sim enough ends inside apart =
      let next : i + 1 + left ≡ i + suc left = omega arith in
      let kept : (l : ℕ)
          → l < i + suc (suc left)
          → byte_at (copy8 sim (u32 (a + i)) (u32 (b + i))) (u32 (b + l))
            ≡ byte_at sim (u32 (b + l)) =
        λ l q.
          byte_at-copy8_ne sim (u32 (a + i)) (u32 (b + i)) (u32 (b + l))
            (apart i l (omega arith) q) in
      rw (is_nonzero (byte_at sim (u32 (b + i))) (inside i (omega arith) (omega arith))) (
        strcpy_loop-eq-forward_loop left fuel (i + 1) a b (copy8 sim (u32 (a + i)) (u32 (b + i)))
          (omega arith) (rw next (kept (i + suc left) (omega arith) ∙ ends))
          (λ j p q e. inside j (omega arith) (omega arith) (sym (kept j (omega arith)) ∙ e))
          (λ j l p q. apart j l (omega arith) (omega arith)))

  -- strcpy of a string of `n` bytes, less than a page, to an address of 32 bits, in a memory of bytes
  -- and between places that do not overlap, with fuel above `n`: the instruction continues, and the
  -- string is copied with its terminator.
  pub strcpy_lem :
      (sim : Sim F) (id : Inst) (n fuel : ℕ)
      → n < fuel
      → n < page_size
      → (cpu_decode_r4x4 sim id).a < 2 ^ 32
      → ((i : ℕ) → byte_at sim i < 256)
      → byte_at sim (u32 ((cpu_decode_r4x4 sim id).b + n)) ≡ 0
      → ((j : ℕ) → j < n → byte_at sim (u32 ((cpu_decode_r4x4 sim id).b + j)) ≢ 0)
      → ((j l : ℕ)
          → j ≤ n
          → l ≤ n
          → cpu_translate (u32 ((cpu_decode_r4x4 sim id).b + l))
            ≢ cpu_translate (u32 ((cpu_decode_r4x4 sim id).a + j)))
      → (s : Sim F) × (cpu_exec_strcpy fuel sim id ≡ cpue_continue s)
        × ((k : ℕ)
            → k ≤ n
            → byte_at s (u32 ((cpu_decode_r4x4 sim id).a + k))
              ≡ byte_at sim (u32 ((cpu_decode_r4x4 sim id).b + k)))
  unfolding cpu_exec_strcpy strcpy_result block_result
  strcpy_lem sim id n fuel enough short h bytes ends inside apart =
      let ds = cpu_decode_r4x4 sim id in
      let copied = forward_loop (suc n) 0 (ds.a) (ds.b) sim in
      let start : 0 + n ≡ n = omega arith in
      (
        finished copied ds,
        ap (strcpy_result ds) (
            strcpy_loop-eq-forward_loop n fuel 0 (ds.a) (ds.b) sim enough (rw start ends)
              (λ j p q. inside j (omega arith)) (λ j l p q. apart j l (omega arith) (omega arith))),
        λ k lt.
            byte_at-finished copied ds _
            ∙ forward_loop-copies (suc n) 0 (ds.a) (ds.b) k sim h (omega arith)
                (λ j l q r. apart j l (omega arith) (omega arith)) (bytes _) (omega arith)
                (omega arith),
      )
