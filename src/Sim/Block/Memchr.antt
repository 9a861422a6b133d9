-- ===== src/Sim/Block/Memchr.antt =====
-- isa/sim.c: proofs on memchr.
use estros.Common.{
  ℕ, zero, suc, ◌+◌, ◌≤◌, ◌<◌, ◌≡◌, ◌≢◌, inl, inr, Bool-cases, u32, refl, arith, ◌∙◌, ◌==◌,
  update_self, true, false, sym,
}
use mathlib.Core.Bool.{false≢true}
use native.Mathlib.Decide.{dec_lt}
use estros.Sim.State.{Sim, Inst, cpue_continue, add_pc, set_pc, set_r, count_read}
use estros.Sim.Memory.{cpu_translate, cpu_read8}
use estros.Sim.Memory.Cells.{byte_at, deref-count_read}
use estros.Sim.Block.{cpu_decode_r4x4, search_loop, cpu_exec_memchr}
use estros.Sim.Block.Results.{byte_at-set_r}

equal_true : (x y : ℕ) → x ≡ y → (x == y) ≡ true
equal_true x y h = ground arith

equal_false : (x y : ℕ) → x ≢ y → (x == y) ≡ false
equal_false x y h = ground arith

module _ {F : Type 0} where
  byte_at-count_read : (sim : Sim F) (x : ℕ) → byte_at (count_read sim) x ≡ byte_at sim x
  byte_at-count_read sim x = deref-count_read sim (cpu_translate x)

  search_loop-hit :
      (left i dp a b k : ℕ) (sim : Sim F)
      → i ≤ k
      → k < i + left
      → byte_at sim (u32 (a + k)) ≡ b
      → (search_loop left i dp a b sim).cpu.r dp ≡ a
  unfolding search_loop cpu_read8
  search_loop-hit zero i dp a b k sim low high h = absurd (omega arith)
  search_loop-hit (suc left) i dp a b k sim low high h =
      elim (Bool-cases (byte_at sim (u32 (a + i)) == b)) [
        | inl hit ↦ rw hit (unfold set_r in update_self ((count_read sim).cpu.r) dp a)
        | inr miss ↦ rw miss (elim (dec_lt i k) [
          | yes later ↦
              search_loop-hit left (i + 1) dp a b k (count_read sim) (omega arith) (omega arith)
                (byte_at-count_read sim (u32 (a + k)) ∙ h)
          | no now ↦
              let same : k ≡ i = omega arith in
              let hit = equal_true (byte_at sim (u32 (a + i))) b (rw same at h) in
              absurd (false≢true (sym miss ∙ hit))
        ])
      ]

  search_loop-miss :
      (left i dp a b : ℕ) (sim : Sim F)
      → ((j : ℕ) → i ≤ j → j < i + left → byte_at sim (u32 (a + j)) ≢ b)
      → (search_loop left i dp a b sim).cpu.r dp ≡ sim.cpu.r dp
  unfolding search_loop cpu_read8
  search_loop-miss zero i dp a b sim h = refl
  search_loop-miss (suc left) i dp a b sim h =
      rw (equal_false (byte_at sim (u32 (a + i))) b (h i (omega arith) (omega arith))) (
        search_loop-miss left (i + 1) dp a b (count_read sim) (λ j p q e.
          h j (omega arith) (omega arith) (sym (byte_at-count_read sim (u32 (a + j))) ∙ e))
        ∙ unfold count_read in refl)

  -- memchr continues, and its destination holds the block's address, not the place of the hit, where
  -- some byte of the block is the one that is sought, and 0 where none is.
  pub memchr_lem :
      (sim : Sim F) (id : Inst)
      → (s : Sim F) × (cpu_exec_memchr sim id ≡ cpue_continue s)
        × ((k : ℕ)
            → k < (cpu_decode_r4x4 sim id).c
            → byte_at sim (u32 ((cpu_decode_r4x4 sim id).a + k)) ≡ (cpu_decode_r4x4 sim id).b
            → s.cpu.r ((cpu_decode_r4x4 sim id).dp) ≡ (cpu_decode_r4x4 sim id).a)
        × (((k : ℕ)
              → k < (cpu_decode_r4x4 sim id).c
              → byte_at sim (u32 ((cpu_decode_r4x4 sim id).a + k)) ≢ (cpu_decode_r4x4 sim id).b)
            → s.cpu.r ((cpu_decode_r4x4 sim id).dp) ≡ 0)
  unfolding cpu_exec_memchr
  memchr_lem sim id =
      let ds = cpu_decode_r4x4 sim id in
      let cleared = set_r sim (ds.dp) 0 in
      let searched = search_loop (ds.c) 0 (ds.dp) (ds.a) (ds.b) cleared in
      (
        add_pc searched 4,
        refl,
        λ k lt hit.
            unfold add_pc set_pc in
            search_loop-hit (ds.c) 0 (ds.dp) (ds.a) (ds.b) k cleared (omega arith) (omega arith)
              (byte_at-set_r sim (ds.dp) 0 _ ∙ hit),
        λ none.
            unfold add_pc set_pc in
            (search_loop-miss (ds.c) 0 (ds.dp) (ds.a) (ds.b) cleared
                (λ j p q e. none j (omega arith) (sym (byte_at-set_r sim (ds.dp) 0 _) ∙ e))
              ∙ unfold set_r in update_self (sim.cpu.r) (ds.dp) 0),
      )
