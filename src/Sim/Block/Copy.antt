-- ===== src/Sim/Block/Copy.antt =====
-- isa/sim.c: proofs on the copying loops of memcpy, memmov and memset.
use estros.Common.{ℕ, zero, suc, ◌+◌, ◌-◌, ◌^◌, ◌≤◌, ◌<◌, ◌≡◌, ◌≢◌, ◌∙◌, refl, ap, u8, u32, arith}
use native.Mathlib.Decide.{dec_lt}
use estros.Isa.{page_size}
use estros.Sim.State.{Sim, count_read}
use estros.Sim.Memory.{cpu_translate, cpu_read8, cpu_write8}
use estros.Sim.Memory.Translate.{cpu_translate-ne_offset}
use estros.Sim.Memory.Cells.{byte_at, byte_at-write8_self, byte_at-write8_ne, deref-count_read}
use estros.Sim.Block.{copy8, forward_loop, backward_loop, fill_loop}

module _ {F : Type 0} where
  byte_at-copy8_self :
      (sim : Sim F) (to from : ℕ)
      → byte_at sim from < 256
      → byte_at (copy8 sim to from) to ≡ byte_at sim from
  unfolding copy8 cpu_read8
  byte_at-copy8_self sim to from fits =
      byte_at-write8_self (count_read sim) to (byte_at sim from) ∙ omega arith

  pub byte_at-copy8_ne :
      (sim : Sim F) (to from x : ℕ)
      → cpu_translate x ≢ cpu_translate to
      → byte_at (copy8 sim to from) x ≡ byte_at sim x
  unfolding copy8 cpu_read8
  byte_at-copy8_ne sim to from x ne =
      byte_at-write8_ne (count_read sim) to x (byte_at sim from) ne
      ∙ deref-count_read sim (cpu_translate x)

  -- A place that no round writes keeps its byte.
  pub forward_loop-frame :
      (left i a b x : ℕ) (sim : Sim F)
      → ((j : ℕ) → i ≤ j → j < i + left → cpu_translate x ≢ cpu_translate (u32 (a + j)))
      → byte_at (forward_loop left i a b sim) x ≡ byte_at sim x
  unfolding forward_loop
  forward_loop-frame zero i a b x sim apart = refl
  forward_loop-frame (suc left) i a b x sim apart =
      forward_loop-frame left (i + 1) a b x (copy8 sim (u32 (a + i)) (u32 (b + i)))
        (λ j p q. apart j (omega arith) (omega arith))
      ∙ byte_at-copy8_ne sim (u32 (a + i)) (u32 (b + i)) x (apart i (omega arith) (omega arith))

  -- Where no written place is one that is read, the bytes are copied.
  pub forward_loop-copies :
      (left i a b k : ℕ) (sim : Sim F)
      → a < 2 ^ 32
      → i + left ≤ page_size
      → ((j l : ℕ)
          → j < i + left
          → l < i + left
          → cpu_translate (u32 (b + l)) ≢ cpu_translate (u32 (a + j)))
      → byte_at sim (u32 (b + k)) < 256
      → i ≤ k
      → k < i + left
      → byte_at (forward_loop left i a b sim) (u32 (a + k)) ≡ byte_at sim (u32 (b + k))
  unfolding forward_loop
  forward_loop-copies zero i a b k sim h p apart fits lo hi = absurd (omega arith)
  forward_loop-copies (suc left) i a b k sim h p apart fits lo hi = elim (dec_lt i k) [
    | yes later ↦
        let spared =
          byte_at-copy8_ne sim (u32 (a + i)) (u32 (b + i)) (u32 (b + k))
            (apart i k (omega arith) hi) in
        forward_loop-copies left (i + 1) a b k (copy8 sim (u32 (a + i)) (u32 (b + i))) h
          (omega arith) (λ j l q r. apart j l (omega arith) (omega arith)) (rw spared fits)
          (omega arith) (omega arith)
        ∙ spared
    | no now ↦
        let same : k ≡ i = omega arith in
        rw same (
          forward_loop-frame left (i + 1) a b (u32 (a + i)) (copy8 sim (u32 (a + i)) (u32 (b + i)))
            (λ j q r. cpu_translate-ne_offset a i j h (omega arith) (omega arith) (omega arith))
          ∙ byte_at-copy8_self sim (u32 (a + i)) (u32 (b + i)) (rw same at fits))
  ]

  -- memset: a place that no round writes keeps its byte.
  pub fill_loop-frame :
      (left i a v x : ℕ) (sim : Sim F)
      → ((j : ℕ) → i ≤ j → j < i + left → cpu_translate x ≢ cpu_translate (u32 (a + j)))
      → byte_at (fill_loop left i a v sim) x ≡ byte_at sim x
  unfolding fill_loop
  fill_loop-frame zero i a v x sim apart = refl
  fill_loop-frame (suc left) i a v x sim apart =
      fill_loop-frame left (i + 1) a v x (cpu_write8 sim (u32 (a + i)) v)
        (λ j p q. apart j (omega arith) (omega arith))
      ∙ byte_at-write8_ne sim (u32 (a + i)) x v (apart i (omega arith) (omega arith))

  -- memset: the bytes written are the low byte of the register.
  pub fill_loop-fills :
      (left i a v k : ℕ) (sim : Sim F)
      → a < 2 ^ 32
      → i + left ≤ page_size
      → i ≤ k
      → k < i + left
      → byte_at (fill_loop left i a v sim) (u32 (a + k)) ≡ u8 v
  unfolding fill_loop
  fill_loop-fills zero i a v k sim h p lo hi = absurd (omega arith)
  fill_loop-fills (suc left) i a v k sim h p lo hi = elim (dec_lt i k) [
    | yes later ↦
        fill_loop-fills left (i + 1) a v k (cpu_write8 sim (u32 (a + i)) v) h (omega arith)
          (omega arith) (omega arith)
    | no now ↦
        let same : k ≡ i = omega arith in
        rw same (
          fill_loop-frame left (i + 1) a v (u32 (a + i)) (cpu_write8 sim (u32 (a + i)) v)
            (λ j q r. cpu_translate-ne_offset a i j h (omega arith) (omega arith) (omega arith))
          ∙ byte_at-write8_self sim (u32 (a + i)) v)
  ]

  -- The backward loop at `i` writes the offsets 1 to `c - i`, not 0.
  pub backward_loop-spares_first :
      (left i a b c : ℕ) (sim : Sim F)
      → a < 2 ^ 32
      → i + left ≡ c
      → c < page_size
      → byte_at (backward_loop left i a b c sim) (u32 (a + 0)) ≡ byte_at sim (u32 (a + 0))
  unfolding backward_loop
  backward_loop-spares_first zero i a b c sim h e p = refl
  backward_loop-spares_first (suc left) i a b c sim h e p =
      backward_loop-spares_first left (i + 1) a b c (copy8 sim (target a) (target b)) h
        (omega arith) p
      ∙ byte_at-copy8_ne sim (target a) (target b) (u32 (a + 0))
          (λ q. apart (q ∙ ap cpu_translate at_offset))
    where
      target : ℕ → ℕ
      target x = u32 (u32 (x + c) + 2 ^ 64 - i)

      at_offset : target a ≡ u32 (a + (c - i))
      at_offset = omega arith

      apart : cpu_translate (u32 (a + 0)) ≢ cpu_translate (u32 (a + (c - i)))
      apart = cpu_translate-ne_offset a 0 (c - i) h (omega arith) (omega arith) (omega arith)
