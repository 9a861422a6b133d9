-- ===== src/Sim/Memory/RoundTrip.antt =====
-- isa/sim.c: proofs on reads of 2 and 4 bytes after writes.
use estros.Common.{ℕ, ◌+◌, ◌*◌, ◌/◌, ◌%◌, ◌^◌, ◌<◌, ◌≡◌, ◌≢◌, u8, u16, u32, arith, ap, ◌∙◌}
use estros.Common.Bits.{bit_or_high}
use estros.Isa.{page_size}
use estros.Sim.State.{Sim}
use estros.Sim.Memory.{cpu_read8, cpu_write8, cpu_read16, cpu_write16, cpu_read32, cpu_write32}
use estros.Sim.Word.{cpu_i_bswap}
use estros.Sim.Word.Swap.{bswap_value}
use estros.Sim.Memory.Translate.{cpu_translate-ne_offset}
use estros.Sim.Memory.Cells.{byte_at, byte_at-write8_self, byte_at-write8_ne, deref-count_read}

nested : (a k j : ℕ) → u32 (u32 (a + k) + j) ≡ u32 (a + (k + j))
nested a k j = omega arith

module _ {F : Type 0} where
  -- A write at one offset from `a` spares the other offsets of the page.
  pub byte_at-write8_offset :
      (sim : Sim F) (a i j v : ℕ)
      → a < 2 ^ 32
      → i < page_size
      → j < page_size
      → j ≢ i
      → byte_at (cpu_write8 sim (u32 (a + i)) v) (u32 (a + j)) ≡ byte_at sim (u32 (a + j))
  byte_at-write8_offset sim a i j v h p q ne =
      byte_at-write8_ne sim (u32 (a + i)) (u32 (a + j)) v (cpu_translate-ne_offset a j i h q p ne)

  -- A read changes no byte.
  pub byte_at-read16 : (sim : Sim F) (a b : ℕ) → byte_at ((cpu_read16 sim a).1) b ≡ byte_at sim b
  unfolding cpu_read16 cpu_read8
  byte_at-read16 sim a b = rw (deref-count_read, deref-count_read)

  -- The value that a read of two bytes returns.
  pub read16_value :
      (sim : Sim F) (a b0 b1 : ℕ)
      → byte_at sim (u32 (a + 0)) ≡ b0
      → byte_at sim (u32 (a + 1)) ≡ b1
      → b1 < 256
      → (cpu_read16 sim a).0 ≡ b0 * 256 + b1
  unfolding cpu_read16 cpu_read8
  read16_value sim a b0 b1 e0 e1 fits =
      rw (deref-count_read, e0, e1) (omega (arith, bit_or_high 8 b0 (b1 * 1) (omega arith)))

  -- A read of four bytes, from the values of its two halves.
  read32_halves :
      (sim : Sim F) (a high low : ℕ)
      → (cpu_read16 sim (u32 (a + 0))).0 ≡ high
      → (cpu_read16 ((cpu_read16 sim (u32 (a + 0))).1) (u32 (a + 2))).0 ≡ low
      → low < 2 ^ 16
      → (cpu_read32 sim a).0 ≡ high * 2 ^ 16 + low
  unfolding cpu_read32
  read32_halves sim a high low p q fits =
      rw (p, q) (omega (arith, bit_or_high 16 high (low * 1) (omega arith)))

  pub read32_value :
      (sim : Sim F) (a b0 b1 b2 b3 : ℕ)
      → byte_at sim (u32 (a + 0)) ≡ b0
      → byte_at sim (u32 (a + 1)) ≡ b1
      → byte_at sim (u32 (a + 2)) ≡ b2
      → byte_at sim (u32 (a + 3)) ≡ b3
      → b1 < 256
      → b2 < 256
      → b3 < 256
      → (cpu_read32 sim a).0 ≡ b0 * 2 ^ 24 + b1 * 2 ^ 16 + b2 * 2 ^ 8 + b3
  read32_value sim a b0 b1 b2 b3 e0 e1 e2 e3 f1 f2 f3 =
      read32_halves sim a (b0 * 256 + b1) (b2 * 256 + b3)
        (read16_value sim (u32 (a + 0)) b0 b1 (near a 0 0 ∙ e0) (near a 0 1 ∙ e1) f1)
        (read16_value after (u32 (a + 2)) b2 b3 (spared _ ∙ near a 2 0 ∙ e2)
          (spared _ ∙ near a 2 1 ∙ e3) f3)
        (omega arith)
      ∙ omega arith
    where
      after : Sim F
      after = (cpu_read16 sim (u32 (a + 0))).1

      near : (a k j : ℕ) → byte_at sim (u32 (u32 (a + k) + j)) ≡ byte_at sim (u32 (a + (k + j)))
      near a k j = ap (byte_at sim) (nested a k j)

      spared : (b : ℕ) → byte_at after b ≡ byte_at sim b
      spared b = byte_at-read16 sim (u32 (a + 0)) b

  -- The bytes that a write of two bytes leaves.
  write16_bytes :
      (sim : Sim F) (a v : ℕ)
      → a < 2 ^ 32
      → v < 2 ^ 16
      → (byte_at (cpu_write16 sim a v) (u32 (a + 0)) ≡ v % 256)
        × (byte_at (cpu_write16 sim a v) (u32 (a + 1)) ≡ v / 256)
  unfolding cpu_write16
  write16_bytes sim a v h fits = (
    byte_at-write8_offset _ a 1 0 _ h (omega arith) (omega arith) (omega arith)
        ∙ byte_at-write8_self _ _ _
        ∙ omega arith,
    byte_at-write8_self _ _ _ ∙ omega arith,
  )

  -- At an address of 32 bits, a 16-bit read after the write of a 16-bit value returns the value with
  -- its two bytes exchanged.
  pub cpu_read16-cpu_write16 :
      (sim : Sim F) (a v : ℕ)
      → a < 2 ^ 32
      → v < 2 ^ 16
      → (cpu_read16 (cpu_write16 sim a v) a).0 ≡ v % 256 * 256 + v / 256
  cpu_read16-cpu_write16 sim a v h fits =
      let (low, high) = write16_bytes sim a v h fits in
      read16_value (cpu_write16 sim a v) a (v % 256) (v / 256) low high (omega arith)

  -- A write of four bytes is four writes of a byte, the lowest first.
  abbrev write_bytes : Sim F → (a b0 b1 b2 b3 : ℕ) → Sim F
  write_bytes sim a b0 b1 b2 b3 =
      cpu_write8
        (cpu_write8 (cpu_write8 (cpu_write8 sim (u32 (a + 0)) b0) (u32 (a + 1)) b1) (u32 (a + 2))
          b2)
        (u32 (a + 3)) b3

  write32-eq-write_bytes :
      (sim : Sim F) (a v : ℕ)
      → cpu_write32 sim a v
        ≡ write_bytes sim a
            (u16 (v / 1) / 1)
            (u16 (v / 1) / 256)
            (u16 (v / 65536) / 1)
            (u16 (v / 65536) / 256)
  unfolding cpu_write32 cpu_write16
  write32-eq-write_bytes sim a v = rw (nested a 2 0, nested a 2 1)

  write_bytes_lem :
      (sim : Sim F) (a b0 b1 b2 b3 : ℕ)
      → a < 2 ^ 32
      → (byte_at (write_bytes sim a b0 b1 b2 b3) (u32 (a + 0)) ≡ u8 b0)
        × (byte_at (write_bytes sim a b0 b1 b2 b3) (u32 (a + 1)) ≡ u8 b1)
        × (byte_at (write_bytes sim a b0 b1 b2 b3) (u32 (a + 2)) ≡ u8 b2)
        × (byte_at (write_bytes sim a b0 b1 b2 b3) (u32 (a + 3)) ≡ u8 b3)
  write_bytes_lem sim a b0 b1 b2 b3 h = (
    byte_at-write8_offset _ a 3 0 b3 h (omega arith) (omega arith) (omega arith)
        ∙ byte_at-write8_offset _ a 2 0 b2 h (omega arith) (omega arith) (omega arith)
        ∙ byte_at-write8_offset _ a 1 0 b1 h (omega arith) (omega arith) (omega arith)
        ∙ byte_at-write8_self _ _ _,
    byte_at-write8_offset _ a 3 1 b3 h (omega arith) (omega arith) (omega arith)
        ∙ byte_at-write8_offset _ a 2 1 b2 h (omega arith) (omega arith) (omega arith)
        ∙ byte_at-write8_self _ _ _,
    byte_at-write8_offset _ a 3 2 b3 h (omega arith) (omega arith) (omega arith)
        ∙ byte_at-write8_self _ _ _,
    byte_at-write8_self _ _ _,
  )

  -- At an address of 32 bits, a 32-bit read after the write of a 32-bit value returns the byte-swapped
  -- value.
  pub cpu_read32-cpu_write32 :
      (sim : Sim F) (a v : ℕ)
      → a < 2 ^ 32
      → v < 2 ^ 32
      → (cpu_read32 (cpu_write32 sim a v) a).0 ≡ cpu_i_bswap v
  cpu_read32-cpu_write32 sim a v h fits =
      let (e0, e1, e2, e3) =
        write_bytes_lem sim a (u16 (v / 1) / 1) (u16 (v / 1) / 256) (u16 (v / 65536) / 1)
          (u16 (v / 65536) / 256) h in
      rw (write32-eq-write_bytes sim a v) (
        read32_value _ a _ _ _ _ e0 e1 e2 e3 (omega arith) (omega arith) (omega arith)
        ∙ omega (arith, bswap_value v))
