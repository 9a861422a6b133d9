-- ===== src/Sim/Memory/Cells.antt =====
-- isa/sim.c: proofs on a read of a byte after a write.
use estros.Common.{ℕ, ◌≡◌, ◌≢◌, refl, ap, u8, update_self, update-ne}
use estros.Sim.State.{Sim, count_read, count_write}
use estros.Sim.Memory.{Cell, rom_at, ram_at, trap_at, cpu_translate, deref, assign, cpu_write8}

module _ {F : Type 0} where
  pub deref-assign_self : (sim : Sim F) (c : Cell) (v : ℕ) → deref (assign sim c v) c ≡ v
  unfolding deref assign
  deref-assign_self sim (rom_at i) v = update_self (sim.rom) i v
  deref-assign_self sim (ram_at i) v = update_self (sim.ram) i v
  deref-assign_self sim (trap_at i) v = update_self (sim.trap_page) i v

  pub deref-assign_ne :
      (sim : Sim F) (c d : Cell) (v : ℕ) → d ≢ c → deref (assign sim c v) d ≡ deref sim d
  unfolding deref assign
  deref-assign_ne sim (rom_at i) (rom_at j) v ne = update-ne (sim.rom) i v j (λ e. ne (ap rom_at e))
  deref-assign_ne sim (rom_at i) (ram_at j) v ne = refl
  deref-assign_ne sim (rom_at i) (trap_at j) v ne = refl
  deref-assign_ne sim (ram_at i) (rom_at j) v ne = refl
  deref-assign_ne sim (ram_at i) (ram_at j) v ne = update-ne (sim.ram) i v j (λ e. ne (ap ram_at e))
  deref-assign_ne sim (ram_at i) (trap_at j) v ne = refl
  deref-assign_ne sim (trap_at i) (rom_at j) v ne = refl
  deref-assign_ne sim (trap_at i) (ram_at j) v ne = refl
  deref-assign_ne sim (trap_at i) (trap_at j) v ne =
      update-ne (sim.trap_page) i v j (λ e. ne (ap trap_at e))

  -- The byte that a read at an address returns.
  abbrev pub byte_at : Sim F → ℕ → ℕ
  byte_at sim a = deref sim (cpu_translate a)

  pub byte_at-write8_self : (sim : Sim F) (a v : ℕ) → byte_at (cpu_write8 sim a v) a ≡ u8 v
  unfolding cpu_write8
  byte_at-write8_self sim a v = deref-assign_self (count_write sim) (cpu_translate a) (u8 v)

  deref-count_write : (sim : Sim F) (c : Cell) → deref (count_write sim) c ≡ deref sim c
  unfolding deref count_write
  deref-count_write sim (rom_at i) = refl
  deref-count_write sim (ram_at i) = refl
  deref-count_write sim (trap_at i) = refl

  pub deref-count_read : (sim : Sim F) (c : Cell) → deref (count_read sim) c ≡ deref sim c
  unfolding deref count_read
  deref-count_read sim (rom_at i) = refl
  deref-count_read sim (ram_at i) = refl
  deref-count_read sim (trap_at i) = refl

  pub byte_at-write8_ne :
      (sim : Sim F) (a b v : ℕ)
      → cpu_translate b ≢ cpu_translate a
      → byte_at (cpu_write8 sim a v) b ≡ byte_at sim b
  unfolding cpu_write8
  byte_at-write8_ne sim a b v ne =
      rw (deref-assign_ne (count_write sim) (cpu_translate a) (cpu_translate b) (u8 v) ne)
        (deref-count_write sim (cpu_translate b))
