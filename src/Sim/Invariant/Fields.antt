-- ===== src/Sim/Invariant/Fields.antt =====
-- Proofs on the invariant: the assignments of single fields.
use estros.Common.{ℕ, zero, suc, ◌^◌, ◌<◌, Bool, arith, update-lt, put_bit}
use estros.Sim.State.{
  Cpu, Perf, Sim, set_pc, set_flags, set_r, set_f, add_pc, count_tick, count_jump, count_read,
  count_write, count_taken, count_miss,
}
use estros.Sim.Integer.{update_flags}
use estros.Sim.Invariant.{IsCpu, IsPerf, IsValid}

-- The flags that the code sets are among the lowest three bits.
pub put_bit-lt : (x k : ℕ) (set : Bool) → x < 2 ^ 32 → k < 3 → put_bit x k set < 2 ^ 32
put_bit-lt x zero set h p = ground arith
put_bit-lt x (suc zero) set h p = ground arith
put_bit-lt x (suc (suc zero)) set h p = ground arith
put_bit-lt x (suc (suc (suc k))) set h p = absurd (omega arith)

module _ {F : Type 0} {sim : Sim F} (v : IsValid sim) where
  with_cpu : {c : Cpu F} → IsCpu c → IsValid (record sim { cpu = c })
  with_cpu h = record { cpu = h; perf = v.perf; trap_page = v.trap_page; ram = v.ram; rom = v.rom }

  with_perf : {p : Perf} → IsPerf p → IsValid (record sim { perf = p })
  with_perf h = record { cpu = v.cpu; perf = h; trap_page = v.trap_page; ram = v.ram; rom = v.rom }

  pub set_pc-IsValid : {a : ℕ} → a < 2 ^ 32 → IsValid (set_pc sim a)
  unfolding set_pc
  set_pc-IsValid h = with_cpu (record { pc = h; flags = v.cpu.flags; r = v.cpu.r })

  pub add_pc-IsValid : (n : ℕ) → IsValid (add_pc sim n)
  unfolding add_pc
  add_pc-IsValid n = with_cpu (record { pc = omega arith; flags = v.cpu.flags; r = v.cpu.r })

  pub set_flags-IsValid : {x : ℕ} → x < 2 ^ 32 → IsValid (set_flags sim x)
  unfolding set_flags
  set_flags-IsValid h = with_cpu (record { pc = v.cpu.pc; flags = h; r = v.cpu.r })

  pub set_r-IsValid : (i : ℕ) {x : ℕ} → x < 2 ^ 32 → IsValid (set_r sim i x)
  unfolding set_r
  set_r-IsValid i {x} h = with_cpu (record {
    pc = v.cpu.pc;
    flags = v.cpu.flags;
    r = update-lt (sim.cpu.r) i x (2 ^ 32) (v.cpu.r) h;
  })

  pub set_f-IsValid : (i : ℕ) (x : F) → IsValid (set_f sim i x)
  unfolding set_f
  set_f-IsValid i x = with_cpu (record { pc = v.cpu.pc; flags = v.cpu.flags; r = v.cpu.r })

  pub count_tick-IsValid : IsValid (count_tick sim)
  unfolding count_tick
  count_tick-IsValid = with_perf (omega arith)

  pub count_jump-IsValid : IsValid (count_jump sim)
  unfolding count_jump
  count_jump-IsValid = with_perf (omega arith)

  pub count_read-IsValid : IsValid (count_read sim)
  unfolding count_read
  count_read-IsValid = with_perf (omega arith)

  pub count_write-IsValid : IsValid (count_write sim)
  unfolding count_write
  count_write-IsValid = with_perf (omega arith)

  pub count_taken-IsValid : IsValid (count_taken sim)
  unfolding count_taken
  count_taken-IsValid = with_perf (omega arith)

  pub count_miss-IsValid : IsValid (count_miss sim)
  unfolding count_miss
  count_miss-IsValid = with_perf (omega arith)

  -- The two tests set bits 1 and 0.
  pub update_flags-IsValid : (value : ℕ) → IsValid (update_flags sim value)
  unfolding update_flags
  update_flags-IsValid value =
      set_flags-IsValid
        (put_bit-lt _ 0 _ (put_bit-lt _ 1 _ (v.cpu.flags) (omega arith)) (omega arith))
