-- ===== src/Cc/Whole/Lines/Executed.antt =====
-- cc/ and isa/sim.c: proofs on the run of the machine code of `int f(int x, int y) { return a op b; }`.
use estros.Common.{
  ap, ◌∙◌, ℕ, ◌+◌, ◌-◌, ◌*◌, ◌^◌, ◌≡◌, true, Option, none, some, refl, update, u32, u64, bit_and,
  bit_or, bit_xor,
}
use estros.Isa.{inst_table, xm_abi_a0, xm_abi_ra, Mnemonic}
use estros.Sim.State.{
  Sim, Inst, cpue_continue, sim_rom_base, set_pc, set_r, set_flags, add_pc, count_tick, count_read,
  count_jump,
}
use estros.Sim.FloatOps.{FloatOps}
use estros.Sim.Memory.{cpu_read8, cpu_translate, deref}
use estros.Sim.Integer.{
  checked_div, checked_shl, checked_shr, alu_option, alu_result, update_flags,
  cpu_decode_r4x2i8_ifhbs, cpu_exec_add, cpu_exec_sub, cpu_exec_mul, cpu_exec_div, cpu_exec_and,
  cpu_exec_xor, cpu_exec_or, cpu_exec_shl, cpu_exec_shr,
}
use estros.Sim.Control.{cpu_exec_ret}
use estros.Sim.Dispatch.{find_inst, Decoded, found, cpu_match_inst}
use estros.Sim.Exec.{exec}
use estros.Sim.Step.{fetch, run_decoded, load_rom, cpu_step}
use estros.Cc.Ast.{Binop}
use estros.Cc.Whole.{has_level, each_operation}
use estros.Cc.Whole.Lines.Assembled.{function_bytes, opcode}

-- The operations of the language on `unsigned` numbers of 32 bits, where they are defined.
unfoldable pub meaning : Binop → (a b : ℕ) → Option ℕ
meaning Binop.add a b = some (u32 (a + b))
meaning Binop.sub a b = some (u32 (a + 2 ^ 32 - b))
meaning Binop.mul a b = some (u32 (a * b))
meaning Binop.div a b = checked_div a b
meaning Binop.bit_and a b = some (bit_and a b)
meaning Binop.bit_xor a b = some (bit_xor a b)
meaning Binop.bit_or a b = some (bit_or a b)
meaning Binop.lshift a b = checked_shl a b
meaning Binop.rshift a b = checked_shr a b
meaning _ a b = none

abbrev mnemonic : Binop → Mnemonic
mnemonic Binop.add = Mnemonic.add
mnemonic Binop.sub = Mnemonic.sub
mnemonic Binop.mul = Mnemonic.mul
mnemonic Binop.div = Mnemonic.div
mnemonic Binop.bit_and = Mnemonic.and
mnemonic Binop.bit_xor = Mnemonic.xor
mnemonic Binop.bit_or = Mnemonic.or
mnemonic Binop.lshift = Mnemonic.shl
mnemonic _ = Mnemonic.shr

module _ {F D C K : Type 0} (o : FloatOps F D C K) (fuel : ℕ) (sim : Sim F) where
  abbrev pub loaded : Binop → (i j : ℕ) → Sim F
  loaded op i j = load_rom (function_bytes op i j) (set_pc sim sim_rom_base)

  abbrev fetched : Binop → (i j : ℕ) → Sim F
  fetched op i j = (fetch (count_tick (loaded op i j))).1

  abbrev operation_inst : Binop → (i j : ℕ) → Inst
  operation_inst op i j = record { b0 = 0; b1 = (8 + i) * 16; b2 = 8 + j; b3 = opcode op }

  abbrev pub Steps : Binop → (i j : ℕ) → Type 0
  Steps op i j =
      (find_inst inst_table (operation_inst op i j) ≡ found (mnemonic op))
      × (exec o fuel (mnemonic op) (fetched op i j) (operation_inst op i j)
          ≡ alu_option (fetched op i j) 0
              (meaning op (sim.cpu.r (xm_abi_a0 + i)) (u32 (sim.cpu.r (xm_abi_a0 + j) + 0))))

  first_fetched :
      (op : Binop) (i j : ℕ) → (fetch (count_tick (loaded op i j))).0 ≡ operation_inst op i j
  unfolding fetch cpu_read8 count_read count_tick load_rom set_pc cpu_translate deref
  first_fetched op i j = refl

  abbrev pub StepsAll : Binop → Type 0
  StepsAll op = Steps op 0 0 × Steps op 0 1 × Steps op 1 0 × Steps op 1 1

  pub operation_found : (op : Binop) → has_level op ≡ true → StepsAll op
  unfolding fetch cpu_read8 count_read load_rom opcode meaning set_pc count_tick alu_option exec
      find_inst inst_table cpu_match_inst cpu_decode_r4x2i8_ifhbs cpu_exec_add cpu_exec_sub
      cpu_exec_mul cpu_exec_div cpu_exec_and cpu_exec_xor cpu_exec_or cpu_exec_shl cpu_exec_shr
  operation_found = each_operation StepsAll (
    ((refl, refl), (refl, refl), (refl, refl), (refl, refl)),
    ((refl, refl), (refl, refl), (refl, refl), (refl, refl)),
    ((refl, refl), (refl, refl), (refl, refl), (refl, refl)),
    ((refl, refl), (refl, refl), (refl, refl), (refl, refl)),
    ((refl, refl), (refl, refl), (refl, refl), (refl, refl)),
    ((refl, refl), (refl, refl), (refl, refl), (refl, refl)),
    ((refl, refl), (refl, refl), (refl, refl), (refl, refl)),
    ((refl, refl), (refl, refl), (refl, refl), (refl, refl)),
    ((refl, refl), (refl, refl), (refl, refl), (refl, refl)),
  )

  operation_step :
      (op : Binop) (i j : ℕ)
      → Steps op i j
      → cpu_step o fuel (loaded op i j)
        ≡ alu_option
            (fetched op i j)
            0
            (meaning op (sim.cpu.r (xm_abi_a0 + i)) (u32 (sim.cpu.r (xm_abi_a0 + j) + 0)))
  unfolding cpu_step run_decoded
  operation_step op i j (is_found, is_executed) =
      ap (λ (id : Inst). run_decoded o fuel (find_inst inst_table id) (fetched op i j) id)
        (first_fetched op i j)
      ∙ ap (λ (d : Decoded). run_decoded o fuel d (fetched op i j) (operation_inst op i j)) is_found
      ∙ is_executed

  -- The state in front of the return, and the one that is fetched for it.
  abbrev computed : Binop → (i j v : ℕ) → Sim F
  computed op i j v =
      let stored = set_r (fetched op i j) 0 v in add_pc (update_flags stored (stored.cpu.r 0)) 4

  abbrev returning : Binop → (i j v : ℕ) → Sim F
  returning op i j v = (fetch (count_tick (computed op i j v))).1

  abbrev return_inst : Inst
  return_inst = record { b0 = 0; b1 = 0; b2 = 0; b3 = 0x43 }

  second_fetched :
      (op : Binop) (i j v : ℕ) → (fetch (count_tick (computed op i j v))).0 ≡ return_inst
  unfolding fetch cpu_read8 count_read count_tick load_rom set_pc cpu_translate deref add_pc
      update_flags set_r set_flags
  second_fetched op i j v = refl

  return_found : find_inst inst_table return_inst ≡ found Mnemonic.ret
  unfolding find_inst inst_table cpu_match_inst
  return_found = refl

  return_step :
      (op : Binop) (i j v : ℕ)
      → cpu_step o fuel (computed op i j v)
        ≡ cpue_continue
            (count_jump (set_pc (returning op i j v) ((returning op i j v).cpu.r xm_abi_ra)))
  unfolding cpu_step run_decoded exec cpu_exec_ret
  return_step op i j v =
      ap (λ (id : Inst). run_decoded o fuel (find_inst inst_table id) (returning op i j v) id)
        (second_fetched op i j v)
      ∙ ap (λ (d : Decoded). run_decoded o fuel d (returning op i j v) return_inst) return_found

  -- Two steps of the simulator on the machine code at the start of the ROM.
  pub record Returns (first : Sim F) (v : ℕ) : Type 0 where
    pub between : Sim F
    pub after : Sim F
    pub is_first : cpu_step o fuel first ≡ cpue_continue between
    pub is_second : cpu_step o fuel between ≡ cpue_continue after
    pub result : after.cpu.r ≡ update sim.cpu.r 0 v
    pub at : after.cpu.pc ≡ sim.cpu.r xm_abi_ra
    pub same_ram : after.ram ≡ sim.ram
    pub ticks_between : between.perf.ticks ≡ u64 (sim.perf.ticks + 1)
    pub ticks_after : after.perf.ticks ≡ u64 (u64 (sim.perf.ticks + 1) + 1)

  pub code-Returns :
      (op : Binop) (i j v : ℕ)
      → Steps op i j
      → meaning op (sim.cpu.r (xm_abi_a0 + i)) (u32 (sim.cpu.r (xm_abi_a0 + j) + 0)) ≡ some v
      → Returns (loaded op i j) v
  unfolding fetch cpu_read8 count_read count_tick load_rom set_pc add_pc update_flags set_r
      set_flags count_jump alu_option alu_result update
  code-Returns op i j v steps h = record {
    between = computed op i j v;
    after = count_jump (set_pc (returning op i j v) ((returning op i j v).cpu.r xm_abi_ra));
    is_first = operation_step op i j steps ∙ ap (alu_option (fetched op i j) 0) h;
    is_second = return_step op i j v;
    result = refl;
    at = refl;
    same_ram = refl;
    ticks_between = refl;
    ticks_after = refl;
  }
