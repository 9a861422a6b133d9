-- ===== src/Sim/Integer.antt =====
-- isa/sim.c, lines 571 to 792: the integer instructions, whose operands are two registers and an
-- immediate. `ds.dp` is a pointer into the register file: here it is the register's number.
pub mod Imul
pub mod Flags
use estros.Common.{
  ℕ, ◌+◌, ◌-◌, ◌*◌, ◌/◌, ◌%◌, ◌^◌, Option, none, some, bit_and, bit_or, bit_xor, u8, u16, u32, low4,
  high4, test_bit, put_bit, is_negative, ltb, leb, ◌==◌, if◌then◌else◌,
}
use mathlib.Core.Bool.{xor}
use estros.Isa.{flags_bit_n, flags_bit_z}
use estros.Sim.State.{Sim, Inst, Outcome, cpue_continue, undefined, set_r, set_flags, add_pc}
use estros.Sim.Memory.{cpu_read8, cpu_read16, cpu_read32, cpu_write8, cpu_write16, cpu_write32}
use estros.Sim.Word.{cpu_i_popcount, cpu_i_clz, cpu_i_clo, cpu_i_bswap, cpu_i_add32}

-- `struct cpu_decode_r4x2i8_ifhbs`.
pub record DecodeR4x2i8 : Type 0 where
  pub dp : ℕ
  pub addr : ℕ
  pub a : ℕ
  pub b : ℕ

-- `a / b`, `a % b`, `a << b`, `a >> b` and `(int32_t)a * (int32_t)b`, where C defines them: by a
-- divisor that is not 0, a shift below the width, a product that an `int` can hold.
unfoldable pub checked_div : ℕ → ℕ → Option ℕ
checked_div a b = if b == 0 then none else some (a / b)

unfoldable pub checked_rem : ℕ → ℕ → Option ℕ
checked_rem a b = if b == 0 then none else some (a % b)

unfoldable pub checked_shl : ℕ → ℕ → Option ℕ
checked_shl a b = if ltb b 32 then some (u32 (a * 2 ^ b)) else none

unfoldable pub checked_shr : ℕ → ℕ → Option ℕ
checked_shr a b = if ltb b 32 then some (a / 2 ^ b) else none

-- The absolute value of the `int` that a pattern stands for.
abbrev pub magnitude : ℕ → ℕ
magnitude w = if is_negative w then 2 ^ 32 - w else w

-- A negative product may reach -2^31, any other stays below 2^31.
unfoldable pub checked_imul : ℕ → ℕ → Option ℕ
checked_imul a b =
    let product = magnitude a * magnitude b in
    if xor (is_negative a) (is_negative b)
    then if leb product (2 ^ 31) then some (u32 (2 ^ 32 - product)) else none
    else if ltb product (2 ^ 31)
    then some product
    else none

module _ {F : Type 0} where
  unfoldable pub cpu_decode_r4x2i8_ifhbs : Sim F → Inst → DecodeR4x2i8
  cpu_decode_r4x2i8_ifhbs sim id =
      let ra = sim.cpu.r (high4 (id.b1)) in
      let rb = sim.cpu.r (low4 (id.b2)) in
      let imm = high4 (id.b2) in
      if test_bit (id.b3) 7
      then record { dp = low4 (id.b1); addr = u32 (ra + id.b2 * 4); a = ra; b = id.b2 }
      else record {
        dp = low4 (id.b1);
        addr = u32 (ra + u32 (u32 (rb * imm) * 4));
        a = ra;
        b = u32 (rb + imm);
      }

  -- `flags` with FLAGS_BIT_Z and FLAGS_BIT_N set as the value says.
  unfoldable pub update_flags : Sim F → ℕ → Sim F
  update_flags sim value =
      set_flags sim
        (put_bit (put_bit (sim.cpu.flags) flags_bit_z (value == 0)) flags_bit_n (is_negative value))

  -- The last lines of an arithmetic instruction: `*ds.dp = value`, CPU_ALU_UPDATE_FLAGS(*ds.dp),
  -- `pc += 4`.
  unfoldable pub alu_result : Sim F → ℕ → ℕ → Outcome F
  alu_result sim dp value =
      let stored = set_r sim dp value in
      cpue_continue (add_pc (update_flags stored (stored.cpu.r dp)) 4)

  -- The same where the value may be undefined.
  unfoldable pub alu_option : Sim F → ℕ → Option ℕ → Outcome F
  alu_option sim dp none = undefined
  alu_option sim dp (some value) = alu_result sim dp value

  unfoldable pub cpu_exec_add : Sim F → Inst → Outcome F
  cpu_exec_add sim id =
      let ds = cpu_decode_r4x2i8_ifhbs sim id in alu_result sim (ds.dp) (u32 (ds.a + ds.b))

  unfoldable pub cpu_exec_sub : Sim F → Inst → Outcome F
  cpu_exec_sub sim id =
      let ds = cpu_decode_r4x2i8_ifhbs sim id in alu_result sim (ds.dp) (u32 (ds.a + 2 ^ 32 - ds.b))

  unfoldable pub cpu_exec_mul : Sim F → Inst → Outcome F
  cpu_exec_mul sim id =
      let ds = cpu_decode_r4x2i8_ifhbs sim id in alu_result sim (ds.dp) (u32 (ds.a * ds.b))

  unfoldable pub cpu_exec_div : Sim F → Inst → Outcome F
  cpu_exec_div sim id =
      let ds = cpu_decode_r4x2i8_ifhbs sim id in alu_option sim (ds.dp) (checked_div (ds.a) (ds.b))

  unfoldable pub cpu_exec_rem : Sim F → Inst → Outcome F
  cpu_exec_rem sim id =
      let ds = cpu_decode_r4x2i8_ifhbs sim id in alu_option sim (ds.dp) (checked_rem (ds.a) (ds.b))

  unfoldable pub cpu_exec_imul : Sim F → Inst → Outcome F
  cpu_exec_imul sim id =
      let ds = cpu_decode_r4x2i8_ifhbs sim id in alu_option sim (ds.dp) (checked_imul (ds.a) (ds.b))

  unfoldable pub cpu_exec_and : Sim F → Inst → Outcome F
  cpu_exec_and sim id =
      let ds = cpu_decode_r4x2i8_ifhbs sim id in alu_result sim (ds.dp) (bit_and (ds.a) (ds.b))

  unfoldable pub cpu_exec_xor : Sim F → Inst → Outcome F
  cpu_exec_xor sim id =
      let ds = cpu_decode_r4x2i8_ifhbs sim id in alu_result sim (ds.dp) (bit_xor (ds.a) (ds.b))

  unfoldable pub cpu_exec_or : Sim F → Inst → Outcome F
  cpu_exec_or sim id =
      let ds = cpu_decode_r4x2i8_ifhbs sim id in alu_result sim (ds.dp) (bit_or (ds.a) (ds.b))

  unfoldable pub cpu_exec_shl : Sim F → Inst → Outcome F
  cpu_exec_shl sim id =
      let ds = cpu_decode_r4x2i8_ifhbs sim id in alu_option sim (ds.dp) (checked_shl (ds.a) (ds.b))

  unfoldable pub cpu_exec_shr : Sim F → Inst → Outcome F
  cpu_exec_shr sim id =
      let ds = cpu_decode_r4x2i8_ifhbs sim id in alu_option sim (ds.dp) (checked_shr (ds.a) (ds.b))

  unfoldable pub cpu_exec_pcnt : Sim F → Inst → Outcome F
  cpu_exec_pcnt sim id =
      let ds = cpu_decode_r4x2i8_ifhbs sim id in
      alu_result sim (ds.dp) (cpu_i_popcount (u32 (ds.a + ds.b)))

  unfoldable pub cpu_exec_clz : Sim F → Inst → Outcome F
  cpu_exec_clz sim id =
      let ds = cpu_decode_r4x2i8_ifhbs sim id in
      alu_result sim (ds.dp) (cpu_i_clz (u32 (ds.a + ds.b)))

  unfoldable pub cpu_exec_clo : Sim F → Inst → Outcome F
  cpu_exec_clo sim id =
      let ds = cpu_decode_r4x2i8_ifhbs sim id in
      alu_result sim (ds.dp) (cpu_i_clo (u32 (ds.a + ds.b)))

  unfoldable pub cpu_exec_bswap : Sim F → Inst → Outcome F
  cpu_exec_bswap sim id =
      let ds = cpu_decode_r4x2i8_ifhbs sim id in
      alu_result sim (ds.dp) (cpu_i_bswap (u32 (ds.a + ds.b)))

  unfoldable pub cpu_exec_ipcnt : Sim F → Inst → Outcome F
  cpu_exec_ipcnt sim id =
      let ds = cpu_decode_r4x2i8_ifhbs sim id in
      alu_result sim (ds.dp) (u32 (32 + 2 ^ 32 - cpu_i_popcount (u32 (ds.a + ds.b))))

  unfoldable pub cpu_exec_stb : Sim F → Inst → Outcome F
  cpu_exec_stb sim id =
      let ds = cpu_decode_r4x2i8_ifhbs sim id in
      cpue_continue (add_pc (cpu_write8 sim (ds.addr) (u8 (sim.cpu.r (ds.dp)))) 4)

  unfoldable pub cpu_exec_stw : Sim F → Inst → Outcome F
  cpu_exec_stw sim id =
      let ds = cpu_decode_r4x2i8_ifhbs sim id in
      cpue_continue (add_pc (cpu_write16 sim (ds.addr) (u16 (sim.cpu.r (ds.dp)))) 4)

  unfoldable pub cpu_exec_stl : Sim F → Inst → Outcome F
  cpu_exec_stl sim id =
      let ds = cpu_decode_r4x2i8_ifhbs sim id in
      cpue_continue (add_pc (cpu_write32 sim (ds.addr) (sim.cpu.r (ds.dp))) 4)

  unfoldable pub cpu_exec_stq : Sim F → Inst → Outcome F
  cpu_exec_stq sim id =
      let ds = cpu_decode_r4x2i8_ifhbs sim id in
      cpue_continue (add_pc (cpu_write32 sim (ds.addr) (sim.cpu.r (ds.dp))) 4)

  unfoldable pub cpu_exec_ldb : Sim F → Inst → Outcome F
  cpu_exec_ldb sim id =
      let ds = cpu_decode_r4x2i8_ifhbs sim id in
      let (value, after) = cpu_read8 sim (ds.addr) in
      cpue_continue (add_pc (set_r after (ds.dp) value) 4)

  unfoldable pub cpu_exec_ldw : Sim F → Inst → Outcome F
  cpu_exec_ldw sim id =
      let ds = cpu_decode_r4x2i8_ifhbs sim id in
      let (value, after) = cpu_read16 sim (ds.addr) in
      cpue_continue (add_pc (set_r after (ds.dp) value) 4)

  unfoldable pub cpu_exec_ldl : Sim F → Inst → Outcome F
  cpu_exec_ldl sim id =
      let ds = cpu_decode_r4x2i8_ifhbs sim id in
      let (value, after) = cpu_read32 sim (ds.addr) in
      cpue_continue (add_pc (set_r after (ds.dp) value) 4)

  unfoldable pub cpu_exec_ldq : Sim F → Inst → Outcome F
  cpu_exec_ldq sim id =
      let ds = cpu_decode_r4x2i8_ifhbs sim id in
      let (value, after) = cpu_read32 sim (ds.addr) in
      cpue_continue (add_pc (set_r after (ds.dp) value) 4)

  unfoldable pub cpu_exec_lea : Sim F → Inst → Outcome F
  cpu_exec_lea sim id =
      let ds = cpu_decode_r4x2i8_ifhbs sim id in
      cpue_continue (add_pc (set_r sim (ds.dp) (ds.addr)) 4)

  -- Defined, but in no entry of XM_INST_LIST.
  unfoldable pub cpu_exec_mcopy : Sim F → Inst → Outcome F
  cpu_exec_mcopy sim id = cpue_continue (add_pc sim 4)

  unfoldable pub cpu_exec_cmp : Sim F → Inst → Outcome F
  cpu_exec_cmp sim id =
      let ds = cpu_decode_r4x2i8_ifhbs sim id in
      let (r, added) = cpu_i_add32 sim (ds.a) (ds.b) in
      let compared = update_flags added r in
      cpue_continue (add_pc (set_r compared (ds.dp) (compared.cpu.flags)) 4)

  unfoldable pub cpu_exec_cmpkp : Sim F → Inst → Outcome F
  cpu_exec_cmpkp sim id =
      let ds = cpu_decode_r4x2i8_ifhbs sim id in
      let old_flags = sim.cpu.flags in
      let (r, added) = cpu_i_add32 sim (ds.a) (ds.b) in
      let compared = update_flags added r in
      let stored = set_r compared (ds.dp) (compared.cpu.flags) in
      cpue_continue (add_pc (set_flags stored old_flags) 4)
