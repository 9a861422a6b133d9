-- ===== src/Sim/Invariant/Results.antt =====
-- Proofs on the invariant: the parts that the integer and float instructions share.
use estros.Common.{ℕ, ◌^◌, ◌<◌, Option, none, some, bit_and, arith, high4}
use estros.Common.Bits.{bit_and-le}
use estros.Sim.State.{Sim, Inst}
use estros.Sim.Integer.{
  cpu_decode_r4x2i8_ifhbs, alu_result, alu_option, checked_div, checked_rem, checked_imul,
  checked_shl, checked_shr,
}
use estros.Sim.Float.{float_result}
use estros.Sim.Word.{cpu_i_clz, cpu_i_clo}
use estros.Sim.Word.Count.{clz-StopsAt, clo-eq-clz}
use estros.Sim.Invariant.{IsValid, Keeps}
use estros.Sim.Invariant.Fields.{add_pc-IsValid, set_r-IsValid, set_f-IsValid, update_flags-IsValid}

-- The bytes of an instruction are bytes.
pub record IsInst (id : Inst) : Type 0 where
  pub b0 : id.b0 < 256
  pub b1 : id.b1 < 256
  pub b2 : id.b2 < 256
  pub b3 : id.b3 < 256

-- A result, where there is one, has 32 bits.
abbrev pub Fits : Option ℕ → Type 0
Fits none = Unit
Fits (some x) = x < 2 ^ 32

pub checked_div-Fits : (a b : ℕ) → a < 2 ^ 32 → Fits (checked_div a b)
unfolding checked_div
checked_div-Fits a b h = ground arith

pub checked_rem-Fits : (a b : ℕ) → a < 2 ^ 32 → Fits (checked_rem a b)
unfolding checked_rem
checked_rem-Fits a b h = ground arith

pub checked_shl-Fits : (a b : ℕ) → Fits (checked_shl a b)
unfolding checked_shl
checked_shl-Fits a b = ground arith

pub checked_shr-Fits : (a b : ℕ) → a < 2 ^ 32 → Fits (checked_shr a b)
unfolding checked_shr
checked_shr-Fits a b h = ground arith

pub checked_imul-Fits : (a b : ℕ) → Fits (checked_imul a b)
unfolding checked_imul
checked_imul-Fits a b = ground arith

pub bit_and-lt : (a b : ℕ) → a < 2 ^ 32 → bit_and a b < 2 ^ 32
bit_and-lt a b h = omega (arith, bit_and-le a b)

pub clz-lt : (v : ℕ) → cpu_i_clz v < 2 ^ 32
clz-lt v = omega (arith, (clz-StopsAt v).1)

pub clo-lt : (v : ℕ) → cpu_i_clo v < 2 ^ 32
clo-lt v = rw (clo-eq-clz v) (clz-lt v)

module _ {F : Type 0} {sim : Sim F} (v : IsValid sim) where
  pub alu_result-Keeps : (dp : ℕ) {x : ℕ} → x < 2 ^ 32 → Keeps (alu_result sim dp x)
  unfolding alu_result
  alu_result-Keeps dp h = add_pc-IsValid (update_flags-IsValid (set_r-IsValid v dp h) _) 4

  pub alu_option-Keeps : (dp : ℕ) (o : Option ℕ) → Fits o → Keeps (alu_option sim dp o)
  unfolding alu_option
  alu_option-Keeps dp none h = tt
  alu_option-Keeps dp (some x) h = alu_result-Keeps dp h

  pub float_result-Keeps : (dp : ℕ) (x : F) → Keeps (float_result sim dp x)
  unfolding float_result
  float_result-Keeps dp x = add_pc-IsValid (set_f-IsValid v dp x) 4

  -- The operands of an integer instruction have 32 bits.
  pub decode_lt :
      {id : Inst}
      → IsInst id
      → ((cpu_decode_r4x2i8_ifhbs sim id).a < 2 ^ 32)
        × ((cpu_decode_r4x2i8_ifhbs sim id).b < 2 ^ 32)
        × ((cpu_decode_r4x2i8_ifhbs sim id).addr < 2 ^ 32)
  unfolding cpu_decode_r4x2i8_ifhbs
  decode_lt {id} i = ground (arith, v.cpu.r (high4 (id.b1)), i.b2)
