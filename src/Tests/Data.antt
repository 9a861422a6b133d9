-- ===== src/Tests/Data.antt =====
-- The data that the tests and witnesses share: numbers in place of floating-point values, a machine, a
-- few instructions and a source text.
use estros.Common.{ℕ, List, [], ◌∷◌, ◌++◌, some}
use estros.Common.Strings.{codes}
use estros.Asm.Operand.{OperandType, no_operand, number}
use estros.Asm.Encode.{Operands}
use estros.Common.{ltb, u32, arith, suc, ◌+◌, ◌*◌, ◌-◌, ◌/◌, update, update-lt}
use estros.Sim.State.{Sim, Inst}
use estros.Sim.FloatOps.{FloatOps, FloatLaws}
use estros.Sim.Invariant.{IsValid}
use estros.Sim.Invariant.Results.{IsInst}

abbrev pub source : List ℕ
source =
    codes "start:"
    ++ (10 ∷ codes " add $r1,$r1,7 # seven")
    ++ (10 ∷ codes " bz $r1,start,?!")
    ++ (10 ∷ [])

-- Numbers in place of floating-point values.
abbrev pub whole_ops : FloatOps ℕ ℕ ℕ ℕ
whole_ops = record {
  fadd = λ x y. x + y;
  fsub = λ x y. x - y;
  fmul = λ x y. x * y;
  fdiv = λ x y. x / suc y;
  fgt = λ x y. ltb y x;
  flt = ltb;
  one = 1;
  degrees_180 = 180;
  widen = λ x. x;
  narrow = λ x. x;
  dmul = λ x y. x * y;
  ddiv = λ x y. x / suc y;
  dneg = λ x. x;
  m_pi = 3;
  m_e = 2;
  m_pi_2 = 1;
  fmod = λ x y. x;
  fabs = λ x. x;
  hypotf = λ x y. x + y;
  powf = λ x y. x;
  sqrtf = λ x. x;
  cosf = λ x. x;
  sinf = λ x. x;
  tanf = λ x. x;
  acosf = λ x. x;
  atanf = λ x. x;
  asinf = λ x. x;
  cbrtf = λ x. x;
  y0f = λ x. x;
  y1f = λ x. x;
  j0f = λ x. x;
  j1f = λ x. x;
  expf = λ x. x;
  gammaf = λ x. x;
  lgammaf = λ x. x;
  roundf = λ x. x;
  floorf = λ x. x;
  ceilf = λ x. x;
  signbit = λ x. 0;
  of_int = λ x. x;
  scale_i = λ x. x;
  add_fc = λ x y. x + y;
  add_cf = λ x y. x + y;
  sub_cf = λ x y. x - y;
  div_cf = λ x y. x / suc y;
  mul_cf = λ x y. x * y;
  csqrtf = λ x. x;
  widen_complex = λ x. x;
  creal = λ x. x;
  cimag = λ x. 0;
  to_bits = u32;
  of_bits = λ x. x;
  to_u32 = λ x. some (u32 x);
  of_u32 = λ x. x;
}

pub whole_laws : FloatLaws whole_ops
whole_laws = record { to_bits_lt = λ x. omega arith; to_u32_lt = λ x n e. ground arith }

-- A machine at the first address of its ROM, where `add $r1,$r1,7` stands.
abbrev pub program : ℕ → ℕ
program = update (update (update (update (λ i. 0xff) 0 0) 1 0x11) 2 7) 3 0x80

abbrev pub machine : Sim ℕ
machine = record {
  cpu = record {
    pc = 0x8000;
    flags = 0;
    cr = λ i. 0;
    r = λ i. 0;
    f = λ i. 0;
    v = λ i. (0, 0);
    tile = λ i j. 0;
  };
  opt = 0;
  perf = record { ticks = 0; b_misses = 0; b_taken = 0; jumps = 0; reads = 0; writes = 0 };
  trap_page = λ i. 0;
  ram = λ i. 0;
  rom = program;
}

pub machine-IsValid : IsValid machine
machine-IsValid = record {
  cpu = record { pc = omega arith; flags = omega arith; r = λ i. omega arith };
  perf = record {
    ticks = omega arith;
    b_misses = omega arith;
    b_taken = omega arith;
    jumps = omega arith;
    reads = omega arith;
    writes = omega arith;
  };
  trap_page = λ i. omega arith;
  ram = λ i. omega arith;
  rom = λ i.
      update-lt _ 3 _ 256
        (update-lt _ 2 _ 256
          (update-lt _ 1 _ 256 (update-lt _ 0 _ 256 (λ j. omega arith) (omega arith)) (omega arith))
          (omega arith))
        (omega arith) i;
}

-- `add $r1,$r1,7`.
abbrev pub add_seven : Inst
add_seven = record { b0 = 0; b1 = 0x11; b2 = 7; b3 = 0x80 }

abbrev pub jump_back : Inst
jump_back = record { b0 = 0; b1 = 0; b2 = 0xfc; b3 = 0x51 }

abbrev pub seven_operands : Operands
seven_operands = record {
  op0 = number OperandType.reg 1;
  op1 = number OperandType.reg 1;
  op2 = number OperandType.imm 7;
  op3 = no_operand;
}

pub add_seven-IsInst : IsInst add_seven
add_seven-IsInst = record { b0 = omega arith; b1 = omega arith; b2 = omega arith; b3 = omega arith }
