-- ===== src/Sim/FloatOps.antt =====
-- The floating-point arithmetic of C and libm, which the simulator only calls: a parameter.
-- `F` is `float`, `D` is `double`, `C` is `float complex` and `K` is `double complex`.
use estros.Common.{ℕ, ◌^◌, ◌<◌, ◌≡◌, Bool, Option, some}

pub record FloatOps (F D C K : Type 0) : Type 0 where
  -- `+ - * /` and the comparisons on `float`, and the constants `1.f` and `180.f`.
  pub fadd : F → F → F
  pub fsub : F → F → F
  pub fmul : F → F → F
  pub fdiv : F → F → F
  pub fgt : F → F → Bool
  pub flt : F → F → Bool
  pub one : F
  pub degrees_180 : F
  -- The conversions between the types.
  pub widen : F → D
  pub narrow : D → F
  -- `* / -` on `double`, and the constants of math.h.
  pub dmul : D → D → D
  pub ddiv : D → D → D
  pub dneg : D → D
  pub m_pi : D
  pub m_e : D
  pub m_pi_2 : D
  -- math.h.
  pub fmod : D → D → D
  pub fabs : D → D
  pub hypotf : F → F → F
  pub powf : F → F → F
  pub sqrtf : F → F
  pub cosf : F → F
  pub sinf : F → F
  pub tanf : F → F
  pub acosf : F → F
  pub atanf : F → F
  pub asinf : F → F
  pub cbrtf : F → F
  pub y0f : F → F
  pub y1f : F → F
  pub j0f : F → F
  pub j1f : F → F
  pub expf : F → F
  pub gammaf : F → F
  pub lgammaf : F → F
  pub roundf : F → F
  pub floorf : F → F
  pub ceilf : F → F
  -- The `int` of signbit, as a pattern of 32 bits, and the conversion of such an `int`.
  pub signbit : F → ℕ
  pub of_int : ℕ → F
  -- complex.h: `x * I`, `x + z`, `z + x`, `z - x`, `z / x`, `z * x`.
  pub scale_i : F → C
  pub add_fc : F → C → C
  pub add_cf : C → F → C
  pub sub_cf : C → F → C
  pub div_cf : C → F → C
  pub mul_cf : C → F → C
  pub csqrtf : C → C
  pub widen_complex : C → K
  pub creal : K → D
  pub cimag : K → D
  -- The 32 bits of a `float`, read and written through a pointer cast.
  pub to_bits : F → ℕ
  pub of_bits : ℕ → F
  -- The conversions with `uint32_t`; that from `float` is undefined out of range.
  pub to_u32 : F → Option ℕ
  pub of_u32 : ℕ → F

-- What the C standard says of the conversions: their results have 32 bits.
pub record FloatLaws {F D C K : Type 0} (ops : FloatOps F D C K) : Type 0 where
  pub to_bits_lt : (x : F) → ops.to_bits x < 2 ^ 32
  pub to_u32_lt : (x : F) (n : ℕ) → ops.to_u32 x ≡ some n → n < 2 ^ 32
