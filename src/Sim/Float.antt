-- ===== src/Sim/Float.antt =====
-- isa/sim.c: the float instructions, in the order of the source.
mod Decode
pub mod Arithmetic
pub mod Transform
pub mod Complex
pub mod Convert
pub mod Same
pub use Decode.{DecodeF4x4}
unfoldable pub use Decode.{cpu_decode_f4x4, float_result, cpu_i_maxf, cpu_i_minf, cpu_i_clampf}
unfoldable pub use Decode.{sum3, complex2}
