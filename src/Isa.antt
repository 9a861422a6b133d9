-- ===== src/Isa.antt =====
-- isa/isa.h: what the assembler, the disassembler and the simulator share. `Formats` has the
-- instruction formats and control-byte classes, `Mnemonics` and `Table` the list of instructions;
-- here are the constants.
mod Formats
mod Mnemonics
mod Table
pub use Formats.{Format, Cb0, is_ifhbs}
unfoldable pub use Formats.{get_cb0_from_format}
pub use Mnemonics.{Mnemonic}
pub use Table.{Entry}
unfoldable pub use Table.{integer_insts, float_insts, debug_insts, inst_table}
use estros.Common.{ℕ}

abbrev pub page_size : ℕ
page_size = 8192

-- The positions of FLAGS_BIT_N, FLAGS_BIT_Z and FLAGS_BIT_C.
abbrev pub flags_bit_n : ℕ
flags_bit_n = 0

abbrev pub flags_bit_z : ℕ
flags_bit_z = 1

abbrev pub flags_bit_c : ℕ
flags_bit_c = 2

-- The register numbers of the ABI that the code names; `$t0` to `$t7` are 0 to 7.
abbrev pub xm_abi_t0 : ℕ
xm_abi_t0 = 0

abbrev pub xm_abi_a0 : ℕ
xm_abi_a0 = 8

abbrev pub xm_abi_a1 : ℕ
xm_abi_a1 = 9

abbrev pub xm_abi_a2 : ℕ
xm_abi_a2 = 10

abbrev pub xm_abi_a3 : ℕ
xm_abi_a3 = 11

abbrev pub xm_abi_ra : ℕ
xm_abi_ra = 12

abbrev pub xm_abi_bp : ℕ
xm_abi_bp = 13

abbrev pub xm_abi_sp : ℕ
xm_abi_sp = 14

abbrev pub xm_abi_tp : ℕ
xm_abi_tp = 15
