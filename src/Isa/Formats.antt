-- ===== src/Isa/Formats.antt =====
-- isa/isa.h: enum xm_cb0, enum xm_inst_format and xm_get_cb0_from_format.
use estros.Common.{Bool, true, false}

-- The first four bits of the first instruction byte.
pub data Cb0 : Type 0 where
  integer float control vector tile extension_5 extension_6 extension_7 extension_8 : Cb0
  extension_9 extension_10 extension_11 extension_12 extension_13 extension_14 debug : Cb0

pub data Format : Type 0 where
  r4r4r4i4o8 r4r4i8o8 r4r4i8o8_ifhbs r4r4r4r4 aa16o8 ra16o8 r4u4ra8o8 r8r8ra8o8 u16o8 : Format
  f4f4f4f4 r4f4f4f4 d8 : Format

-- `format == XM_FORMAT_R4R4I8O8_IFHBS`.
abbrev pub is_ifhbs : Format → Bool
is_ifhbs Format.r4r4i8o8_ifhbs = true
is_ifhbs _ = false

unfoldable pub get_cb0_from_format : Format → Cb0
get_cb0_from_format Format.f4f4f4f4 = Cb0.float
get_cb0_from_format Format.r4f4f4f4 = Cb0.float
get_cb0_from_format Format.d8 = Cb0.debug
get_cb0_from_format _ = Cb0.integer
