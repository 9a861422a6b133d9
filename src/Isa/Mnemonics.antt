-- ===== src/Isa/Mnemonics.antt =====
-- isa/isa.h, the names of XM_INST_LIST: one constructor for each, in the order of the list.
pub data Mnemonic : Type 0 where
  add sub mul div rem imul and xor or shl shr pcnt clz clo bswap ipcnt stb stw stl stq : Mnemonic
  ldb ldw ldl ldq lea cmp cmpkp memcpy memmov memset memchr memchrf strcpy strcat : Mnemonic
  strpbrk strncpy strncat strchr strnchr indtab indtab8 chtree chtreeunchk jmp jmprel : Mnemonic
  call ret bz b bgzs bgpc bgpcrela bo bgoz bemax bet0 bet1 bet2 bet3 bet4 bet5 bet6 : Mnemonic
  bet7 fadd3 fsub3 fdiv3 fmul3 fmod3 fmadd fmsub fsqrt3 fhyp fnorm fabs fsign fnabs : Mnemonic
  fcos fsin ftan facos fatan fasin fcbrt fy0 fy1 fj0 fj1 fexp frsqrt frcbrt fpow2 fpow3 : Mnemonic
  fmax fmin fclamp finv fconstpi fconste fconstpi2 frad fdeg fsel fsel2 fgamma flgamma : Mnemonic
  fround ffloor fceil faddcrr fsubcrr fdivcrr fmulcrr fsqrtcrr faddcri fsubcri fdivcri : Mnemonic
  fmulcri fsqrtcri fcvti icvtf fcvtri icvtrf halt : Mnemonic
