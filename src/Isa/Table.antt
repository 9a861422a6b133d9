-- ===== src/Isa/Table.antt =====
-- isa/isa.h, XM_INST_LIST and xm_inst_table: the entries in the order of the source, which the
-- assembler, the disassembler and the simulator each search from the front.
use Prim.Native.String.{String}
use estros.Common.{ℕ, List, [], ◌∷◌, ◌++◌}
use estros.Isa.Formats.{Format}
use estros.Isa.Mnemonics.{Mnemonic}

pub record Entry : Type 0 where
  pub inst : Mnemonic
  pub name : String
  pub format : Format
  pub op : ℕ

abbrev elem : Mnemonic → String → Format → ℕ → Entry
elem i n f o = record { inst = i; name = n; format = f; op = o }

unfoldable pub integer_insts : List Entry
integer_insts =
    elem Mnemonic.add "add" Format.r4r4i8o8_ifhbs 0x00
    ∷ elem Mnemonic.sub "sub" Format.r4r4i8o8_ifhbs 0x01
    ∷ elem Mnemonic.mul "mul" Format.r4r4i8o8_ifhbs 0x02
    ∷ elem Mnemonic.div "div" Format.r4r4i8o8_ifhbs 0x03
    ∷ elem Mnemonic.rem "rem" Format.r4r4i8o8_ifhbs 0x04
    ∷ elem Mnemonic.imul "imul" Format.r4r4i8o8_ifhbs 0x05
    ∷ elem Mnemonic.and "and" Format.r4r4i8o8_ifhbs 0x06
    ∷ elem Mnemonic.xor "xor" Format.r4r4i8o8_ifhbs 0x07
    ∷ elem Mnemonic.or "or" Format.r4r4i8o8_ifhbs 0x08
    ∷ elem Mnemonic.shl "shl" Format.r4r4i8o8_ifhbs 0x09
    ∷ elem Mnemonic.shr "shr" Format.r4r4i8o8_ifhbs 0x0a
    ∷ elem Mnemonic.pcnt "pcnt" Format.r4r4i8o8_ifhbs 0x0b
    ∷ elem Mnemonic.clz "clz" Format.r4r4i8o8_ifhbs 0x0c
    ∷ elem Mnemonic.clo "clo" Format.r4r4i8o8_ifhbs 0x0d
    ∷ elem Mnemonic.bswap "bswap" Format.r4r4i8o8_ifhbs 0x0e
    ∷ elem Mnemonic.ipcnt "ipcnt" Format.r4r4i8o8_ifhbs 0x0f
    ∷ elem Mnemonic.stb "stb" Format.r4r4i8o8_ifhbs 0x10
    ∷ elem Mnemonic.stw "stw" Format.r4r4i8o8_ifhbs 0x11
    ∷ elem Mnemonic.stl "stl" Format.r4r4i8o8_ifhbs 0x12
    ∷ elem Mnemonic.stq "stq" Format.r4r4i8o8_ifhbs 0x13
    ∷ elem Mnemonic.ldb "ldb" Format.r4r4i8o8_ifhbs 0x14
    ∷ elem Mnemonic.ldw "ldw" Format.r4r4i8o8_ifhbs 0x15
    ∷ elem Mnemonic.ldl "ldl" Format.r4r4i8o8_ifhbs 0x16
    ∷ elem Mnemonic.ldq "ldq" Format.r4r4i8o8_ifhbs 0x17
    ∷ elem Mnemonic.lea "lea" Format.r4r4i8o8_ifhbs 0x18
    ∷ elem Mnemonic.cmp "cmp" Format.r4r4i8o8_ifhbs 0x20
    ∷ elem Mnemonic.cmpkp "cmpkp" Format.r4r4i8o8_ifhbs 0x21
    ∷ elem Mnemonic.memcpy "memcpy" Format.r4r4r4r4 0x30
    ∷ elem Mnemonic.memmov "memmov" Format.r4r4r4r4 0x31
    ∷ elem Mnemonic.memset "memset" Format.r4r4r4r4 0x32
    ∷ elem Mnemonic.memchr "memchr" Format.r4r4r4r4 0x33
    ∷ elem Mnemonic.memchrf "memchrf" Format.r4r4r4r4 0x34
    ∷ elem Mnemonic.strcpy "strcpy" Format.r4r4r4r4 0x35
    ∷ elem Mnemonic.strcat "strcat" Format.r4r4r4r4 0x36
    ∷ elem Mnemonic.strpbrk "strpbrk" Format.r4r4r4r4 0x37
    ∷ elem Mnemonic.strncpy "strncpy" Format.r4r4r4r4 0x38
    ∷ elem Mnemonic.strncat "strncat" Format.r4r4r4r4 0x39
    ∷ elem Mnemonic.strchr "strchr" Format.r4r4r4r4 0x3a
    ∷ elem Mnemonic.strnchr "strnchr" Format.r4r4r4r4 0x3b
    ∷ elem Mnemonic.indtab "indtab" Format.r4r4r4r4 0x3c
    ∷ elem Mnemonic.indtab8 "indtab8" Format.r4r4r4r4 0x3d
    ∷ elem Mnemonic.chtree "chtree" Format.r4r4r4r4 0x3e
    ∷ elem Mnemonic.chtreeunchk "chtreeunchk" Format.r4r4r4r4 0x3e
    ∷ elem Mnemonic.jmp "jmp" Format.aa16o8 0x40
    ∷ elem Mnemonic.jmprel "jmprel" Format.ra16o8 0x41
    ∷ elem Mnemonic.call "call" Format.r4u4ra8o8 0x42
    ∷ elem Mnemonic.ret "ret" Format.u16o8 0x43
    ∷ elem Mnemonic.bz "bz" Format.r4u4ra8o8 0x50
    ∷ elem Mnemonic.b "b" Format.r4u4ra8o8 0x51
    ∷ elem Mnemonic.bgzs "bgzs" Format.r4u4ra8o8 0x52
    ∷ elem Mnemonic.bgpc "bgpc" Format.r4u4ra8o8 0x53
    ∷ elem Mnemonic.bgpcrela "bgpcrela" Format.r4u4ra8o8 0x54
    ∷ elem Mnemonic.bo "bo" Format.r4u4ra8o8 0x55
    ∷ elem Mnemonic.bgoz "bgoz" Format.r4u4ra8o8 0x56
    ∷ elem Mnemonic.bemax "bemax" Format.r4u4ra8o8 0x57
    ∷ elem Mnemonic.bet0 "bet0" Format.r4u4ra8o8 0x58
    ∷ elem Mnemonic.bet1 "bet1" Format.r4u4ra8o8 0x59
    ∷ elem Mnemonic.bet2 "bet2" Format.r4u4ra8o8 0x5a
    ∷ elem Mnemonic.bet3 "bet3" Format.r4u4ra8o8 0x5b
    ∷ elem Mnemonic.bet4 "bet4" Format.r4u4ra8o8 0x5c
    ∷ elem Mnemonic.bet5 "bet5" Format.r4u4ra8o8 0x5d
    ∷ elem Mnemonic.bet6 "bet6" Format.r4u4ra8o8 0x5e
    ∷ elem Mnemonic.bet7 "bet7" Format.r4u4ra8o8 0x5f
    ∷ []

unfoldable pub float_insts : List Entry
float_insts =
    elem Mnemonic.fadd3 "fadd3" Format.f4f4f4f4 0x00
    ∷ elem Mnemonic.fsub3 "fsub3" Format.f4f4f4f4 0x01
    ∷ elem Mnemonic.fdiv3 "fdiv3" Format.f4f4f4f4 0x02
    ∷ elem Mnemonic.fmul3 "fmul3" Format.f4f4f4f4 0x03
    ∷ elem Mnemonic.fmod3 "fmod3" Format.f4f4f4f4 0x04
    ∷ elem Mnemonic.fmadd "fmadd" Format.f4f4f4f4 0x05
    ∷ elem Mnemonic.fmsub "fmsub" Format.f4f4f4f4 0x06
    ∷ elem Mnemonic.fsqrt3 "fsqrt3" Format.f4f4f4f4 0x07
    ∷ elem Mnemonic.fhyp "fhyp" Format.f4f4f4f4 0x08
    ∷ elem Mnemonic.fnorm "fnorm" Format.f4f4f4f4 0x09
    ∷ elem Mnemonic.fabs "fabs" Format.f4f4f4f4 0x0a
    ∷ elem Mnemonic.fsign "fsign" Format.f4f4f4f4 0x0b
    ∷ elem Mnemonic.fnabs "fnabs" Format.f4f4f4f4 0x0c
    ∷ elem Mnemonic.fcos "fcos" Format.f4f4f4f4 0x0d
    ∷ elem Mnemonic.fsin "fsin" Format.f4f4f4f4 0x0e
    ∷ elem Mnemonic.ftan "ftan" Format.f4f4f4f4 0x0f
    ∷ elem Mnemonic.facos "facos" Format.f4f4f4f4 0x10
    ∷ elem Mnemonic.fatan "fatan" Format.f4f4f4f4 0x11
    ∷ elem Mnemonic.fasin "fasin" Format.f4f4f4f4 0x12
    ∷ elem Mnemonic.fcbrt "fcbrt" Format.f4f4f4f4 0x13
    ∷ elem Mnemonic.fy0 "fy0" Format.f4f4f4f4 0x14
    ∷ elem Mnemonic.fy1 "fy1" Format.f4f4f4f4 0x15
    ∷ elem Mnemonic.fj0 "fj0" Format.f4f4f4f4 0x16
    ∷ elem Mnemonic.fj1 "fj1" Format.f4f4f4f4 0x17
    ∷ elem Mnemonic.fexp "fexp" Format.f4f4f4f4 0x18
    ∷ elem Mnemonic.frsqrt "frsqrt" Format.f4f4f4f4 0x19
    ∷ elem Mnemonic.frcbrt "frcbrt" Format.f4f4f4f4 0x1a
    ∷ elem Mnemonic.fpow2 "fpow2" Format.f4f4f4f4 0x1b
    ∷ elem Mnemonic.fpow3 "fpow3" Format.f4f4f4f4 0x1c
    ∷ elem Mnemonic.fmax "fmax" Format.f4f4f4f4 0x1d
    ∷ elem Mnemonic.fmin "fmin" Format.f4f4f4f4 0x1e
    ∷ elem Mnemonic.fclamp "fclamp" Format.f4f4f4f4 0x1f
    ∷ elem Mnemonic.finv "finv" Format.f4f4f4f4 0x20
    ∷ elem Mnemonic.fconstpi "fconstpi" Format.f4f4f4f4 0x21
    ∷ elem Mnemonic.fconste "fconste" Format.f4f4f4f4 0x22
    ∷ elem Mnemonic.fconstpi2 "fconstpi2" Format.f4f4f4f4 0x23
    ∷ elem Mnemonic.frad "frad" Format.f4f4f4f4 0x24
    ∷ elem Mnemonic.fdeg "fdeg" Format.f4f4f4f4 0x25
    ∷ elem Mnemonic.fsel "fsel" Format.f4f4f4f4 0x26
    ∷ elem Mnemonic.fsel2 "fsel2" Format.f4f4f4f4 0x27
    ∷ elem Mnemonic.fgamma "fgamma" Format.f4f4f4f4 0x28
    ∷ elem Mnemonic.flgamma "flgamma" Format.f4f4f4f4 0x29
    ∷ elem Mnemonic.fround "fround" Format.f4f4f4f4 0x2a
    ∷ elem Mnemonic.ffloor "ffloor" Format.f4f4f4f4 0x2b
    ∷ elem Mnemonic.fceil "fceil" Format.f4f4f4f4 0x2c
    ∷ elem Mnemonic.faddcrr "faddcrr" Format.f4f4f4f4 0x30
    ∷ elem Mnemonic.fsubcrr "fsubcrr" Format.f4f4f4f4 0x31
    ∷ elem Mnemonic.fdivcrr "fdivcrr" Format.f4f4f4f4 0x32
    ∷ elem Mnemonic.fmulcrr "fmulcrr" Format.f4f4f4f4 0x33
    ∷ elem Mnemonic.fsqrtcrr "fsqrtcrr" Format.f4f4f4f4 0x34
    ∷ elem Mnemonic.faddcri "faddcri" Format.f4f4f4f4 0x40
    ∷ elem Mnemonic.fsubcri "fsubcri" Format.f4f4f4f4 0x41
    ∷ elem Mnemonic.fdivcri "fdivcri" Format.f4f4f4f4 0x42
    ∷ elem Mnemonic.fmulcri "fmulcri" Format.f4f4f4f4 0x43
    ∷ elem Mnemonic.fsqrtcri "fsqrtcri" Format.f4f4f4f4 0x44
    ∷ elem Mnemonic.fcvti "fcvti" Format.r4f4f4f4 0x80
    ∷ elem Mnemonic.icvtf "icvtf" Format.r4f4f4f4 0x81
    ∷ elem Mnemonic.fcvtri "fcvtri" Format.r4f4f4f4 0x82
    ∷ elem Mnemonic.icvtrf "icvtrf" Format.r4f4f4f4 0x83
    ∷ []

unfoldable pub debug_insts : List Entry
debug_insts = elem Mnemonic.halt "halt" Format.d8 0x0f ∷ []

unfoldable pub inst_table : List Entry
unfolding integer_insts float_insts debug_insts
inst_table = integer_insts ++ (float_insts ++ debug_insts)
