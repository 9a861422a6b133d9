-- ===== src/Asm.antt =====
-- isa/asm.c: the assembler.
pub mod Operand
pub mod State
pub mod Encode
pub mod Line
pub mod Assemble
