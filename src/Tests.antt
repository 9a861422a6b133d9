-- ===== src/Tests.antt =====
-- Runs of the program's parts on small inputs, by the part that they run.
mod Data
mod Assembler
mod Memory
mod Simulator
mod Cc
mod Parse
mod Compile
mod Disassemble
