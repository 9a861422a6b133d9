-- ===== src/Sim.antt =====
-- isa/sim.c: the simulator.
pub mod State
pub mod Memory
pub mod Word
pub mod Integer
pub mod Block
pub mod Control
pub mod FloatOps
pub mod Float
pub mod Dispatch
pub mod Exec
pub mod Step
pub mod Main
pub mod Invariant
