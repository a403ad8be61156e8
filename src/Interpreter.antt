-- ===== src/Interpreter.antt =====
-- The interpreter loop of lib/assigner/evmone/baseline.hpp: what the opcodes stand for, `invoke`
-- and `dispatch`.
pub mod Instruction
pub mod Opcodes
pub mod Loop
pub mod Spending
pub mod Progress
pub mod Terminates
pub mod Induction
pub mod Undefined
pub mod GasBound
pub mod Nearby
pub mod Legacy
pub mod Reached
pub mod Counting
mod Tests
