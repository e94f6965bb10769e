-- ===== src/Evm.antt =====
-- libevm: the bytecode interpreter (LegacyVM) and the words, tables and prices that it works with.
pub mod Word
pub mod Schedule
pub mod Instruction
pub mod Machine
pub mod Gas
pub mod Jumps
pub mod Case
pub mod Interpreter
pub mod Proof
mod Tests
