-- ===== src/State/Proof.antt =====
-- The theorems about class State of libaecereum/State.cpp.
pub mod Coherent
pub mod Loading
pub mod Undoing
pub mod Rollback
pub mod Changing
pub mod Crediting
pub mod Writing
pub mod History
pub mod Refining
pub mod Querying
pub mod Moving
pub mod Quiet
