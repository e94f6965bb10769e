-- ===== src/Executive.antt =====
-- libaecereum/Executive.cpp and ExtVM.cpp: message calls, creations and transactions, which run the
-- interpreter of libevm on the accounts of State, and through which the interpreter calls them.
pub mod Frame
pub mod Starting
pub mod Running
pub mod Frames
pub mod Transaction
pub mod Proof
mod Tests
