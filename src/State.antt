-- ===== src/State.antt =====
-- libaecereum/State.cpp and Account.cpp: the accounts, their cache and the journal of changes.
pub mod Account
pub mod Journal
pub mod Cache
pub mod Changes
pub mod World
pub mod Spec
pub mod Proof
mod Tests
