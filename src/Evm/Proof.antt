-- ===== src/Evm/Proof.antt =====
-- What the member functions of LegacyVM leave behind: rules for sequences of calls, and the
-- properties of each function that the theorems about the interpreter rest on.
pub mod Rules
pub mod Memory
pub mod Sound
pub mod Computing
pub mod Storing
pub mod Calling
pub mod Deep
pub mod Dispatch
pub mod Fetching
pub mod Running
pub mod Ending
pub mod Schedules
pub mod JumpTable
pub mod Pool
pub mod Reading
pub mod Slots
pub mod ExpGas
pub mod Loading
pub mod Content
pub mod Metering
pub mod Static
pub mod Stepping
pub mod Worlds
pub mod Holding
