-- ===== src/Executive/Proof.antt =====
-- The theorems about Executive and ExtVM.
pub mod Granting
pub mod Spending
pub mod Beginning
pub mod Depth
pub mod Feeding
pub mod Failing
pub mod Settling
pub mod Paying
pub mod Static
