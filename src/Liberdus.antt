-- ===== src/Liberdus.antt =====
-- The node pool (src/liberdus.rs).
pub mod OldReceipt
pub mod Sound
pub mod Signature
pub mod Float
pub mod State
pub mod Search
pub mod Prepare
pub mod Select
mod Tests
pub mod Send
pub mod Account
