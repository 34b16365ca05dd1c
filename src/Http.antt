-- ===== src/Http.antt =====
-- Reading, rewriting and answering HTTP messages (src/http.rs).
pub mod Collect
pub mod Header
pub mod Respond
pub mod Route
pub mod Stream
pub mod Strip
pub mod Peer
mod Tests
