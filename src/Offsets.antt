-- ===== src/Offsets.antt =====
-- Consumer offsets and watermarks (kafka_utils/util/offsets.py).
pub mod Client
pub mod Verify
pub mod Fetch
pub mod Commit
pub mod Sets
pub mod Known
pub mod Select
pub mod Chosen
pub mod Report
mod Tests
