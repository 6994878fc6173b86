-- ===== src/Plan.antt =====
-- Reassignment plans (kafka_utils/util/validation.py).
pub mod Json
pub mod Entry
pub mod Format
pub mod Validate
pub mod Readable
pub mod Valid
pub mod Against
pub mod Accept
pub mod Convert
pub mod Written
mod Tests
