-- ===== src/Check.antt =====
-- The checks of a cluster's topics
-- (kafka_utils/kafka_check/commands/min_isr.py and replication_factor.py).
pub mod Topics
pub mod Verdicts
mod Tests
