-- ===== src/Restart.antt =====
-- The rolling restart of a cluster (kafka_utils/kafka_rolling_restart/main.py).
pub mod History
pub mod Phases
pub mod Wait
pub mod Stable
pub mod Safety
pub mod Recover
pub mod Live
pub mod Execute
pub mod Options
pub mod Selection
pub mod Run
mod Tests
