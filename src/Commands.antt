-- ===== src/Commands.antt =====
-- What the commands of the cluster manager do with a new assignment
-- (kafka_utils/kafka_cluster_manager/cmds).
pub mod Actions
pub mod Movement
pub mod Required
pub mod Accepted
pub mod Pool
pub mod Kept
pub mod Extract
pub mod Reduce
pub mod Parts
pub mod Changes
pub mod Bounded
pub mod Reduced
pub mod Send
pub mod Rebalance
pub mod Factor
pub mod Sent
mod Tests
