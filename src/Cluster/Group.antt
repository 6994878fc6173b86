-- ===== src/Cluster/Group.antt =====
-- `ReplicationGroup` (cluster_info/rg.py), but its rebalancing.
mod Elect
pub mod Acquire
pub mod Rebalance
unfoldable pub use Elect.*
