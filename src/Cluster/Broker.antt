-- ===== src/Cluster/Broker.antt =====
-- `Broker` (cluster_info/broker.py): a broker, its partitions, and the two searches for leaders.
mod Links
mod Calls
mod Moves
pub mod Leadership
pub mod Donate
unfoldable pub use Links.*
unfoldable pub use Calls.*
unfoldable pub use Moves.*
