-- ===== src/Cluster.antt =====
-- kafka_utils/kafka_cluster_manager/cluster_info: the objects of a cluster and what moves them.
pub mod Objects
pub mod Partition
pub mod Broker
pub mod Balance
pub mod Group
pub mod Topology
pub mod Balancer
pub mod Sample
mod Tests
