-- ===== src/Cluster/Balancer.antt =====
-- `PartitionCountBalancer` (cluster_info/partition_count_balancer.py) and its base class
-- `ClusterBalancer` (cluster_info/cluster_balancer.py). The balancer changes the objects of a
-- cluster and leaves its dictionaries alone: a method takes the store and returns the new one.
pub mod Leaders
pub mod Groups
pub mod Decommission
pub mod Factor
mod Tests
