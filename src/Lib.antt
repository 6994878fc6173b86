-- ===== src/Lib.antt =====
-- Kafka utilities: the model of a cluster that kafka_utils/kafka_cluster_manager rebalances, with
-- its balancer and the reduction of what it proposes; the check of reassignment plans in
-- kafka_utils/util/validation.py; the offsets of consumer groups in kafka_utils/util/offsets.py;
-- and the rolling restart of a cluster in kafka_utils/kafka_rolling_restart/main.py.
--
-- Parts. A cluster topology holds topics, partitions, brokers and replication groups. A partition
-- lists its replicas, the leader first; a broker keeps the set of partitions it has a replica of;
-- these are two views of one relation, which the calls on brokers keep in step. Groups of brokers
-- elect sources and destinations for partitions and even out the load of their brokers. A
-- balancer drives the groups and brokers of a whole cluster: it empties brokers, moves leaders,
-- and evens out groups. The result leaves the topology as an assignment, which a command reduces
-- to a limited number of moves; it becomes a plan, and a plan is checked before it is sent. Apart
-- from these, consumer groups have offsets, which are read, checked against the topics that
-- exist, and committed; and a script restarts the brokers of a cluster one after the other,
-- waiting in between until the cluster is stable.
--
-- Files, with paths below kafka_utils/kafka_cluster_manager/cluster_info unless one is given:
--   Base               lists, numbers, dictionaries with Python's order, exceptions as values
--   Cluster/Objects    the records of partition.py, topic.py, broker.py and rg.py, in a store
--   Cluster/Partition  the methods of Partition (partition.py)
--   Cluster/Broker     the methods of Broker (broker.py): Calls; Links and Moves on the two views
--                      of the replicas; Leadership is request_leadership and Donate
--                      donate_leadership
--   Cluster/Balance    compute_optimum and separate_groups (util.py)
--   Cluster/Group      the methods of ReplicationGroup (rg.py): Elect, its choices; Acquire;
--                      Rebalance, the loop of rebalance_brokers, with Choose for
--                      _get_target_brokers and Measure for what decreases
--   Cluster/Topology   ClusterTopology (cluster_topology.py): Update and Replace
--   Cluster/Balancer   partition_count_balancer.py and cluster_balancer.py: Leaders, the balance and
--                      the revocation of leadership, with Reordered, Revoked and Revocation on
--                      what they do; Decommission, with Emptied, Decommissioned and Marked; Groups,
--                      rebalance and its parts for groups; Factor, add_replica and remove_replica
--   Cluster/Sample     a small cluster, for the tests
--   Commands           kafka_utils/kafka_cluster_manager/cmds: command.py in Actions and Reduce,
--                      with Extract, Changes, Bounded and Reduced on what they choose; Send, the
--                      commands of replace.py, revoke_leadership.py and decommission.py, and Sent;
--                      Movement, Rebalance and Factor, those of rebalance.py (with a part of
--                      cluster_info/stats.py) and set_replication_factor.py, and Required
--                      and Accepted
--   Plan               kafka_utils/util/validation.py: Json, the values of a plan; Entry and
--                      Format, the format check; Validate, the checks; Valid, Against and Accept,
--                      what they accept; Convert and Written, plans and assignments
--   Check              kafka_utils/kafka_check/commands: min_isr.py and replication_factor.py in
--                      Topics, and Verdicts
--   Offsets            kafka_utils/util/offsets.py: Client, what it asks of the Kafka client, with
--                      one call of kafka_utils/util/client.py; Verify, the checks on topics and
--                      partitions, and Known and Chosen, what they let through; Fetch and
--                      Commit, the reads and commits, and Report, what a commit returns
--   Restart            kafka_utils/kafka_rolling_restart/main.py: History, the events and what
--                      surrounds the script; Wait, Execute and Options, its functions; Phases, what
--                      a history says; Stable, Safety, Live, Selection and Run, what the
--                      script does
--
-- State. An object is a number, its reference, and the store maps references to records; a method
-- takes the store and returns the new one. Two names of one object are the same reference. A set
-- is a list: where the source iterates over a set, the model takes the order of the list, and the
-- theorems hold of every list with these members. The balancer leaves the dictionaries of a
-- cluster alone, so its methods take and return the store. A rolling restart keeps no state but
-- its loops' variables; its model keeps the history of events, and HTTP, SSH and tasks answer by
-- it. A dictionary is an association list in the order of insertion. An exception is a value of
-- Error, and the store at that point is dropped, as the commands do that let it pass. A number
-- that may be negative is an integer ℤ, every other one a natural number. A JSON value has its
-- own type, a float is a dyadic rational. Log messages and texts of exceptions are left out.
--
-- Bounds. request_leadership and donate_leadership recurse on the number of nested calls left;
-- one more than the number of brokers is enough, since each nested call adds a broker to
-- skip_brokers. The loop of rebalance_brokers recurses on a number of rounds; 2 n n + 1 for n
-- partitions in the group is enough, since each round empties a decommissioned broker by one or
-- lowers the sum of the squares of the loads. The choice of actions in Commands recurses on one
-- round more than there are actions, since each round but the last takes one. The loop that moves
-- the replicas of a partition between groups has n n + 1 rounds for n replicas, since each move
-- brings two counts closer. The wait for a stable cluster counts its own rounds. No other loop
-- needs fuel. sys.maxsize is 2 ^ 63 - 1.
--
-- Not modelled: the genetic balancer, the other statistics, the arguments of the commands and the
-- tools, get_task_class, the other tools, and all calls to ZooKeeper, Kafka, SSH and the file
-- system. The functions that name the group of a broker and measure a partition are parameters of
-- Cluster/Topology. The Kafka client of Offsets is a record of functions on a state of the world,
-- check_error among them; retries and waiting times are left out. The hosts, connections and
-- tasks of Restart are a record of functions on the history. The settings of the topics in Check,
-- the replicas in sync in Commands/Factor and the confirmation in Commands/Send are parameters.
-- Whether the ideal weight in Commands/Movement is rounded down, as Python 2.7 does with integers,
-- is a parameter.
mod Base
pub mod Cluster
pub mod Plan
pub mod Offsets
pub mod Restart
pub mod Commands
pub mod Check
