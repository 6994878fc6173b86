-- ===== src/Cluster/Balancer/Tests.antt =====
-- The balancer on the small cluster.
use kafka_utils.Base.{
  zero, suc, [], ◌∷◌, Returns, broker_decommission, count, contains, lookup, ◌≡◌, refl, arith,
}
use kafka_utils.Cluster.Broker.{IsReordered}
use kafka_utils.Cluster.Sample.{small, cluster, small-IsLinked, group-distinct}
use kafka_utils.Cluster.Balancer.Leaders.{rebalancing_non_followers, revoke_leadership}
use kafka_utils.Cluster.Balancer.Leaders.Reordered.{Known, rebalancing_non_followers_total}
use kafka_utils.Cluster.Balancer.Leaders.Revocation.{
  LeadershipRevoked, revoke_leadership-LeadershipRevoked,
}
use kafka_utils.Cluster.Balancer.Decommission.{decommission_brokers}
use kafka_utils.Cluster.Balancer.Decommission.Emptied.{Yields}
use kafka_utils.Cluster.Balancer.Decommission.Decommissioned.{OncePerGroup}
use kafka_utils.Cluster.Balancer.Decommission.Marked.{
  IsDecommissioned, decommission_brokers-IsDecommissioned,
}

cluster-Known : Known cluster small
unfolding count contains
cluster-Known zero b h = ground arith
cluster-Known (suc zero) b h = ground arith
cluster-Known (suc (suc zero)) b h = ground arith
cluster-Known (suc (suc (suc p))) b h = ground arith

rebalancing_non_followers_total_example :
    Returns (IsReordered small) (rebalancing_non_followers cluster 1 small)
rebalancing_non_followers_total_example =
    rebalancing_non_followers_total cluster 1 small small-IsLinked cluster-Known

revoke_leadership-LeadershipRevoked_example :
    Returns (LeadershipRevoked cluster small (10 ∷ [])) (revoke_leadership cluster small (10 ∷ []))
unfolding lookup
revoke_leadership-LeadershipRevoked_example =
    revoke_leadership-LeadershipRevoked cluster small (10 ∷ []) small-IsLinked cluster-Known
      ((0, refl), tt) (omega arith)

small-OncePerGroup : OncePerGroup small
small-OncePerGroup g b = group-distinct b

decommission_brokers-IsDecommissioned_example :
    Yields
      (IsDecommissioned cluster small (12 ∷ []))
      (λ e. e ≡ broker_decommission)
      (decommission_brokers cluster small (12 ∷ []))
unfolding lookup contains
decommission_brokers-IsDecommissioned_example =
    decommission_brokers-IsDecommissioned cluster small (12 ∷ []) small-IsLinked small-OncePerGroup
      ((2, 0, refl, refl, refl), tt)
