-- ===== src/Cluster/Group/Rebalance.antt =====
-- `rebalance_brokers` (cluster_info/rg.py): an even number of partitions for each broker of a group.
pub mod Choose
pub mod Measure
pub mod Rebalanced
pub mod Start
pub mod Steady
pub mod Total
use kafka_utils.Base.{
  ℕ, zero, suc, ◌+◌, ◌-◌, ◌*◌, ◌^◌, List, [], ◌∷◌, ◌++◌, Bool, true, false, not, ◌&&◌, ◌||◌, Option,
  none, some, if◌then◌else◌, ltb, ◌==◌, Result, ok, raise, key_error, empty_replication_group,
  out_of_fuel, ◌>>=◌, length, keep, is_nil, sum_of, sorted_up, sorted_down, contains, ℤ, pos, ltb_ℤ,
  sub_ℕ, map,
}
use kafka_utils.Cluster.Objects.{Store, partitions}
use kafka_utils.Cluster.Broker.{move_partition, count_partitions, get_preferred_partition, empty}
use kafka_utils.Cluster.Balance.{separate_groups}
use kafka_utils.Cluster.Group.Elect.{brokers, load, group_partitions, get_active_brokers}

-- The dictionary {dest: {source: {topic: distance}}}: the keys below each destination, and the
-- distances, `none` for a topic that is missing.
pub record Distances : Type 0 where
  pub sources : ℕ → List ℕ
  pub distance : ℕ → ℕ → ℕ → Option ℤ

unfoldable pub sibling_distance : Store → ℕ → ℕ → ℕ → ℤ
sibling_distance s dest source t = sub_ℕ (count_partitions s dest t) (count_partitions s source t)

unfoldable pub generate_sibling_distance : Store → ℕ → Distances
generate_sibling_distance s g =
    let topics = map (λ p. (s.partition p).topic) (group_partitions s (brokers s g)) in
    record {
      sources = λ dest.
          if is_nil topics || not (contains dest (brokers s g))
          then []
          else keep (λ b. not (b == dest)) (brokers s g);
      distance = λ dest source t.
          if contains dest (brokers s g)
            && contains source (brokers s g)
            && not (source == dest)
            && contains t topics
          then some (sibling_distance s dest source t)
          else none;
    }

-- Only the distances to `dest` are computed anew.
unfoldable pub update_sibling_distance : Store → Distances → ℕ → ℕ → Distances
update_sibling_distance s ds dest topic = record ds {
  distance = λ d source t.
      if d == dest && contains source (ds.sources dest) && t == topic
      then some (sibling_distance s d source t)
      else ds.distance d source t;
}

-- The best move so far.
pub record Target : Type 0 where
  pub source : ℕ
  pub dest : ℕ
  pub partition : ℕ

pub record Choice : Type 0 where
  pub min_distance : ℤ
  pub target : Option Target

-- `sys.maxsize` of a 64-bit interpreter.
abbrev pub max_size : ℤ
max_size = pos (2 ^ 63 - 1)

-- A distance below the best one makes the move the best.
abbrev pub better : ℤ → Target → Choice → Choice
better d t c = if ltb_ℤ d c.min_distance then record { min_distance = d; target = some t } else c

module _ (s : Store) (ds : Distances) where
  -- What one eligible destination adds to the choice.
  unfoldable pub try_dest : ℕ → ℕ → Choice → Result Choice
  try_dest source dest c = do
    best ← get_preferred_partition s source dest (ds.distance dest source)
    elim best [
      | none ↦ ok c
      | some p ↦ elim (ds.distance dest source (s.partition p).topic) [
        | none ↦ raise key_error
        | some d ↦ ok (better d (record { source = source; dest = dest; partition = p }) c)
      ]
    ]

  -- The inner loop. It breaks at the first destination that is not lower by two or more.
  unfoldable pub try_dests : ℕ → Choice → List ℕ → Result Choice
  unfolding try_dest
  try_dests source c [] = ok c
  try_dests source c (dest ∷ rest) =
      elim (ltb (load s dest + 1) (load s source) || (s.broker source).decommissioned) [
        | true ↦ do c' ← try_dest source dest c; try_dests source c' rest
        | false ↦ ok c
      ]

  unfoldable pub try_sources : List ℕ → Choice → List ℕ → Result Choice
  unfolding try_dests
  try_sources under c [] = ok c
  try_sources under c (source ∷ rest) = do c' ← try_dests source c under; try_sources under c' rest

  -- `_get_target_brokers`
  unfoldable pub get_target_brokers : List ℕ → List ℕ → Result (Option Target)
  unfolding try_sources
  get_target_brokers over under = do
    c ←
        try_sources (sorted_up (load s) under) (record { min_distance = max_size; target = none })
          (sorted_down (load s) over)
    ok c.target

-- The brokers to take from and to give to.
unfoldable pub sides : Store → List ℕ → List ℕ → ℕ → Result (List ℕ × List ℕ)
sides s active blacklist total = do
  (over, under) ← separate_groups (load s) active total
  ok (over ++ keep (λ b. not (empty s b)) blacklist, under)

module _ (active blacklist : List ℕ) (total : ℕ) where
  -- The `while` loop, on the number of rounds left.
  unfoldable pub rounds : ℕ → Store → Distances → List ℕ → List ℕ → Result Store
  unfolding sides get_target_brokers update_sibling_distance
  rounds zero s ds over under = raise out_of_fuel
  rounds (suc n) s ds over under = elim (is_nil under || is_nil over) [
    | true ↦ ok s
    | false ↦ do
      target ← get_target_brokers s ds over under
      elim target [
        | none ↦ ok s
        | some m ↦ do
          s' ← move_partition s m.source m.partition m.dest
          (over', under') ← sides s' active blacklist total
          rounds n s' (update_sibling_distance s' ds m.dest (s'.partition m.partition).topic) over'
              under'
      ]
  ]

-- The fuel that `rounds` is given: each move takes a partition off a decommissioned broker, or
-- brings two loads closer.
abbrev pub enough : ℕ → ℕ
enough total = 2 * total * total + 1

unfoldable pub rebalance_brokers : Store → ℕ → Result Store
unfolding rounds sides generate_sibling_distance
rebalance_brokers s g =
    let total = sum_of (load s) (brokers s g) in
    let blacklist = keep (λ b. (s.broker b).decommissioned) (brokers s g) in
    let active = keep (λ b. not (contains b blacklist)) (get_active_brokers s g) in
    if is_nil active then raise empty_replication_group else (do
      (over, under) ← sides s active blacklist total
      (if is_nil over && is_nil under
          then ok s
          else rounds active blacklist total (enough total) s (generate_sibling_distance s g) over
              under))
