-- ===== src/Cluster/Broker/Leadership/Keeps.antt =====
-- What a search for leaders keeps, and how many brokers it may still ask.
use kafka_utils.Base.{
  ℕ, ◌≤◌, ◌<◌, List, [], ◌∷◌, ◌++◌, true, false, not, ◌&&◌, ◌==◌, if◌then◌else◌, ltb, Result, ok,
  count, contains, ◌≡◌, arith, Returns, Returns-bind, Each, Each-contains, keep, length,
  contains-count, count-snoc, Bool-cases, inl, inr,
}
use kafka_utils.Cluster.Objects.{Store, replicas, partitions}
use kafka_utils.Cluster.Partition.{first, replication_factor}
use kafka_utils.Cluster.Broker.Calls.{sum_leading, count_preferred_replica}
use kafka_utils.Cluster.Broker.Links.{IsLinked}
use kafka_utils.Cluster.Broker.Moves.{IsReordered}
use kafka_utils.Cluster.Broker.Leadership.{Search, led_by_others}

-- How many of the brokers `us` the search may still ask.
abbrev pub free : List ℕ → List ℕ → ℕ
free us skip = length (keep (λ u. not (contains u skip)) us)

pub free_mono : (us xs ys : List ℕ) → ((c : ℕ) → count c xs ≤ count c ys) → free us ys ≤ free us xs
free_mono [] xs ys h = omega arith
free_mono (u ∷ us) xs ys h =
    ground (arith, free_mono us xs ys h, h u, contains-count u xs, contains-count u ys)

pub free-le : (us xs : List ℕ) → free us xs ≤ length us
free-le [] xs = omega arith
free-le (u ∷ us) xs = ground (arith, free-le us xs)

pub free-snoc :
    (us xs : List ℕ) (a : ℕ)
    → contains a us ≡ true
    → contains a xs ≡ false
    → free us (xs ++ a ∷ []) < free us xs
unfolding contains
free-snoc [] xs a h k = ground arith
free-snoc (u ∷ us) xs a h k = ground (
  arith,
  free-snoc us xs a,
  free_mono us xs (xs ++ a ∷ []) (λ c. ground (arith, count-snoc c a xs)),
  contains-count u xs,
  contains-count u (xs ++ a ∷ []),
  count-snoc u a xs,
)

pub leader-mem : (xs : List ℕ) (c : ℕ) → 0 < count c xs → Returns (λ l. 0 < count l xs) (first xs)
unfolding count
leader-mem [] c h = absurd (omega arith)
leader-mem (x ∷ xs) c h = ground arith

sum_leading_total :
    (f : ℕ → ℕ) (s : Store) (b : ℕ) (ps : List ℕ)
    → Each (λ p. 0 < count b (replicas s p)) ps
    → Returns (λ n. Unit {0}) (sum_leading f s b ps)
unfolding sum_leading
sum_leading_total f s b [] h = tt
sum_leading_total f s b (p ∷ ps) h =
    Returns-bind (λ l. 0 < count l (replicas s p)) _ _ _ (leader-mem (replicas s p) b h.0)
      (λ l _. Returns-bind (λ n. Unit {0}) _ _ _ (sum_leading_total f s b ps h.1) (λ n _. tt))

pub listed-pos :
    (s : Store) (b : ℕ) → IsLinked s → Each (λ p. 0 < count b (replicas s p)) (partitions s b)
listed-pos s b v =
    Each-contains _ (partitions s b)
      (λ p m. ground (arith, v.linked b p, contains-count p (partitions s b)))

pub count_preferred_replica_total :
    (s : Store) (b : ℕ) → IsLinked s → Returns (λ n. Unit {0}) (count_preferred_replica s b)
unfolding count_preferred_replica
count_preferred_replica_total s b v = sum_leading_total _ s b (partitions s b) (listed-pos s b v)

pub led_by_others_total :
    (s : Store) (b : ℕ) (ps : List ℕ)
    → Each (λ p. 0 < count b (replicas s p)) ps
    → Returns (Each (λ p. 0 < count b (replicas s p))) (led_by_others s b ps)
unfolding led_by_others
led_by_others_total s b [] h = tt
led_by_others_total s b (p ∷ ps) h =
    Returns-bind (λ l. 0 < count l (replicas s p)) _ _ _ (leader-mem (replicas s p) b h.0)
      (λ l _.
        Returns-bind (Each (λ p. 0 < count b (replicas s p))) _ _ _ (led_by_others_total s b ps h.1)
          (λ qs hq. keep_head l qs hq))
  where
    keep_head :
        (l : ℕ) (qs : List ℕ)
        → Each (λ p. 0 < count b (replicas s p)) qs
        → Each
            (λ p. 0 < count b (replicas s p))
            (if not (b == l) && ltb 1 (replication_factor s p) then p ∷ qs else qs)
    keep_head l qs hq = elim (Bool-cases (not (b == l) && ltb 1 (replication_factor s p))) [
      | inl e ↦ rw e (h.0, hq)
      | inr e ↦ rw e hq
    ]

pub Returns-at : (P : ℕ → Type 0) {m : Result ℕ} {a : ℕ} → m ≡ ok a → Returns P m → P a
Returns-at P e h = rw e at h

-- What every part of the search keeps, from the cluster `s₀` in which it began.
pub record Keeps (s₀ : Store) (st st' : Search) : Type 0 where
  pub reordered : IsReordered s₀ st'.store
  pub more_brokers : (c : ℕ) → count c st.skip_brokers ≤ count c st'.skip_brokers
  pub more_partitions : (c : ℕ) → count c st.skip_partitions ≤ count c st'.skip_partitions

pub Keeps-from :
    {s₀ s : Store} {st st' : Search} → Keeps s₀ (record st { store = s }) st' → Keeps s₀ st st'
Keeps-from k = record {
  reordered = k.reordered;
  more_brokers = k.more_brokers;
  more_partitions = k.more_partitions;
}

pub Keeps-after :
    {s₀ : Store} {st st' st'' : Search} → Keeps s₀ st st' → Keeps s₀ st' st'' → Keeps s₀ st st''
Keeps-after k l = record {
  reordered = l.reordered;
  more_brokers = λ c. omega (arith, k.more_brokers c, l.more_brokers c);
  more_partitions = λ c. omega (arith, k.more_partitions c, l.more_partitions c);
}
