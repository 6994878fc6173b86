-- ===== src/Cluster/Group/Rebalance/Start.antt =====
-- What `rebalance_brokers` starts from: the loads and topics of a group.
use kafka_utils.Base.{
  ℕ, ◌*◌, ◌≤◌, List, [], ◌∷◌, true, false, not, ◌&&◌, some, ◌==◌, ◌≡◌, ◌≢◌, refl, arith, inl, inr,
  Bool-cases, contains, contains-keep, keep, sum_of, ℤ, contains-append, ◌∙◌, map,
}
use kafka_utils.Cluster.Objects.{Store, partitions}
use kafka_utils.Cluster.Group.Elect.{brokers, load, group_partitions, get_active_brokers}
use kafka_utils.Cluster.Group.Rebalance.{generate_sibling_distance}
use kafka_utils.Cluster.Group.Rebalance.Measure.{share}

-- The fuel is enough.
share-le_one :
    (total : ℕ) (s : Store) (b : ℕ) → load s b ≤ total → share total s b ≤ 2 * total * load s b
share-le_one total s b h = elim (Bool-cases (s.broker b).decommissioned) [
  | inl e ↦ rw e (omega arith)
  | inr e ↦ rw e (grind arith)
]

pub share-le :
    (total : ℕ) (s : Store) (xs : List ℕ)
    → ((b : ℕ) → contains b xs ≡ true → load s b ≤ total)
    → sum_of (share total s) xs ≤ 2 * total * sum_of (load s) xs
unfolding contains
share-le total s [] h = omega arith
share-le total s (x ∷ xs) h =
    let rest = share-le total s xs (λ b m. h b (ground arith)) in
    omega (arith, share-le_one total s x (h x (ground arith)))

pub group_partitions-mem :
    (s : Store) (bs : List ℕ) (b p : ℕ)
    → contains b bs ≡ true
    → contains p (partitions s b) ≡ true
    → contains p (group_partitions s bs) ≡ true
unfolding group_partitions contains
group_partitions-mem s [] b p h k = cc
group_partitions-mem s (x ∷ xs) b p h k =
    contains-append p (partitions s x) (group_partitions s xs) ∙ elim (Bool-cases (b == x)) [
      | inl e ↦ let here : b ≡ x = ground arith in rw (← here) (rw k)
      | inr e ↦ let later = group_partitions-mem s xs b p (ground arith) k in ground arith
    ]

module _ (s : Store) (g : ℕ) where
  abbrev pub blacklist : List ℕ
  blacklist = keep (λ b. (s.broker b).decommissioned) (brokers s g)

  abbrev pub active : List ℕ
  active = keep (λ b. not (contains b blacklist)) (get_active_brokers s g)

  abbrev pub topics : List ℕ
  topics = map (λ p. (s.partition p).topic) (group_partitions s (brokers s g))

  pub active-mem :
      (b : ℕ)
      → contains b active
        ≡ (contains b (brokers s g) && not (s.broker b).inactive && not (s.broker b).decommissioned)
  unfolding get_active_brokers
  active-mem b = ground (
    arith,
    contains-keep b (λ c. not (contains c blacklist)) (get_active_brokers s g),
    contains-keep b (λ c. not (s.broker c).inactive) (brokers s g),
    contains-keep b (λ c. (s.broker c).decommissioned) (brokers s g),
  )

  pub generate-Covers :
      (dest source t : ℕ)
      → contains dest (brokers s g) ≡ true
      → contains source (brokers s g) ≡ true
      → source ≢ dest
      → contains t topics ≡ true
      → (d : ℤ) × ((generate_sibling_distance s g).distance dest source t ≡ some d)
  unfolding generate_sibling_distance
  generate-Covers dest source t hd hs ne ht =
      let other : (source == dest) ≡ false = ground arith in rw (hd, hs, other, ht) (_, refl)
