-- ===== src/Cluster/Balancer/Leaders/Reordered.antt =====
-- The balance of leaders ends, and only reorders the replicas of partitions.
use kafka_utils.Base.{
  ℕ, ◌<◌, List, [], ◌∷◌, ◌++◌, Bool, true, Result, Returns, Returns-bind, Returns-map, count,
  contains, Each, Bool-cases, ◌≡◌, arith, inl, inr,
}
use kafka_utils.Cluster.Objects.{Store, replicas}
use kafka_utils.Cluster.Broker.{
  IsLinked, IsReordered, IsReordered-refl, IsReordered-trans, IsReordered-IsLinked,
}
use kafka_utils.Cluster.Broker.Leadership.{Search}
use kafka_utils.Cluster.Broker.Leadership.Keeps.{count_preferred_replica_total}
use kafka_utils.Cluster.Broker.Leadership.Total.{request_leadership_total}
use kafka_utils.Cluster.Broker.Donate.{Donation}
use kafka_utils.Cluster.Broker.Donate.Ends.{Holds, donate_leadership_total}
use kafka_utils.Cluster.Topology.{Topology}
use kafka_utils.Cluster.Balancer.Leaders.{
  all_brokers, filter, request_each, donate_each, is_under, is_over, rebalancing_non_followers,
}

-- A filter returns if its test does, with elements of which the test was true.
pub filter_total {ℓ} :
    {A : Type ℓ} (P : A → Type 0) (test : A → Result Bool) (xs : List A)
    → Each (λ x. Returns (λ b. b ≡ true → P x) (test x)) xs
    → Returns (Each P) (filter test xs)
unfolding filter
filter_total P test [] h = tt
filter_total P test (x ∷ xs) h =
    Returns-bind (λ b. b ≡ true → P x) (Each P) _ _ h.0
      (λ b k.
        Returns-bind (Each P) (Each P) _ _ (filter_total P test xs h.1)
          (λ ys l. elim (Bool-cases b) [ inl e ↦ rw e (k e, l) | inr e ↦ rw e l ]))

pub Each-all {ℓ} : {A : Type ℓ} (P : A → Type 0) (xs : List A) → ((x : A) → P x) → Each P xs
Each-all P [] h = tt
Each-all P (x ∷ xs) h = (h x, Each-all P xs h)

-- All replicas are on brokers of the cluster.
abbrev pub Known : Topology → Store → Type 0
Known c s = (p b : ℕ) → 0 < count b (replicas s p) → contains b (all_brokers c) ≡ true

pub Known-IsReordered : (c : Topology) (s t : Store) → IsReordered s t → Known c s → Known c t
Known-IsReordered c s t r known p b h = known p b (omega (arith, r.members p b))

module _ (c : Topology) (opt_cnt : ℕ) where
  request_each_total :
      (bs : List ℕ) (st : Search)
      → IsLinked st.store
      → Known c st.store
      → Returns (λ st'. IsReordered st.store st'.store) (request_each c opt_cnt bs st)
  unfolding request_each
  request_each_total [] st v known = IsReordered-refl st.store
  request_each_total (b ∷ bs) st v known =
      Returns-bind (λ st'. IsReordered st.store st'.store) (λ st'. IsReordered st.store st'.store) _
        _
        (request_leadership_total opt_cnt (all_brokers c) b
          (record st { skip_brokers = st.skip_brokers ++ b ∷ [] }) v known)
        (λ st' r.
          Returns-map (λ st''. IsReordered st'.store st''.store) _ _
            (λ st'' k. IsReordered-trans r k)
            (request_each_total bs st' (IsReordered-IsLinked r v)
              (Known-IsReordered c st.store st'.store r known)))

  donate_each_total :
      (bs : List ℕ) (st : Donation)
      → IsLinked st.store
      → Known c st.store
      → Returns (λ st'. IsReordered st.store st'.store) (donate_each c opt_cnt bs st)
  unfolding donate_each
  donate_each_total [] st v known = IsReordered-refl st.store
  donate_each_total (b ∷ bs) st v known =
      Returns-bind (λ st'. IsReordered st.store st'.store) (λ st'. IsReordered st.store st'.store) _
        _
        (Returns-map (Holds st.store (record st { skip_brokers = st.skip_brokers ++ b ∷ [] })) _ _
          (λ st' k. k.reordered)
          (donate_leadership_total opt_cnt (all_brokers c) b
            (record st { skip_brokers = st.skip_brokers ++ b ∷ [] }) v known))
        (λ st' r.
          Returns-map (λ st''. IsReordered st'.store st''.store) _ _
            (λ st'' k. IsReordered-trans r k)
            (donate_each_total bs st' (IsReordered-IsLinked r v)
              (Known-IsReordered c st.store st'.store r known)))

  is_under_total :
      (s : Store) (b : ℕ) → IsLinked s → Returns (λ r. Unit {0}) (is_under c opt_cnt s b)
  unfolding is_under
  is_under_total s b v =
      Returns-bind (λ n. Unit {0}) (λ r. Unit {0}) _ _ (count_preferred_replica_total s b v)
        (λ n _. tt)

  is_over_total : (s : Store) (b : ℕ) → IsLinked s → Returns (λ r. Unit {0}) (is_over c opt_cnt s b)
  unfolding is_over
  is_over_total s b v =
      Returns-bind (λ n. Unit {0}) (λ r. Unit {0}) _ _ (count_preferred_replica_total s b v)
        (λ n _. tt)

  filter_brokers :
      (test : ℕ → Result Bool) (s : Store)
      → ((b : ℕ) → Returns (λ r. Unit {0}) (test b))
      → Returns (λ bs. Unit {0}) (filter test (all_brokers c))
  filter_brokers test s h =
      Returns-map (Each (λ b. Unit {0})) _ _ (λ bs k. tt)
        (filter_total (λ b. Unit {0}) test (all_brokers c)
          (Each-all _ (all_brokers c) (λ b. Returns-map (λ r. Unit {0}) _ _ (λ r k e. tt) (h b))))

  -- In a linked cluster whose replicas are all on its brokers, the balance of leaders ends and
  -- raises nothing, and each partition keeps its replicas in some order.
  pub rebalancing_non_followers_total :
      (s : Store)
      → IsLinked s
      → Known c s
      → Returns (IsReordered s) (rebalancing_non_followers c opt_cnt s)
  unfolding rebalancing_non_followers
  rebalancing_non_followers_total s v known =
      Returns-bind (λ bs. Unit {0}) (IsReordered s) _ _
        (filter_brokers (is_under c opt_cnt s) s (λ b. is_under_total s b v))
        (λ bs _.
          Returns-bind (λ st. IsReordered s st.store) (IsReordered s) _ _
            (request_each_total bs (record { store = s; skip_brokers = []; skip_partitions = [] }) v
              known)
            (λ st r.
              Returns-bind (λ bs'. Unit {0}) (IsReordered s) _ _
                (filter_brokers (is_over c opt_cnt st.store) st.store
                  (λ b. is_over_total st.store b (IsReordered-IsLinked r v)))
                (λ bs' _.
                  Returns-bind (λ st'. IsReordered st.store st'.store) (IsReordered s) _ _
                    (donate_each_total bs'
                      (record { store = st.store; skip_brokers = []; used_edges = [] })
                      (IsReordered-IsLinked r v) (Known-IsReordered c s st.store r known))
                    (λ st' r'. IsReordered-trans r r'))))
