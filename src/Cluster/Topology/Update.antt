-- ===== src/Cluster/Topology/Update.antt =====
-- `update_cluster_topology` gives each named partition the given replicas.
use native.Mathlib.Nat.{le_trans}
use mathlib.Core.Path.{ap₂}
use kafka_utils.Base.{
  ℕ, ◌≤◌, List, [], ◌∷◌, some, ◌==◌, ◌≡◌, inl, inr, refl, sym, ◌∙◌, ap, arith, Bool-cases, Returns,
  Returns-bind, Returns-map, Each, Each-map, count, lookup, Absent, IsDict, pair_eq, string_eq,
  nat_eq, option_eq,
}
use kafka_utils.Cluster.Objects.{Store, replicas}
use kafka_utils.Cluster.Broker.{IsLinked}
use kafka_utils.Cluster.Topology.{
  Name, Assignment, Topology, broker_ids, name_of, brokers_of, update_cluster_topology,
}
use kafka_utils.Cluster.Topology.Exchange.{IsOnlyAt, Replaced, set_new_replicas_total}

-- The dictionaries of a cluster are keyed by what their objects say.
pub record IsWellFormed (c : Topology) : Type 0 where
  pub views : IsLinked c.store
  pub broker_keys : (i b : ℕ) → lookup i c.brokers ≡ some b → (c.store.broker b).id ≡ i
  pub partition_keys : (n : Name) (p : ℕ) → lookup n c.partitions ≡ some p → name_of c.store p ≡ n

-- An entry of an assignment whose partition and brokers the cluster has, no broker twice.
pub record IsKnown (c : Topology) (e : Name × List ℕ) : Type 0 where
  pub partition : ℕ
  pub found : lookup e.0 c.partitions ≡ some partition
  pub brokers : Each (λ i. (b : ℕ) × (lookup i c.brokers ≡ some b)) e.1
  pub once : (i : ℕ) → count i e.1 ≤ 1

abbrev Resolved : Topology → List ℕ → List ℕ → Type 0
Resolved c is bs =
    (broker_ids c.store bs ≡ is) × ((b : ℕ) → count b bs ≤ count (c.store.broker b).id is)

resolved-count :
    (c : Topology) (b i : ℕ) (bs is : List ℕ) (a : ℕ)
    → (c.store.broker b).id ≡ i
    → count a bs ≤ count (c.store.broker a).id is
    → count a (b ∷ bs) ≤ count (c.store.broker a).id (i ∷ is)
unfolding count
resolved-count c b i bs is a e h = elim (Bool-cases (a == b)) [
  | inl q ↦
      let here : (c.store.broker a).id ≡ i = ap (λ x. (c.store.broker x).id) (ground arith) ∙ e in
      ground arith
  | inr q ↦ ground arith
]

brokers_of_total :
    (c : Topology) (is : List ℕ)
    → IsWellFormed c
    → Each (λ i. (b : ℕ) × (lookup i c.brokers ≡ some b)) is
    → Returns (Resolved c is) (brokers_of c is)
unfolding brokers_of count
brokers_of_total c [] w h = (refl, λ b. omega arith)
brokers_of_total c (i ∷ is) w h =
    let (b, e) = h.0 in
    rw (e, brokers_of)
      (Returns-bind (Resolved c is) (Resolved c (i ∷ is)) _ _ (brokers_of_total c is w h.1) (λ bs k.
        (
          ap₂ ◌∷◌ (w.broker_keys i b e) k.0,
          λ a. resolved-count c b i bs is a (w.broker_keys i b e) (k.1 a),
        )))

-- What an update with the entries `more` makes of the cluster `c`.
pub record IsUpdated (c : Topology) (more : Assignment) (t : Topology) : Type 0 where
  pub well_formed : IsWellFormed t
  pub same_brokers : t.brokers ≡ c.brokers
  pub same_partitions : t.partitions ≡ c.partitions
  pub ids : (b : ℕ) → (t.store.broker b).id ≡ (c.store.broker b).id
  pub names : (p : ℕ) → name_of t.store p ≡ name_of c.store p
  pub given :
      Each
        (λ e.
          (p : ℕ)
          → lookup e.0 c.partitions ≡ some p
          → broker_ids t.store (replicas t.store p) ≡ e.1)
        more
  pub others : (p : ℕ) → Absent (name_of c.store p) more → replicas t.store p ≡ replicas c.store p

IsWellFormed-at :
    (c : Topology) (p : ℕ) (s : Store)
    → IsWellFormed c
    → IsOnlyAt p c.store s
    → IsWellFormed (record c { store = s })
IsWellFormed-at c p s w o = record {
  views = o.views;
  broker_keys = λ i b e. o.ids b ∙ w.broker_keys i b e;
  partition_keys = λ n q e. o.names q ∙ w.partition_keys n q e;
}

IsKnown-at :
    (c : Topology) (s : Store) (e : Name × List ℕ)
    → IsKnown c e
    → IsKnown (record c { store = s }) e
IsKnown-at c s e k = record {
  partition = k.partition;
  found = k.found;
  brokers = k.brokers;
  once = k.once;
}

broker_ids-eq :
    (s t : Store) (bs : List ℕ)
    → ((b : ℕ) → (t.broker b).id ≡ (s.broker b).id)
    → broker_ids t bs ≡ broker_ids s bs
broker_ids-eq s t [] h = refl
broker_ids-eq s t (b ∷ bs) h = ap₂ ◌∷◌ (h b) (broker_ids-eq s t bs h)

module _ (c : Topology) (name : Name) (is : List ℕ) (more : Assignment) (w : IsWellFormed c)
    (k : IsKnown c (name, is)) (absent : Absent name more) where
  first_given :
      (bs : List ℕ) (s : Store) (t : Topology)
      → Resolved c is bs
      → Replaced c.store k.partition bs s
      → IsUpdated (record c { store = s }) more t
      → (p : ℕ) → p ≡ k.partition
      → broker_ids t.store (replicas t.store p) ≡ is
  first_given bs s t r o u p e =
      let named : name_of s p ≡ name =
        o.0.names p ∙ ap (name_of c.store) e ∙ w.partition_keys name k.partition k.found in
      let kept = u.others p (rw named absent) in
      ap (broker_ids t.store) (kept ∙ ap (replicas s) e ∙ o.1)
      ∙ broker_ids-eq c.store t.store bs (λ b. u.ids b ∙ o.0.ids b)
      ∙ r.0

  -- The update of one entry, then of the others.
  IsUpdated-first :
      (bs : List ℕ) (s : Store) (t : Topology)
      → Resolved c is bs
      → Replaced c.store k.partition bs s
      → IsUpdated (record c { store = s }) more t
      → IsUpdated c ((name, is) ∷ more) t
  IsUpdated-first bs s t r o u = record {
    well_formed = u.well_formed;
    same_brokers = u.same_brokers;
    same_partitions = u.same_partitions;
    ids = λ b. u.ids b ∙ o.0.ids b;
    names = λ p. u.names p ∙ o.0.names p;
    given = (λ p e. first_given bs s t r o u p (cc (e, k.found)), u.given);
    others = λ p h.
        u.others p (rw (o.0.names p) h.1)
        ∙ o.0.others p (λ e.
          h.0 (sym (w.partition_keys name k.partition k.found) ∙ ap (name_of c.store) (sym e)));
  }

-- In a well-formed cluster an update whose entries name each partition once, and only partitions
-- and brokers of the cluster, no broker twice in one entry, succeeds. Each named partition then
-- has the given brokers as its replicas, in the given order, all others keep theirs, and the
-- cluster stays well formed.
pub update_cluster_topology-IsUpdated :
    (c : Topology) (more : Assignment)
    → IsWellFormed c
    → IsDict more
    → Each (IsKnown c) more
    → Returns (IsUpdated c more) (update_cluster_topology c more)
unfolding update_cluster_topology
update_cluster_topology-IsUpdated c [] w d h = record {
  well_formed = w;
  same_brokers = refl;
  same_partitions = refl;
  ids = λ b. refl;
  names = λ p. refl;
  given = tt;
  others = λ p a. refl;
}
update_cluster_topology-IsUpdated c ((name, is) ∷ more) w d h =
    Returns-bind (Resolved c is) (IsUpdated c ((name, is) ∷ more)) _ _
      (brokers_of_total c is w h.0.brokers)
      (λ bs r.
        rw (h.0.found, update_cluster_topology)
          (Returns-bind (Replaced c.store h.0.partition bs) (IsUpdated c ((name, is) ∷ more)) _ _
            (set_new_replicas_total c.store h.0.partition bs w.views
              (λ b. le_trans (r.1 b) (h.0.once _)))
            (λ s o.
              Returns-map (IsUpdated (record c { store = s }) more) _ _
                (λ t u. IsUpdated-first c name is more w h.0 d.0 bs s t r o u)
                (update_cluster_topology-IsUpdated (record c { store = s }) more
                  (IsWellFormed-at c h.0.partition s w o.0) d.1
                  (Each-map (IsKnown c) (IsKnown (record c { store = s })) (IsKnown-at c s) more
                    h.1)))))
