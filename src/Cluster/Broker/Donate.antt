-- ===== src/Cluster/Broker/Donate.antt =====
-- `donate_leadership` (cluster_info/broker.py).
pub mod Ends
use kafka_utils.Base.{
  ℕ, zero, suc, ◌+◌, List, [], ◌∷◌, ◌++◌, Bool, true, false, not, ◌&&◌, ◌||◌, ◌==◌, if◌then◌else◌,
  ltb, leb, Option, none, some, Result, ok, raise, value_error, out_of_fuel, require, ◌>>=◌, ◌>>◌,
  contains, erase, keep, any_of,
}
use kafka_utils.Cluster.Objects.{Store, partitions}
use kafka_utils.Cluster.Partition.{leader, followers, replication_factor, swap_leader}
use kafka_utils.Cluster.Broker.Calls.{count_preferred_replica}

-- What the donations read and change: the cluster, the brokers to leave alone, and the edges
-- (partition, new leader, former leader) used.
pub record Donation : Type 0 where
  pub store : Store
  pub skip_brokers : List ℕ
  pub used_edges : List (ℕ × ℕ × ℕ)

-- The partitions with followers that the broker leads.
unfoldable pub led_by_self : Store → ℕ → List ℕ → Result (List ℕ)
led_by_self s b [] = ok []
led_by_self s b (p ∷ ps) = do
  l ← leader s p
  qs ← led_by_self s b ps
  ok (if (b == l) && ltb 1 (replication_factor s p) then p ∷ qs else qs)

-- `(partition, self, follower) in used_edges`
abbrev is_used : ℕ → ℕ → ℕ → List (ℕ × ℕ × ℕ) → Bool
is_used p b f edges = any_of (λ e. (e.0 == p) && (e.1 == b) && (e.2 == f)) edges

module _ (opt_count : ℕ) where
  -- Whether the donor is balanced: one to be revoked must lead no partition.
  unfoldable pub relieve : ℕ → Donation → Result (Option Bool × Donation)
  relieve b st = do
    n ← count_preferred_replica st.store b
    let revoked = (st.store.broker b).revoked_leadership
    ok (some ((leb n (opt_count + 1) && not revoked) || ((n == 0) && revoked)), st)

  -- The branches after the recursive call: revert the donation, or let it stand.
  unfoldable pub judge : ℕ → ℕ → ℕ → Donation → Result (Option Bool × Donation)
  unfolding relieve
  judge b p f st = do
    n ← count_preferred_replica st.store f
    let edges = st.used_edges ++ (p, f, b) ∷ []
    elim (ltb (opt_count + 1) n) [
      | true ↦ do
        (s, _) ← swap_leader st.store p b
        ok (none, record st { store = s; used_edges = edges })
      | false ↦ do
        require (contains f st.skip_brokers) value_error
        relieve b (record st { used_edges = edges; skip_brokers = erase f st.skip_brokers })
    ]

  -- One round of the inner loop: `none` for the next follower, and otherwise whether to return.
  unfoldable pub give :
      (ℕ → Donation → Result Donation) → ℕ → ℕ → ℕ → Donation → Result (Option Bool × Donation)
  unfolding judge
  give again b p f st = do
    (s, _) ← swap_leader st.store p f
    let given = record st { store = s; used_edges = st.used_edges ++ (p, f, b) ∷ [] }
    n ← count_preferred_replica s f
    elim (leb n (opt_count + 1)) [
      | true ↦ relieve b given
      | false ↦ do
        st' ← again f (record given { skip_brokers = st.skip_brokers ++ f ∷ [] })
        judge b p f st'
    ]

  -- The inner loop, with `true` for `return`.
  unfoldable pub give_one_of :
      (ℕ → Donation → Result Donation) → ℕ → ℕ → List ℕ → Donation → Result (Bool × Donation)
  unfolding give
  give_one_of again b p [] st = ok (false, st)
  give_one_of again b p (f ∷ fs) st = elim (is_used p b f st.used_edges) [
    | true ↦ give_one_of again b p fs st
    | false ↦ do
      (done, st') ← give again b p f st
      elim done [ none ↦ give_one_of again b p fs st' | some d ↦ ok (d, st') ]
  ]

  unfoldable pub donate_from :
      (ℕ → Donation → Result Donation) → ℕ → List ℕ → Donation → Result Donation
  unfolding give_one_of
  donate_from again b [] st = ok st
  donate_from again b (p ∷ ps) st = do
    (done, st') ←
        give_one_of again b p (keep (λ f. not (contains f st.skip_brokers)) (followers st.store p))
          st
    elim done [ true ↦ ok st' | false ↦ donate_from again b ps st' ]

  -- The recursion, on the number of nested calls left.
  unfoldable pub donate_leadership : ℕ → ℕ → Donation → Result Donation
  unfolding donate_from led_by_self
  donate_leadership zero b st = raise out_of_fuel
  donate_leadership (suc depth) b st = do
    owned ← led_by_self st.store b (partitions st.store b)
    donate_from (donate_leadership depth) b owned st
