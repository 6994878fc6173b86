-- ===== src/Cluster/Partition.antt =====
-- `Partition` (cluster_info/partition.py).
use kafka_utils.Base.{
  ℕ, zero, suc, ◌+◌, List, [], ◌∷◌, ◌++◌, true, ◌==◌, if◌then◌else◌, ℤ, is_negative, pos_part,
  Result, ok, raise, invalid_measurement, index_error, assertion_error, require, ◌>>=◌, ◌>>◌, ◌≡◌,
  arith, same, count, contains, length, sum_of,
}
use kafka_utils.Cluster.Objects.{Partition, Store, set_partition, replicas}

-- `Partition.__init__`, for a new partition with no replicas.
unfoldable pub create : ℕ → ℕ → ℤ → ℤ → Result Partition
create topic id weight size =
    if is_negative weight
    then raise invalid_measurement
    else (if is_negative size
        then raise invalid_measurement
        else ok (record {
          topic = topic;
          partition_id = id;
          replicas = [];
          weight = pos_part weight;
          size = pos_part size;
        }))

-- `xs[0]`
abbrev pub first : List ℕ → Result ℕ
first [] = raise index_error
first (x ∷ xs) = ok x

-- `xs[1:]`
abbrev pub rest : List ℕ → List ℕ
rest [] = []
rest (x ∷ xs) = xs

abbrev pub leader : Store → ℕ → Result ℕ
leader s p = first (replicas s p)

abbrev pub followers : Store → ℕ → List ℕ
followers s p = rest (replicas s p)

abbrev pub replication_factor : Store → ℕ → ℕ
replication_factor s p = length (replicas s p)

abbrev pub set_replicas : Store → ℕ → List ℕ → Store
set_replicas s p xs = set_partition s p (record (s.partition p) { replicas = xs })

unfoldable pub add_replica : Store → ℕ → ℕ → Store
add_replica s p b = set_replicas s p (replicas s p ++ b ∷ [])

-- `xs.index(a)`, for an `a` in `xs`.
unfoldable pub index : ℕ → List ℕ → ℕ
index a [] = 0
index a (x ∷ xs) = let i = index a xs in if a == x then 0 else suc i

-- What stands at place `i`, and `x` written there.
unfoldable pub exchange : ℕ → ℕ → List ℕ → ℕ × List ℕ
exchange x i [] = (x, [])
exchange x zero (y ∷ ys) = (y, x ∷ ys)
exchange x (suc i) (y ∷ ys) = let (z, zs) = exchange x i ys in (z, y ∷ zs)

-- `xs[0], xs[i] = xs[i], xs[0]`
unfoldable pub swap_first : ℕ → List ℕ → List ℕ
swap_first i [] = []
swap_first zero (x ∷ xs) = x ∷ xs
swap_first (suc i) (x ∷ xs) = let (z, zs) = exchange x i xs in z ∷ zs

-- `swap_leader`: the new store and the former leader.
unfoldable pub swap_leader : Store → ℕ → ℕ → Result (Store × ℕ)
swap_leader s p new = do
  require (contains new (replicas s p)) assertion_error
  old ← leader s p
  ok (set_replicas s p (swap_first (index new (replicas s p)) (replicas s p)), old)

-- `replace`, on the list of replicas: the first occurrence alone.
unfoldable pub replace_first : ℕ → ℕ → List ℕ → List ℕ
replace_first source dest [] = []
replace_first source dest (x ∷ xs) =
    let others = replace_first source dest xs in if x == source then dest ∷ xs else x ∷ others

unfoldable pub replace : Store → ℕ → ℕ → ℕ → Store
replace s p source dest = set_replicas s p (replace_first source dest (replicas s p))

unfoldable pub count_siblings : Store → ℕ → List ℕ → ℕ
count_siblings s p ps = sum_of (λ q. same (s.partition p).topic (s.partition q).topic) ps

exchange-count :
    (c a x : ℕ) (xs : List ℕ)
    → contains a xs ≡ true
    → ((exchange x (index a xs) xs).0 ≡ a)
      × (count c (exchange x (index a xs) xs).1 + same c a ≡ count c xs + same c x)
unfolding exchange index contains count
exchange-count c a x [] h = ground arith
exchange-count c a x (y ∷ ys) h = ground (arith, exchange-count c a x ys)

-- The swap brings the new leader to the front and only permutes the replicas.
pub swap_first-count :
    (c a : ℕ) (xs : List ℕ)
    → contains a xs ≡ true
    → (first (swap_first (index a xs) xs) ≡ ok a)
      × (count c (swap_first (index a xs) xs) ≡ count c xs)
unfolding swap_first index contains count
swap_first-count c a [] h = ground arith
swap_first-count c a (x ∷ xs) h = ground (arith, exchange-count c a x xs)

-- `replace_first`, read as a multiset.
pub count-replace_first :
    (c source dest : ℕ) (xs : List ℕ)
    → contains source xs ≡ true
    → count c (replace_first source dest xs) + same c source ≡ count c xs + same c dest
unfolding replace_first contains count
count-replace_first c source dest [] h = ground arith
count-replace_first c source dest (x ∷ xs) h = ground (arith, count-replace_first c source dest xs)
