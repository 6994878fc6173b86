-- ===== src/Commands/Reduce.antt =====
-- `Command.get_reduced_assignment` (kafka_cluster_manager/cmds/command.py).
use kafka_utils.Base.{
  ℕ, zero, suc, List, [], ◌∷◌, ◌++◌, map, Bool, true, false, not, ◌&&◌, ◌||◌, leb, if◌then◌else◌,
  Option, none, some, lookup, insert, pair_eq, string_eq, nat_eq, ℤ, is_negative, pos_part, Result,
  ok, raise, ◌>>=◌, key_error, value_error, is_nil, keep, all_of, contains,
}
use kafka_utils.Cluster.Topology.{Topology, Name, Assignment, assignment, same_list}
use kafka_utils.Commands.Actions.{Action, extract_actions_unique_topics}

-- `len(set(xs))`
abbrev pub unique_length : List ℕ → ℕ
unique_length [] = 0
unique_length (x ∷ xs) = if contains x xs then unique_length xs else suc (unique_length xs)

-- `set(xs) == set(ys)`
abbrev pub same_set : List ℕ → List ℕ → Bool
same_set xs ys = all_of (λ x. contains x ys) xs && all_of (λ y. contains y xs) ys

-- `len(set(xs) - set(ys))`
abbrev pub moves : List ℕ → List ℕ → ℕ
moves xs ys = unique_length (keep (λ x. not (contains x ys)) xs)

unfoldable pub leaders_changes : Assignment → Assignment → Result Assignment
leaders_changes new_assignment [] = ok []
leaders_changes new_assignment ((t_p, replica) ∷ more) = elim (lookup t_p new_assignment) [
  | none ↦ raise key_error
  | some new ↦ do
    rest ← leaders_changes new_assignment more
    ok (if not (same_list replica new) && same_set replica new then (t_p, new) ∷ rest else rest)
]

unfoldable pub partition_change_count : Assignment → Assignment → Result (List Action)
partition_change_count new_assignment [] = ok []
partition_change_count new_assignment ((t_p, replica) ∷ more) = elim (lookup t_p new_assignment) [
  | none ↦ raise key_error
  | some new ↦ do
    rest ← partition_change_count new_assignment more
    ok (if same_set replica new then rest else (t_p, moves replica new) ∷ rest)
]

-- `cluster_topology.partitions[t_p].size`; the names that are asked for are those of the new
-- assignment, which `assignment` takes from these partitions, so none is missing.
unfoldable pub size_of : Topology → Name → ℕ
size_of c t_p = elim (lookup t_p c.partitions) [ none ↦ 0 | some p ↦ (c.store.partition p).size ]

-- `min` of a list, a ValueError if it is empty.
unfoldable pub smallest : List ℕ → Result ℕ
smallest [] = raise value_error
smallest (x ∷ []) = ok x
smallest (x ∷ y ∷ more) = do m ← smallest (y ∷ more); ok (if leb x m then x else m)

unfoldable pub proposals : Assignment → List Name → Result Assignment
proposals new_assignment [] = ok []
proposals new_assignment (t_p ∷ more) = elim (lookup t_p new_assignment) [
  | none ↦ raise key_error
  | some new ↦ do rest ← proposals new_assignment more; ok ((t_p, new) ∷ rest)
]

-- `xs[:n]`
abbrev pub take {ℓ} : {A : Type ℓ} → ℕ → List A → List A
take zero xs = []
take (suc n) [] = []
take (suc n) (x ∷ xs) = x ∷ take n xs

-- A dictionary comprehension.
unfoldable pub dict_of : Assignment → Assignment → Assignment
dict_of [] d = d
dict_of ((k, v) ∷ more) d = dict_of more (insert k v d)

-- An infinite size is `none`.
abbrev pub negative_size : Option ℤ → Bool
negative_size none = false
negative_size (some z) = is_negative z

abbrev pub size_limit : Option ℤ → Option ℕ
size_limit none = none
size_limit (some z) = some (pos_part z)

module _ (original_assignment : Assignment) (cluster_topology : Topology)
    (max_partition_movements max_leader_only_changes : ℤ) (max_movement_size : Option ℤ)
    (force_progress : Bool) where
  abbrev size : Name → ℕ
  size = size_of cluster_topology

  -- The choice of actions, made again with the smallest size if nothing was chosen and progress
  -- is to be forced.
  unfoldable pub reduced_actions : List Action → Result (List Name)
  unfolding smallest size_of
  reduced_actions counts = do
    let max_movements = pos_part max_partition_movements
    actions ← extract_actions_unique_topics size max_movements (size_limit max_movement_size) counts
    elim (is_nil actions && force_progress) [
      | false ↦ ok actions
      | true ↦ do
        smallest_size ← smallest (map (λ a. size a.0) counts)
        extract_actions_unique_topics size max_movements (some smallest_size) counts
    ]

  unfoldable pub get_reduced_assignment : Result Assignment
  unfolding leaders_changes partition_change_count reduced_actions proposals dict_of
  get_reduced_assignment = do
    let new_assignment = assignment cluster_topology
    elim (is_nil original_assignment
        || is_nil new_assignment
        || is_negative max_partition_movements
        || is_negative max_leader_only_changes
        || negative_size max_movement_size) [
          | true ↦ ok []
          | false ↦ do
            leaders ← leaders_changes new_assignment original_assignment
            counts ← partition_change_count new_assignment original_assignment
            actions ← reduced_actions counts
            changes ← proposals new_assignment actions
            ok (dict_of (changes ++ take (pos_part max_leader_only_changes) leaders) [])
        ]
