-- ===== src/Plan/Written.antt =====
-- A plan as the JSON value that `assignment_to_plan` makes (util/validation.py), and what the format
-- check and the reading make of it.
use kafka_utils.Base.{
  List, [], ◌∷◌, true, not, ◌&&◌, all_of, is_nil, ℤ, pos, ok, lookup, string_eq, ◌≡◌, refl, ap,
  Bool-cases, inl, inr,
}
use kafka_utils.Plan.Json.{
  Json, int, text, arr, obj, Items, nil, cons, field, end, items, equals_one, truthy, int_value,
}
use kafka_utils.Plan.Entry.{PData}
use kafka_utils.Plan.Format.{
  is_int, check_replicas, check_entry, check_entries, check_partitions, validate_format, at_key,
  read_ints, read_entry, read_entries, read_plan,
}

unfoldable pub write_ints : List ℤ → Items
write_ints [] = nil
write_ints (z ∷ zs) = cons (int z) (write_ints zs)

unfoldable pub write_entry : PData → Json
unfolding write_ints
write_entry p = obj (
    field "topic" (text p.topic)
      (field "partition" (int p.partition) (field "replicas" (arr (write_ints p.replicas)) end)))

unfoldable pub write_entries : List PData → Items
unfolding write_entry
write_entries [] = nil
write_entries (p ∷ ps) = cons (write_entry p) (write_entries ps)

unfoldable pub write_plan : List PData → Json
unfolding write_entries
write_plan ps =
    obj (field "version" (int (pos 1)) (field "partitions" (arr (write_entries ps)) end))

read_ints-write_ints : (zs : List ℤ) → read_ints (items (write_ints zs)) ≡ ok zs
unfolding read_ints write_ints int_value
read_ints-write_ints [] = refl
read_ints-write_ints (z ∷ zs) = rw (read_ints-write_ints zs) refl

read_entry-write_entry : (p : PData) → read_entry (write_entry p) ≡ ok p
unfolding read_entry write_entry at_key lookup int_value
read_entry-write_entry p = rw (read_ints-write_ints p.replicas) refl

read_entries-write_entries : (ps : List PData) → read_entries (items (write_entries ps)) ≡ ok ps
unfolding read_entries write_entries
read_entries-write_entries [] = refl
read_entries-write_entries (p ∷ ps) =
    rw (read_entry-write_entry p, read_entries-write_entries ps) refl

ints_good : (zs : List ℤ) → all_of is_int (items (write_ints zs)) ≡ true
unfolding write_ints is_int int_value
ints_good [] = refl
ints_good (z ∷ zs) = ints_good zs

replicas_good : (zs : List ℤ) → check_replicas (arr (write_ints zs)) ≡ not (is_nil zs)
unfolding check_replicas write_ints
replicas_good [] = refl
replicas_good (z ∷ zs) = ints_good zs

check_entry-write_entry : (p : PData) → check_entry (write_entry p) ≡ ok (not (is_nil p.replicas))
unfolding check_entry write_entry at_key lookup is_int int_value
check_entry-write_entry p = ap ok (replicas_good p.replicas)

check_entries-write_entries :
    (ps : List PData)
    → check_entries (items (write_entries ps)) ≡ ok (all_of (λ p. not (is_nil p.replicas)) ps)
unfolding check_entries write_entries
check_entries-write_entries [] = refl
check_entries-write_entries (p ∷ ps) = elim (Bool-cases (not (is_nil p.replicas))) [
  | inl e ↦ rw (check_entry-write_entry p) (rw e (check_entries-write_entries ps))
  | inr e ↦ rw (check_entry-write_entry p) (rw e refl)
]

check_partitions-write_entries :
    (ps : List PData)
    → check_partitions (arr (write_entries ps))
      ≡ ok (not (is_nil ps) && all_of (λ p. not (is_nil p.replicas)) ps)
unfolding check_partitions write_entries truthy
check_partitions-write_entries [] = refl
check_partitions-write_entries (p ∷ ps) = check_entries-write_entries (p ∷ ps)

-- A plan that was written passes the format check exactly if it has a partition and each one has a
-- replica, and it is read as it was written.
pub read_plan-write_plan :
    (ps : List PData)
    → (read_plan (write_plan ps) ≡ ok ps)
      × (validate_format (write_plan ps)
          ≡ ok (not (is_nil ps) && all_of (λ p. not (is_nil p.replicas)) ps))
unfolding read_plan write_plan validate_format check_partitions at_key lookup equals_one truthy
read_plan-write_plan ps = (read_entries-write_entries ps, check_partitions-write_entries ps)
