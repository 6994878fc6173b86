-- ===== src/Plan/Format.antt =====
-- `_validate_format` (util/validation.py), and the reading of a plan that passed it.
use kafka_utils.Base.{
  String, List, [], ◌∷◌, Bool, true, false, not, ◌&&◌, if◌then◌else◌, all_of, any_of, is_nil, map,
  none, some, ℤ, Result, ok, raise, attribute_error, key_error, type_error, ◌>>=◌, lookup,
  string_eq, Dict,
}
use kafka_utils.Plan.Json.{Json, text, arr, obj, items, fields, truthy, equals_one, int_value}
use kafka_utils.Plan.Entry.{PData}

-- `k in ks`
abbrev pub listed : String → List String → Bool
listed k ks = any_of (λ j. string_eq.beq j k) ks

-- `set(d.keys()) == set(ks)`
abbrev pub keys_are : List String → Dict String Json → Bool
keys_are ks d = all_of (λ e. listed e.0 ks) d && all_of (λ k. listed k (map (λ e. e.0) d)) ks

-- `d[k]`
unfoldable pub at_key : String → Dict String Json → Result Json
at_key k d = elim (lookup k d) [ none ↦ raise key_error | some j ↦ ok j ]

unfoldable pub is_int : Json → Bool
unfolding int_value
is_int j = elim (int_value j) [ none ↦ false | some _ ↦ true ]

abbrev pub is_text : Json → Bool
is_text (text s) = true
is_text _ = false

-- The checks on `p_data['replicas']`.
unfoldable pub check_replicas : Json → Bool
unfolding is_int
check_replicas (arr js) = not (is_nil (items js)) && all_of is_int (items js)
check_replicas _ = false

-- The body of the loop over the partitions.
unfoldable pub check_entry : Json → Result Bool
unfolding at_key is_int check_replicas
check_entry (obj fs) =
    if keys_are ("topic" ∷ "partition" ∷ "replicas" ∷ []) (fields fs)
    then (do
      topic ← at_key "topic" (fields fs)
      partition ← at_key "partition" (fields fs)
      replicas ← at_key "replicas" (fields fs)
      ok (is_text topic && is_int partition && check_replicas replicas))
    else ok false
check_entry _ = raise attribute_error

-- The loop returns at the first entry that fails.
unfoldable pub check_entries : List Json → Result Bool
unfolding check_entry
check_entries [] = ok true
check_entries (j ∷ js) = do
  good ← check_entry j
  elim good [ true ↦ check_entries js | false ↦ ok false ]

unfoldable pub check_partitions : Json → Result Bool
unfolding check_entries truthy
check_partitions (arr js) = if truthy (arr js) then check_entries (items js) else ok false
check_partitions _ = ok false

-- `_validate_format`
unfoldable pub validate_format : Json → Result Bool
unfolding check_partitions at_key equals_one
validate_format (obj fs) =
    if keys_are ("version" ∷ "partitions" ∷ []) (fields fs)
    then (do
      version ← at_key "version" (fields fs)
      partitions ← at_key "partitions" (fields fs)
      elim (equals_one version) [ true ↦ check_partitions partitions | false ↦ ok false ])
    else ok false
validate_format _ = raise attribute_error

-- What the code after `_validate_format` reads from an entry and from a plan: subscripts, and
-- values of the types that were checked.
unfoldable pub read_ints : List Json → Result (List ℤ)
unfolding int_value
read_ints [] = ok []
read_ints (j ∷ js) = elim (int_value j) [
  | none ↦ raise type_error
  | some z ↦ do zs ← read_ints js; ok (z ∷ zs)
]

abbrev pub read_text : Json → Result String
read_text (text s) = ok s
read_text _ = raise type_error

abbrev pub read_int : Json → Result ℤ
unfolding int_value
read_int j = elim (int_value j) [ none ↦ raise type_error | some z ↦ ok z ]

abbrev pub read_list : Json → Result (List Json)
read_list (arr js) = ok (items js)
read_list _ = raise type_error

unfoldable pub read_entry : Json → Result PData
unfolding at_key int_value read_ints
read_entry (obj fs) = do
  topic ← at_key "topic" (fields fs)
  partition ← at_key "partition" (fields fs)
  replicas ← at_key "replicas" (fields fs)
  t ← read_text topic
  p ← read_int partition
  rs ← read_list replicas
  zs ← read_ints rs
  ok (record { topic = t; partition = p; replicas = zs })
read_entry _ = raise type_error

unfoldable pub read_entries : List Json → Result (List PData)
unfolding read_entry
read_entries [] = ok []
read_entries (j ∷ js) = do p ← read_entry j; ps ← read_entries js; ok (p ∷ ps)

unfoldable pub read_plan : Json → Result (List PData)
unfolding at_key read_entries
read_plan (obj fs) = do
  partitions ← at_key "partitions" (fields fs)
  js ← read_list partitions
  read_entries js
read_plan _ = raise type_error
