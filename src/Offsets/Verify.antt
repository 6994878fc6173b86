-- ===== src/Offsets/Verify.antt =====
-- The checks on topics and partitions (kafka_utils/util/offsets.py).
use kafka_utils.Base.{
  ℕ, String, List, [], ◌∷◌, Bool, true, false, not, ◌==◌, Option, none, some, ℤ, Result, ok, raise,
  type_error, key_error, unknown_topic, unknown_partitions, ◌>>=◌, is_nil, keep, contains, map,
  Dict, lookup, insert, string_eq, nat_eq,
}
use kafka_utils.Offsets.Client.{Client}

abbrev pub Topics : Type 0
Topics = Dict String (List ℕ)

-- The argument `topics`.
pub data TopicsArg : Type 0 where
  dict : Topics → TopicsArg
  sequence : List String → TopicsArg
  other : TopicsArg

-- `dict([(topic, []) for topic in topics])`
unfoldable pub without_partitions : Topics → List String → Topics
without_partitions acc [] = acc
without_partitions acc (t ∷ ts) = without_partitions (insert t [] acc) ts

unfoldable pub validate_topics_list_or_dict : TopicsArg → Result Topics
unfolding without_partitions
validate_topics_list_or_dict (dict d) = ok d
validate_topics_list_or_dict (sequence ts) = ok (without_partitions [] ts)
validate_topics_list_or_dict other = raise type_error

-- `set(xs)`, in the order of first occurrence.
unfoldable pub unique : List ℕ → List ℕ
unique [] = []
unique (x ∷ xs) = x ∷ keep (λ y. not (x == y)) (unique xs)

-- `set(xs) - set(ys)`
unfoldable pub minus : List ℕ → List ℕ → List ℕ
unfolding unique
minus xs ys = keep (λ x. not (contains x ys)) (unique xs)

module _ {World : Type 0} (client : Client World) (w : World) (raise_on_error : Bool) where
  -- The partitions of a known topic that are kept.
  unfoldable pub valid_partitions : String → List ℕ → Result (List ℕ)
  unfolding minus
  valid_partitions topic partitions =
      let ids = client.get_partition_ids_for_topic w topic in
      let unknown = minus partitions ids in
      elim (is_nil partitions) [
        | true ↦ ok ids
        | false ↦ elim (is_nil unknown) [
          | true ↦ ok partitions
          | false ↦ elim raise_on_error [
            | true ↦ raise unknown_partitions
            | false ↦ ok (minus partitions unknown)
          ]
        ]
      ]

  -- The loop, with the topics found valid so far.
  unfoldable pub verify_each : Topics → Topics → Result Topics
  unfolding valid_partitions
  verify_each valid_topics [] = ok valid_topics
  verify_each valid_topics ((topic, partitions) ∷ more) =
      elim (client.has_metadata_for_topic w topic) [
        | false ↦ elim raise_on_error [
          | true ↦ raise unknown_topic
          | false ↦ verify_each valid_topics more
        ]
        | true ↦ do
          valid ← valid_partitions topic partitions
          verify_each (insert topic valid valid_topics) more
      ]

  unfoldable pub verify_topics_and_partitions : TopicsArg → Result Topics
  unfolding verify_each validate_topics_list_or_dict
  verify_topics_and_partitions topics = do d ← validate_topics_list_or_dict topics; verify_each [] d

-- The argument `new_offsets`; `none` is a value that is no dictionary.
abbrev pub NewOffsets : Type 0
NewOffsets = Option (Dict String (Option (Dict ℕ ℤ)))

unfoldable pub all_dicts : Dict String (Option (Dict ℕ ℤ)) → Result (Dict String (Dict ℕ ℤ))
all_dicts [] = ok []
all_dicts ((topic, none) ∷ more) = raise type_error
all_dicts ((topic, some d) ∷ more) = do ds ← all_dicts more; ok ((topic, d) ∷ ds)

-- `d[k]`
unfoldable pub offset_at : ℕ → Dict ℕ ℤ → Result ℤ
offset_at p d = elim (lookup p d) [ none ↦ raise key_error | some o ↦ ok o ]

unfoldable pub offsets_of : String → Dict String (Dict ℕ ℤ) → Result (Dict ℕ ℤ)
offsets_of topic d = elim (lookup topic d) [ none ↦ raise key_error | some o ↦ ok o ]

unfoldable pub select : Dict ℕ ℤ → List ℕ → Result (Dict ℕ ℤ)
unfolding offset_at
select d [] = ok []
select d (p ∷ ps) = do o ← offset_at p d; rest ← select d ps; ok ((p, o) ∷ rest)

-- The result of `_verify_commit_offsets_requests`, from the valid topics.
unfoldable pub select_all : Dict String (Dict ℕ ℤ) → Topics → Result (Dict String (Dict ℕ ℤ))
unfolding offsets_of select
select_all new_offsets [] = ok []
select_all new_offsets ((topic, partitions) ∷ more) = do
  rest ← select_all new_offsets more
  elim (is_nil partitions) [
    | true ↦ ok rest
    | false ↦ do
      d ← offsets_of topic new_offsets
      chosen ← select d partitions
      ok ((topic, chosen) ∷ rest)
  ]

abbrev pub keys_of : Dict String (Dict ℕ ℤ) → Topics
keys_of ds = map (λ e. (e.0, map (λ o. o.0) e.1)) ds

module _ {World : Type 0} (client : Client World) (w : World) (raise_on_error : Bool) where
  unfoldable pub verify_commit_offsets_requests : NewOffsets → Result (Dict String (Dict ℕ ℤ))
  unfolding all_dicts select_all verify_topics_and_partitions
  verify_commit_offsets_requests none = raise type_error
  verify_commit_offsets_requests (some given) = do
    new_offsets ← all_dicts given
    valid_topics ← verify_topics_and_partitions client w raise_on_error (dict (keys_of new_offsets))
    select_all new_offsets valid_topics
