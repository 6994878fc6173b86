-- ===== src/Offsets/Fetch.antt =====
-- Offsets and watermarks read from Kafka (kafka_utils/util/offsets.py).
use kafka_utils.Base.{
  ℕ, ◌+◌, String, List, [], ◌∷◌, ◌++◌, Bool, true, false, ◌==◌, Option, none, some, ℤ, pos, negsuc,
  eqb_ℤ, Result, ok, raise, assertion_error, index_error, key_error, kafka_error, require, ◌>>=◌,
  ◌>>◌, is_nil, length, map, Dict, lookup, insert, string_eq, nat_eq, if◌then◌else◌,
}
use kafka_utils.Offsets.Client.{
  FetchResponse, OffsetResponse, unknown_topic_or_partition, broker_response, other_failure, Client,
}
use kafka_utils.Offsets.Verify.{Topics, TopicsArg, verify_topics_and_partitions}

-- `d.setdefault(topic, {})[partition] = v`
unfoldable pub put {ℓ} :
    {V : Type ℓ} → String → ℕ → V → Dict String (Dict ℕ V) → Dict String (Dict ℕ V)
put topic partition v d =
    insert topic (insert partition v (elim (lookup topic d) [ none ↦ [] | some inner ↦ inner ])) d

-- One request for each partition of each topic, in order.
unfoldable pub for_partitions {ℓ} : {A : Type ℓ} → (String → ℕ → A) → Topics → List A
for_partitions f [] = []
for_partitions f ((topic, partitions) ∷ more) =
    map (λ p. f topic p) partitions ++ for_partitions f more

-- `xs[0]`
abbrev pub first_offset : List ℤ → Result ℤ
first_offset [] = raise index_error
first_offset (x ∷ xs) = ok x

pub record PartitionOffsets : Type 0 where
  pub topic : String
  pub partition : ℕ
  pub highmark : ℤ
  pub lowmark : ℤ

-- The dictionary {'highmark': …, 'lowmark': …} of a partition.
pub record Marks : Type 0 where
  pub highmark : Option ℤ
  pub lowmark : Option ℤ

abbrev no_marks : Marks
no_marks = record { highmark = none; lowmark = none }

-- `aggregated_offsets[topic][partition]`
unfoldable pub marks_at : String → ℕ → Dict String (Dict ℕ Marks) → Marks
marks_at topic partition d = elim (lookup topic d) [
  | none ↦ no_marks
  | some inner ↦ elim (lookup partition inner) [ none ↦ no_marks | some m ↦ m ]
]

abbrev mark_high : ℤ → Marks → Marks
mark_high o m = record m { highmark = some o }

abbrev mark_low : ℤ → Marks → Marks
mark_low o m = record m { lowmark = some o }

-- The loop over the responses of one kind.
unfoldable pub aggregate :
    (ℤ → Marks → Marks)
    → List OffsetResponse
    → Dict String (Dict ℕ Marks)
    → Result (Dict String (Dict ℕ Marks))
unfolding put marks_at
aggregate set [] d = ok d
aggregate set (resp ∷ resps) d = do
  o ← first_offset resp.offsets
  aggregate set resps
      (put resp.topic resp.partition (set o (marks_at resp.topic resp.partition d)) d)

-- `watermarks['highmark']`
abbrev mark : Option ℤ → Result ℤ
mark none = raise key_error
mark (some o) = ok o

abbrev pub Watermarks : Type 0
Watermarks = Dict String (Dict ℕ PartitionOffsets)

unfoldable pub both_marks : String → Dict ℕ Marks → Watermarks → Result Watermarks
unfolding put
both_marks topic [] acc = ok acc
both_marks topic ((partition, m) ∷ more) acc = do
  high ← mark m.highmark
  low ← mark m.lowmark
  both_marks topic more (
      put topic partition
        (record { topic = topic; partition = partition; highmark = high; lowmark = low }) acc)

unfoldable pub watermarks_of : Dict String (Dict ℕ Marks) → Watermarks → Result Watermarks
unfolding both_marks
watermarks_of [] acc = ok acc
watermarks_of ((topic, ms) ∷ more) acc = do acc' ← both_marks topic ms acc; watermarks_of more acc'

-- The loop over the responses of `get_current_consumer_offsets`.
unfoldable pub group_offsets : List FetchResponse → Dict String (Dict ℕ ℤ) → Dict String (Dict ℕ ℤ)
unfolding put
group_offsets [] d = d
group_offsets (resp ∷ resps) d = group_offsets resps (put resp.topic resp.partition resp.offset d)

module _ {World : Type 0} (client : Client World) where
  unfoldable pub pluck_topic_offset_or_zero_on_unknown : FetchResponse → Result FetchResponse
  pluck_topic_offset_or_zero_on_unknown resp =
      let plucked =
        if eqb_ℤ resp.offset (negsuc 0)
        then record resp { offset = pos 0; error = pos 0 }
        else resp in
      elim (client.check_fetch resp) [
        | none ↦ ok plucked
        | some failure ↦ elim failure [
          | unknown_topic_or_partition ↦ ok plucked
          | broker_response _ ↦ raise kafka_error
          | other_failure ↦ raise kafka_error
        ]
      ]

  unfoldable pub check_fetch_response_error : OffsetResponse → Result OffsetResponse
  check_fetch_response_error resp =
      let failed = record resp { offsets = negsuc 0 ∷ [] } in
      elim (client.check_offset resp) [
        | none ↦ ok resp
        | some failure ↦ elim failure [
          | unknown_topic_or_partition ↦ ok failed
          | broker_response _ ↦ ok failed
          | other_failure ↦ raise kafka_error
        ]
      ]

  unfoldable pub get_current_consumer_offsets :
      World → String → TopicsArg → Bool → Result (World × Dict String (Dict ℕ ℤ))
  unfolding verify_topics_and_partitions for_partitions group_offsets
  get_current_consumer_offsets w group topics raise_on_error = do
    valid ← verify_topics_and_partitions client w raise_on_error topics
    let reqs = for_partitions (λ t p. record { topic = t; partition = p }) valid
    elim (is_nil reqs) [
      | true ↦ ok (w, [])
      | false ↦ do
        (w', resps) ←
            client.send_offset_fetch_request_kafka w group reqs false
              pluck_topic_offset_or_zero_on_unknown
        ok (w', group_offsets resps [])
    ]

  unfoldable pub get_topics_watermarks : World → TopicsArg → Bool → Result (World × Watermarks)
  unfolding verify_topics_and_partitions for_partitions aggregate watermarks_of
  get_topics_watermarks w topics raise_on_error = do
    valid ← verify_topics_and_partitions client w raise_on_error topics
    let high =
        for_partitions
          (λ t p. record { topic = t; partition = p; time = negsuc 0; max_offsets = 1 }) valid
    let low =
        for_partitions
          (λ t p. record { topic = t; partition = p; time = negsuc 1; max_offsets = 1 }) valid
    elim (length high + length low == 0) [
      | true ↦ ok (w, [])
      | false ↦ do
        (w', highs) ← client.send_offset_request w high false check_fetch_response_error
        (w'', lows) ← client.send_offset_request w' low false check_fetch_response_error
        require (length highs == length lows) assertion_error
        d ← aggregate mark_high highs []
        d' ← aggregate mark_low lows d
        marks ← watermarks_of d' []
        ok (w'', marks)
    ]
