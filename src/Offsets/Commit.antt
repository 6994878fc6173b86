-- ===== src/Offsets/Commit.antt =====
-- Offsets committed to Kafka (kafka_utils/util/offsets.py).
use kafka_utils.Base.{
  ℕ, String, List, [], ◌∷◌, ◌++◌, Bool, true, false, not, none, some, ℤ, pos, eqb_ℤ, Result, ok,
  raise, key_error, value_error, kafka_error, ◌>>=◌, is_nil, keep, map, Dict, lookup, string_eq,
  nat_eq,
}
use kafka_utils.Offsets.Client.{
  CommitRequest, CommitResponse, Status, response, commit_error, unknown_topic_or_partition,
  broker_response, other_failure, Client, send_offset_commit_request_kafka,
}
use kafka_utils.Offsets.Verify.{
  Topics, TopicsArg, dict, NewOffsets, verify_topics_and_partitions, verify_commit_offsets_requests,
}
use kafka_utils.Offsets.Fetch.{PartitionOffsets, Watermarks, get_topics_watermarks}

-- `HIGH_WATERMARK`, `LOW_WATERMARK` and any other text.
pub data Watermark : Type 0 where
  high_watermark low_watermark unknown_watermark : Watermark

-- `watermark_offsets[topic][partition]`
unfoldable pub watermark_at : Watermarks → String → ℕ → Result PartitionOffsets
watermark_at d topic partition = elim (lookup topic d) [
  | none ↦ raise key_error
  | some inner ↦ elim (lookup partition inner) [ none ↦ raise key_error | some o ↦ ok o ]
]

unfoldable pub commit_partitions :
    (String → ℕ → Result ℤ) → String → List ℕ → Result (List CommitRequest)
commit_partitions offset topic [] = ok []
commit_partitions offset topic (p ∷ ps) = do
  o ← offset topic p
  rest ← commit_partitions offset topic ps
  ok (record { topic = topic; partition = p; offset = o; metadata = "" } ∷ rest)

unfoldable pub commit_requests : (String → ℕ → Result ℤ) → Topics → Result (List CommitRequest)
unfolding commit_partitions
commit_requests offset [] = ok []
commit_requests offset ((topic, partitions) ∷ more) = do
  reqs ← commit_partitions offset topic partitions
  rest ← commit_requests offset more
  ok (reqs ++ rest)

-- The offset that a commit to a watermark sends.
unfoldable pub mark_offset : Watermark → Watermarks → String → ℕ → Result ℤ
unfolding watermark_at
mark_offset high_watermark d topic p = do o ← watermark_at d topic p; ok o.highmark
mark_offset low_watermark d topic p = do o ← watermark_at d topic p; ok o.lowmark
mark_offset unknown_watermark d topic p = raise value_error

-- The requests, or ValueError for an unknown watermark.
unfoldable pub mark_requests : Watermark → Watermarks → Topics → Result (List CommitRequest)
unfolding commit_requests mark_offset
mark_requests unknown_watermark d topics = raise value_error
mark_requests watermark d topics = commit_requests (mark_offset watermark d) topics

-- The truth value of a status: a response is a named tuple with three fields, and an exception
-- object is true.
abbrev pub status_truthy : Status → Bool
status_truthy _ = true

-- `_f.error != 0`: the error of an `OffsetCommitError` is a text.
unfoldable pub has_error : Status → Bool
has_error (response resp) = not (eqb_ℤ resp.error (pos 0))
has_error (commit_error topic partition error) = true

unfoldable pub offset_requests : Dict String (Dict ℕ ℤ) → List CommitRequest
offset_requests [] = []
offset_requests ((topic, offsets) ∷ more) =
    map (λ o. record { topic = topic; partition = o.0; offset = o.1; metadata = "" }) offsets
    ++ offset_requests more

unfoldable pub nullify_partition_offsets : Dict ℕ ℤ → Dict ℕ ℤ
nullify_partition_offsets [] = []
nullify_partition_offsets ((partition, o) ∷ more) =
    (partition, pos 0) ∷ nullify_partition_offsets more

unfoldable pub nullify_offsets : Dict String (Dict ℕ ℤ) → Dict String (Dict ℕ ℤ)
unfolding nullify_partition_offsets
nullify_offsets [] = []
nullify_offsets ((topic, offsets) ∷ more) =
    (topic, nullify_partition_offsets offsets) ∷ nullify_offsets more

module _ {World : Type 0} (client : Client World) where
  -- The message of the exception stands for its error.
  unfoldable pub check_commit_response_error : CommitResponse → Result Status
  check_commit_response_error resp = elim (client.check_commit resp) [
    | none ↦ ok (response resp)
    | some failure ↦ elim failure [
      | unknown_topic_or_partition ↦
          ok (commit_error resp.topic resp.partition "UNKNOWN_TOPIC_OR_PARTITION")
      | broker_response message ↦ ok (commit_error resp.topic resp.partition message)
      | other_failure ↦ raise kafka_error
    ]
  ]

  -- The requests are sent if there are any.
  unfoldable pub send_commits :
      World → String → List CommitRequest → Bool → Result (World × List Status)
  unfolding send_offset_commit_request_kafka check_commit_response_error
  send_commits w group reqs raise_on_error = elim (is_nil reqs) [
    | true ↦ ok (w, [])
    | false ↦
        send_offset_commit_request_kafka client w group reqs raise_on_error
          check_commit_response_error
  ]

  unfoldable pub commit_offsets_to_watermark :
      World → String → TopicsArg → Watermark → Bool → Result (World × List Status)
  unfolding mark_requests send_commits verify_topics_and_partitions get_topics_watermarks
  commit_offsets_to_watermark w group topics watermark raise_on_error = do
    valid ← verify_topics_and_partitions client w raise_on_error topics
    (w', marks) ← get_topics_watermarks client w (dict valid) raise_on_error
    reqs ← mark_requests watermark marks valid
    (w'', status) ← send_commits w' group reqs raise_on_error
    ok (w'', keep status_truthy status)

  unfoldable pub advance_consumer_offsets :
      World → String → TopicsArg → Bool → Result (World × List Status)
  unfolding commit_offsets_to_watermark
  advance_consumer_offsets w group topics raise_on_error = do
    w' ← client.load_metadata_for_topics w
    commit_offsets_to_watermark w' group topics high_watermark raise_on_error

  unfoldable pub rewind_consumer_offsets :
      World → String → TopicsArg → Bool → Result (World × List Status)
  unfolding commit_offsets_to_watermark
  rewind_consumer_offsets w group topics raise_on_error = do
    w' ← client.load_metadata_for_topics w
    commit_offsets_to_watermark w' group topics low_watermark raise_on_error

  unfoldable pub set_consumer_offsets :
      World → String → NewOffsets → Bool → Result (World × List Status)
  unfolding verify_commit_offsets_requests offset_requests send_commits has_error
  set_consumer_offsets w group new_offsets raise_on_error = do
    valid ← verify_commit_offsets_requests client w raise_on_error new_offsets
    (w', status) ← send_commits w group (offset_requests valid) raise_on_error
    ok (w', keep has_error status)
