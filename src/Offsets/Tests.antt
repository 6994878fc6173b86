-- ===== src/Offsets/Tests.antt =====
-- A client that answers from a fixed list of topics, and the theorems at it.
use kafka_utils.Base.{
  eqb_ℤ, ◌==◌, arith, ℤ, Dict, ℕ, String, List, [], ◌∷◌, true, false, none, some, ◌≡◌, ◌≢◌, ◌↔◌,
  refl, pos, if◌then◌else◌, key_error, Result, ok, raise, ◌>>=◌, Returns, Each, map, contains,
  lookup, insert, string_eq, nat_eq,
}
use kafka_utils.Offsets.Client.{
  commit_error, broker_response, OffsetRequest, OffsetResponse, CommitRequest, CommitResponse,
  response, Client,
}
use kafka_utils.Offsets.Verify.{
  NewOffsets, Topics, dict, verify_topics_and_partitions, verify_commit_offsets_requests,
}
use kafka_utils.Offsets.Known.{
  IsKnownTopic, Outcomes, verify_topics_and_partitions_total,
  verify_topics_and_partitions_strict_iff,
}
use kafka_utils.Offsets.Fetch.{Watermarks, get_topics_watermarks, check_fetch_response_error}
use kafka_utils.Offsets.Chosen.{IsAccepted, verify_commit_offsets_requests-IsAccepted}
use kafka_utils.Offsets.Commit.{
  set_consumer_offsets, advance_consumer_offsets, offset_requests, high_watermark, mark_requests,
  commit_offsets_to_watermark,
}
use kafka_utils.Offsets.Report.{
  IsChecked, set_consumer_offsets_lem, commit_offsets_to_watermark_lem,
}

abbrev partitions_in : String → List ℕ
partitions_in topic = if string_eq.beq topic "events" then 0 ∷ 1 ∷ [] else []

abbrev answer_all :
    List OffsetRequest → (OffsetResponse → Result OffsetResponse) → Result (List OffsetResponse)
answer_all [] callback = ok []
answer_all (r ∷ rs) callback = do
  resp ←
      callback
        (record { topic = r.topic; partition = r.partition; error = pos 0; offsets = pos 7 ∷ [] })
  more ← answer_all rs callback
  ok (resp ∷ more)

-- The first partition of a topic is refused.
abbrev accept_all : List CommitRequest → List CommitResponse
accept_all rs =
    map
      (λ r. record {
        topic = r.topic;
        partition = r.partition;
        error = if r.partition == 0 then pos 16 else pos 0;
      })
      rs

-- The world is the list of requests committed.
abbrev fixed : Client (List CommitRequest)
fixed = record {
  load_metadata_for_topics = λ w. ok w;
  has_metadata_for_topic = λ w topic. string_eq.beq topic "events";
  get_partition_ids_for_topic = λ w topic. partitions_in topic;
  send_offset_fetch_request_kafka = λ w group payloads fail callback. ok (w, []);
  send_offset_request = λ w payloads fail callback. do
    resps ← answer_all payloads callback
    ok (w, resps);
  send_consumer_aware_request = λ w group payloads. ok (payloads, accept_all payloads);
  raise_on_response_error = λ resp. ok false;
  check_fetch = λ resp. none;
  check_offset = λ resp. none;
  check_commit =
      λ resp. if eqb_ℤ resp.error (pos 0) then none else some (broker_response "not coordinator");
}

abbrev asked : Topics
asked = ("events", 1 ∷ 5 ∷ []) ∷ ("gone", []) ∷ []

lenient_run :
    verify_topics_and_partitions fixed [] false (dict asked) ≡ ok (("events", 1 ∷ []) ∷ [])
unfolding verify_topics_and_partitions contains insert
lenient_run = refl

-- A commit that succeeds is among the results of an advance.
advance_run :
    (do r ← advance_consumer_offsets fixed [] "g" (dict (("events", 1 ∷ []) ∷ [])) true; ok r.1)
    ≡ ok (response (record { topic = "events"; partition = 1; error = pos 0 }) ∷ [])
unfolding advance_consumer_offsets contains insert check_fetch_response_error lookup
advance_run = refl

set_run :
    (do
      r ← set_consumer_offsets fixed [] "g" (some (("events", some ((1, pos 3) ∷ [])) ∷ [])) true
      ok r.1)
    ≡ ok []
unfolding set_consumer_offsets contains insert lookup
set_run = refl

empty_run :
    set_consumer_offsets fixed [] "g" (some (("events", some []) ∷ [])) true ≡ raise key_error
unfolding set_consumer_offsets insert lookup
empty_run = refl

gone_events : ◌≢◌ {A = String} "gone" "events"
gone_events e = cc ((string_eq.beq_iff "gone" "events").1 e)

verify_topics_and_partitions_total_example :
    Returns (Outcomes fixed [] asked []) (verify_topics_and_partitions fixed [] false (dict asked))
verify_topics_and_partitions_total_example =
    verify_topics_and_partitions_total fixed [] false asked ((gone_events, tt), (tt, tt))
      (λ h. cc h)

abbrev present : Topics
present = ("events", 1 ∷ []) ∷ []

verify_topics_and_partitions_strict_iff_example :
    ((v : Topics) × (verify_topics_and_partitions fixed [] true (dict present) ≡ ok v))
    ↔ Each (IsKnownTopic fixed []) present
verify_topics_and_partitions_strict_iff_example =
    verify_topics_and_partitions_strict_iff fixed [] present (tt, tt)

abbrev offered : Dict String (Dict ℕ ℤ)
offered = ("events", (1, pos 3) ∷ (5, pos 4) ∷ []) ∷ []

verify_commit_offsets_requests-IsAccepted_example :
    Returns
      (IsAccepted fixed [] offered)
      (verify_commit_offsets_requests fixed [] false (some (map (λ e. (e.0, some e.1)) offered)))
verify_commit_offsets_requests-IsAccepted_example =
    verify_commit_offsets_requests-IsAccepted fixed [] false offered (tt, tt) (refl, tt) (λ h. cc h)

fixed-IsChecked : IsChecked fixed
fixed-IsChecked = record { passes = λ r h. ground (arith, h); answered = λ r h. ground (arith, h) }

abbrev stored : Dict String (Dict ℕ ℤ)
stored = ("events", (0, pos 3) ∷ (1, pos 4) ∷ []) ∷ []

abbrev given : NewOffsets
given = some (("events", some ((0, pos 3) ∷ (1, pos 4) ∷ [])) ∷ [])

abbrev answer_at : ℕ → ℤ → CommitResponse
answer_at p e = record { topic = "events"; partition = p; error = e }

set_consumer_offsets_lem_example :
    set_consumer_offsets fixed [] "g" given false
    ≡ ok (offset_requests stored, commit_error "events" 0 "not coordinator" ∷ [])
unfolding verify_commit_offsets_requests offset_requests contains insert lookup
set_consumer_offsets_lem_example =
    set_consumer_offsets_lem fixed [] (offset_requests stored) "g" given stored
      (answer_at 0 (pos 16) ∷ answer_at 1 (pos 0) ∷ []) fixed-IsChecked refl refl refl

abbrev marks : Watermarks
marks =
    (
      "events",
      (1, record { topic = "events"; partition = 1; highmark = pos 7; lowmark = pos 7 }) ∷ [],
    )
    ∷ []

abbrev commit_at : ℕ → CommitRequest
commit_at p = record { topic = "events"; partition = p; offset = pos 7; metadata = "" }

commit_offsets_to_watermark_lem_example :
    commit_offsets_to_watermark fixed [] "g" (dict present) high_watermark false
    ≡ ok (commit_at 1 ∷ [], response (answer_at 1 (pos 0)) ∷ [])
unfolding verify_topics_and_partitions get_topics_watermarks mark_requests
    check_fetch_response_error contains insert lookup
commit_offsets_to_watermark_lem_example =
    commit_offsets_to_watermark_lem fixed [] [] (commit_at 1 ∷ []) "g" (dict present) high_watermark
      present marks (commit_at 1 ∷ []) (answer_at 1 (pos 0) ∷ []) fixed-IsChecked refl refl refl
      refl refl
