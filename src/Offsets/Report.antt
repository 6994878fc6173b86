-- ===== src/Offsets/Report.antt =====
-- What a commit of offsets reports (kafka_utils/util/offsets.py).
use kafka_utils.Base.{
  ℕ, String, List, [], ◌∷◌, Bool, true, false, Option, none, some, ◌≡◌, ◌≢◌, inl, inr, refl, ap,
  Bool-cases, ok, is_nil, keep, map, Dict, ℤ, pos, eqb_ℤ,
}
use kafka_utils.Offsets.Client.{
  CommitRequest, CommitResponse, Status, response, commit_error, Failure,
  unknown_topic_or_partition, broker_response, other_failure, Client, answers,
}
use kafka_utils.Offsets.Verify.{
  Topics, TopicsArg, dict, NewOffsets, verify_topics_and_partitions, verify_commit_offsets_requests,
}
use kafka_utils.Offsets.Fetch.{Watermarks, get_topics_watermarks}
use kafka_utils.Offsets.Commit.{
  Watermark, status_truthy, has_error, offset_requests, mark_requests, send_commits,
  check_commit_response_error, commit_offsets_to_watermark, set_consumer_offsets,
}

module _ {World : Type 0} (client : Client World) where
  -- What `check_error` is documented to do: it passes a response exactly if its error is 0, and
  -- what it raises on a response of the broker is a `BrokerResponseError`.
  pub record IsChecked : Type 0 where
    pub passes : (r : CommitResponse) → client.check_commit r ≡ none → eqb_ℤ r.error (pos 0) ≡ true
    pub answered : (r : CommitResponse) → client.check_commit r ≢ some other_failure

  -- Whether a commit of one offset failed.
  abbrev pub failed : CommitResponse → Bool
  failed r = elim (client.check_commit r) [ none ↦ false | some _ ↦ true ]

  -- The response of a commit that succeeded, and the `OffsetCommitError` of one that failed.
  abbrev pub status_of : CommitResponse → Status
  status_of r = elim (client.check_commit r) [
    | none ↦ response r
    | some failure ↦ elim failure [
      | unknown_topic_or_partition ↦ commit_error r.topic r.partition "UNKNOWN_TOPIC_OR_PARTITION"
      | broker_response message ↦ commit_error r.topic r.partition message
      | other_failure ↦ response r
    ]
  ]

  module _ (c : IsChecked) where
    checked_at :
        (r : CommitResponse) (x : Option Failure)
        → client.check_commit r ≡ x
        → check_commit_response_error client r ≡ ok (status_of r)
    unfolding check_commit_response_error
    checked_at r none e = rw (e, check_commit_response_error, status_of) refl
    checked_at r (some unknown_topic_or_partition) e =
        rw (e, check_commit_response_error, status_of) refl
    checked_at r (some (broker_response m)) e = rw (e, check_commit_response_error, status_of) refl
    checked_at r (some other_failure) e = absurd (c.answered r e)

    checked : (r : CommitResponse) → check_commit_response_error client r ≡ ok (status_of r)
    checked r = checked_at r (client.check_commit r) refl

    has_error-failed_at :
        (r : CommitResponse) (x : Option Failure)
        → client.check_commit r ≡ x
        → has_error (status_of r) ≡ failed r
    unfolding has_error
    has_error-failed_at r none e =
        let passed = c.passes r e in rw (e, status_of, failed) (rw passed refl)
    has_error-failed_at r (some unknown_topic_or_partition) e = rw (e, status_of, failed) refl
    has_error-failed_at r (some (broker_response m)) e = rw (e, status_of, failed) refl
    has_error-failed_at r (some other_failure) e = absurd (c.answered r e)

    has_error-failed : (r : CommitResponse) → has_error (status_of r) ≡ failed r
    has_error-failed r = has_error-failed_at r (client.check_commit r) refl

    answers_all :
        (rs : List CommitResponse)
        → answers client false (check_commit_response_error client) rs ≡ ok (map status_of rs)
    unfolding answers
    answers_all [] = refl
    answers_all (r ∷ rs) = rw (checked r, answers_all rs) refl

    keep-has_error :
        (rs : List CommitResponse)
        → keep has_error (map status_of rs) ≡ map status_of (keep failed rs)
    keep-has_error [] = refl
    keep-has_error (r ∷ rs) = elim (Bool-cases (failed r)) [
      | inl e ↦ rw (has_error-failed r, e, keep-has_error rs) refl
      | inr e ↦ rw (has_error-failed r, e, keep-has_error rs) refl
    ]

    module _ (w w' : World) (group : String) (resps : List CommitResponse) where
      send_commits_all :
          (reqs : List CommitRequest)
          → is_nil reqs ≡ false
          → client.send_consumer_aware_request w group reqs ≡ ok (w', resps)
          → send_commits client w group reqs false ≡ ok (w', map status_of resps)
      unfolding send_commits
      send_commits_all reqs some_reqs sent =
          rw (some_reqs, send_commits) (rw sent (rw (answers_all resps) refl))

-- If some offsets pass the check and the coordinator answers the commit, then with no errors to be
-- raised `set_consumer_offsets` returns exactly the errors, one for each response that failed.
pub set_consumer_offsets_lem :
    {World : Type 0} (client : Client World) (w w' : World) (group : String) (given : NewOffsets)
    (valid : Dict String (Dict ℕ ℤ)) (resps : List CommitResponse)
    → IsChecked client
    → verify_commit_offsets_requests client w false given ≡ ok valid
    → is_nil (offset_requests valid) ≡ false
    → client.send_consumer_aware_request w group (offset_requests valid) ≡ ok (w', resps)
    → set_consumer_offsets client w group given false
      ≡ ok (w', map (status_of client) (keep (failed client) resps))
unfolding set_consumer_offsets
set_consumer_offsets_lem client w w' group given valid resps c verified some_reqs sent =
    rw verified (
      rw (send_commits_all client c w w' group resps (offset_requests valid) some_reqs sent)
        (rw (keep-has_error client c resps) refl))

keep-truthy : (ss : List Status) → keep status_truthy ss ≡ ss
keep-truthy [] = refl
keep-truthy (s ∷ ss) = ap (λ ts. s ∷ ts) (keep-truthy ss)

-- If the topics pass the check, the watermarks of some partitions are found and the coordinator
-- answers the commit, then with no errors to be raised a commit to a watermark returns one status
-- for each response: the errors, and the responses that succeeded among them.
pub commit_offsets_to_watermark_lem :
    {World : Type 0} (client : Client World) (w w₁ w' : World) (group : String) (topics : TopicsArg)
    (watermark : Watermark) (valid : Topics) (marks : Watermarks) (reqs : List CommitRequest)
    (resps : List CommitResponse)
    → IsChecked client
    → verify_topics_and_partitions client w false topics ≡ ok valid
    → get_topics_watermarks client w (dict valid) false ≡ ok (w₁, marks)
    → mark_requests watermark marks valid ≡ ok reqs
    → is_nil reqs ≡ false
    → client.send_consumer_aware_request w₁ group reqs ≡ ok (w', resps)
    → commit_offsets_to_watermark client w group topics watermark false
      ≡ ok (w', map (status_of client) resps)
unfolding commit_offsets_to_watermark
commit_offsets_to_watermark_lem client w w₁ w' group topics watermark valid marks reqs resps c
      verified found requested some_reqs sent =
    rw verified (
      rw found (
        rw requested (
          rw (send_commits_all client c w₁ w' group resps reqs some_reqs sent)
            (rw (keep-truthy (map (status_of client) resps)) refl))))
