-- ===== src/Offsets/Client.antt =====
-- What kafka_utils/util/offsets.py asks of the Kafka client: payloads, responses and errors, and
-- `send_offset_commit_request_kafka` (util/client.py) over the calls it makes.
use kafka_utils.Base.{ℕ, String, List, [], ◌∷◌, Bool, true, false, Option, ℤ, Result, ok, ◌>>=◌}

pub record FetchRequest : Type 0 where
  pub topic : String
  pub partition : ℕ

pub record FetchResponse : Type 0 where
  pub topic : String
  pub partition : ℕ
  pub offset : ℤ
  pub metadata : String
  pub error : ℤ

pub record OffsetRequest : Type 0 where
  pub topic : String
  pub partition : ℕ
  pub time : ℤ
  pub max_offsets : ℕ

pub record OffsetResponse : Type 0 where
  pub topic : String
  pub partition : ℕ
  pub error : ℤ
  pub offsets : List ℤ

pub record CommitRequest : Type 0 where
  pub topic : String
  pub partition : ℕ
  pub offset : ℤ
  pub metadata : String

pub record CommitResponse : Type 0 where
  pub topic : String
  pub partition : ℕ
  pub error : ℤ

-- What a commit answers for one partition: the response, or an `OffsetCommitError`.
pub data Status : Type 0 where
  response : CommitResponse → Status
  commit_error : (topic : String) (partition : ℕ) (error : String) → Status

-- What `check_error` raises: a `BrokerResponseError` with its message, or another exception.
pub data Failure : Type 0 where
  unknown_topic_or_partition : Failure
  broker_response : (message : String) → Failure
  other_failure : Failure

-- The client, over the state of the world that its calls read and change.
pub record Client (World : Type 0) : Type 0 where
  pub load_metadata_for_topics : World → Result World
  pub has_metadata_for_topic : World → String → Bool
  pub get_partition_ids_for_topic : World → String → List ℕ
  pub send_offset_fetch_request_kafka :
      World
      → String
      → List FetchRequest
      → (fail_on_error : Bool) → (FetchResponse → Result FetchResponse)
      → Result (World × List FetchResponse)
  pub send_offset_request :
      World
      → List OffsetRequest
      → (fail_on_error : Bool) → (OffsetResponse → Result OffsetResponse)
      → Result (World × List OffsetResponse)
  pub send_consumer_aware_request :
      World → String → List CommitRequest → Result (World × List CommitResponse)
  pub raise_on_response_error : CommitResponse → Result Bool
  pub check_fetch : FetchResponse → Option Failure
  pub check_offset : OffsetResponse → Option Failure
  pub check_commit : CommitResponse → Option Failure

module _ {World : Type 0} (client : Client World) where
  -- The list that `send_offset_commit_request_kafka` returns.
  unfoldable pub answers :
      Bool → (CommitResponse → Result Status) → List CommitResponse → Result (List Status)
  answers fail_on_error callback [] = ok []
  answers fail_on_error callback (resp ∷ resps) = do
    dropped ← elim fail_on_error [ true ↦ client.raise_on_response_error resp | false ↦ ok false ]
    elim dropped [
      | true ↦ answers fail_on_error callback resps
      | false ↦ do
        status ← callback resp
        more ← answers fail_on_error callback resps
        ok (status ∷ more)
    ]

  unfoldable pub send_offset_commit_request_kafka :
      World
      → String
      → List CommitRequest
      → Bool
      → (CommitResponse → Result Status)
      → Result (World × List Status)
  unfolding answers
  send_offset_commit_request_kafka w group payloads fail_on_error callback = do
    (w', resps) ← client.send_consumer_aware_request w group payloads
    statuses ← answers fail_on_error callback resps
    ok (w', statuses)
