-- ===== src/Check/Topics.antt =====
-- The commands min_isr and replication_factor (kafka_utils/kafka_check/commands), from the
-- metadata of the topics to the status. `topic_config` is what ZooKeeper has for a topic, `none` for
-- NoNodeError, and `to_int` is Python's `int`.
use kafka_utils.Base.{
  ℕ, zero, suc, String, List, [], ◌∷◌, ◌++◌, Option, none, some, is_nil, if◌then◌else◌, length, ℤ,
  pos, negsuc, ltb_ℤ, Dict, lookup, string_eq, nat_eq, Result, ok, raise, ◌>>=◌, key_error,
  type_error,
}

-- `PartitionMetadata`, less the leader and the error, which these commands do not read.
pub record PartitionMetadata : Type 0 where
  pub topic : String
  pub partition : ℕ
  pub replicas : List ℕ
  pub isr : List ℕ

abbrev pub Topics : Type 0
Topics = Dict String (Dict ℕ PartitionMetadata)

pub record NotInSync : Type 0 where
  pub isr : ℕ
  pub min_isr : ℤ
  pub topic : String
  pub partition : ℕ

pub record WrongFactor : Type 0 where
  pub replication_factor : ℕ
  pub min_isr : ℤ
  pub topic : String

-- The statuses OK and CRITICAL.
pub data Status : Type 0 where
  healthy critical : Status

abbrev pub errcode {ℓ} : {A : Type ℓ} → List A → Status
errcode found = if is_nil found then healthy else critical

-- `get_min_isr(zk, topic_name) or default_min_isr`: 0 counts as no setting.
abbrev pub or_default : Option ℤ → Option ℤ → Option ℤ
or_default default_min_isr none = default_min_isr
or_default default_min_isr (some (pos zero)) = default_min_isr
or_default default_min_isr (some (pos (suc n))) = some (pos (suc n))
or_default default_min_isr (some (negsuc n)) = some (negsuc n)

-- The loop over the partitions of a topic.
unfoldable pub not_in_sync : ℤ → Dict ℕ PartitionMetadata → List NotInSync
not_in_sync min_isr [] = []
not_in_sync min_isr ((i, metadata) ∷ more) =
    let rest = not_in_sync min_isr more in
    if ltb_ℤ (pos (length metadata.isr)) min_isr
    then record {
      isr = length metadata.isr;
      min_isr = min_isr;
      topic = metadata.topic;
      partition = metadata.partition;
    }
      ∷ rest
    else rest

module _ (topic_config : String → Option (Dict String String)) (to_int : String → Result ℤ) where
  unfoldable pub get_min_isr : String → Result (Option ℤ)
  unfolding lookup
  get_min_isr topic = elim (topic_config topic) [
    | none ↦ ok none
    | some config ↦ elim (lookup "min.insync.replicas" config) [
      | none ↦ ok none
      | some text ↦ do n ← to_int text; ok (some n)
    ]
  ]

  unfoldable pub min_isr_of : Option ℤ → String → Result (Option ℤ)
  unfolding get_min_isr
  min_isr_of default_min_isr topic = do n ← get_min_isr topic; ok (or_default default_min_isr n)

  unfoldable pub process_metadata_response : Option ℤ → Topics → Result (List NotInSync)
  unfolding not_in_sync min_isr_of
  process_metadata_response default_min_isr [] = ok []
  process_metadata_response default_min_isr ((topic, partitions) ∷ more) = do
    setting ← min_isr_of default_min_isr topic
    rest ← process_metadata_response default_min_isr more
    ok (elim setting [ none ↦ rest | some min_isr ↦ not_in_sync min_isr partitions ++ rest ])

  -- `MinIsrCmd.run_command`, less its output.
  unfoldable pub min_isr_command : Option ℤ → Topics → Result (Status × List NotInSync)
  unfolding process_metadata_response
  min_isr_command default_min_isr topics = do
    found ← process_metadata_response default_min_isr topics
    ok (errcode found, found)

  -- `replication_factor >= min_isr + 1` is `min_isr < replication_factor`; None + 1 is a TypeError.
  unfoldable pub find_topics_with_wrong_rp : Option ℤ → Topics → Result (List WrongFactor)
  unfolding min_isr_of lookup
  find_topics_with_wrong_rp default_min_isr [] = ok []
  find_topics_with_wrong_rp default_min_isr ((topic, partitions) ∷ more) = do
    setting ← min_isr_of default_min_isr topic
    elim (lookup 0 partitions) [
      | none ↦ raise key_error
      | some first ↦ elim setting [
        | none ↦ raise type_error
        | some min_isr ↦ do
          rest ← find_topics_with_wrong_rp default_min_isr more
          let factor = length first.replicas
          ok (
              if ltb_ℤ min_isr (pos factor)
              then rest
              else record { replication_factor = factor; min_isr = min_isr; topic = topic } ∷ rest)
      ]
    ]

  -- `ReplicationFactorCmd.run_command`, less its output.
  unfoldable pub replication_factor_command : Option ℤ → Topics → Result (Status × List WrongFactor)
  unfolding find_topics_with_wrong_rp
  replication_factor_command default_min_isr topics = do
    found ← find_topics_with_wrong_rp default_min_isr topics
    ok (errcode found, found)
