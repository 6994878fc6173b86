-- ===== src/Check/Tests.antt =====
-- The checks at two topics.
use kafka_utils.Base.{
  String, List, [], ◌∷◌, Option, none, some, ℤ, pos, Dict, lookup, Result, ok, ◌≡◌, ◌↔◌, refl,
  string_eq,
}
use kafka_utils.Check.Topics.{
  Topics, NotInSync, healthy, critical, min_isr_command, replication_factor_command,
}
use kafka_utils.Check.Verdicts.{IsInSync, min_isr_command_iff}

abbrev topics : Topics
topics =
    (
      "events",
      (0, record { topic = "events"; partition = 0; replicas = 1 ∷ 2 ∷ []; isr = 1 ∷ [] }) ∷ [],
    )
    ∷ []

abbrev config : String → Option (Dict String String)
config topic = some (("min.insync.replicas", "2") ∷ [])

abbrev read : String → Result ℤ
read text = ok (pos 2)

min_isr_command_iff_example :
    ((found : List NotInSync) × (min_isr_command config read (some (pos 1)) topics
        ≡ ok (healthy, found)))
    ↔ IsInSync config read (some (pos 1)) topics
min_isr_command_iff_example = min_isr_command_iff config read (some (pos 1)) topics

below_run :
    min_isr_command config read (some (pos 1)) topics
    ≡ ok (critical, record { isr = 1; min_isr = pos 2; topic = "events"; partition = 0 } ∷ [])
unfolding min_isr_command lookup
below_run = refl

default_run : min_isr_command (λ topic. none) read (some (pos 1)) topics ≡ ok (healthy, [])
unfolding min_isr_command lookup
default_run = refl

factor_run :
    replication_factor_command (λ topic. none) read (some (pos 1)) topics ≡ ok (healthy, [])
unfolding replication_factor_command lookup
factor_run = refl

-- Without any minimum the topic is passed over.
no_minimum_run : min_isr_command (λ topic. none) read none topics ≡ ok (healthy, [])
unfolding min_isr_command lookup
no_minimum_run = refl
