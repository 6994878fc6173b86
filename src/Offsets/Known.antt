-- ===== src/Offsets/Known.antt =====
-- Which topics and partitions pass `_verify_topics_and_partitions` (kafka_utils/util/offsets.py).
use kafka_utils.Base.{
  ℕ, String, List, [], ◌∷◌, Bool, true, false, ◌&&◌, if◌then◌else◌, Option, none, some, ◌≡◌, ◌≢◌,
  inl, inr, refl, ◌∙◌, subst, arith, Bool-cases, ok, >>=-eq-ok, Returns, Returns-bind, Returns-map,
  Returns-value, ◌↔◌, is_nil, Each, Each-contains, contains, contains→is_nil, lookup, insert,
  lookup-insert_self, lookup-insert_ne, Absent, IsDict, string_eq,
}
use kafka_utils.Offsets.Client.{Client}
use kafka_utils.Offsets.Verify.{
  Topics, dict, minus, valid_partitions, verify_each, verify_topics_and_partitions,
}
use kafka_utils.Offsets.Sets.{contains-minus, nil-contains, known_no_unknown, Absent-lookup}

module _ {World : Type 0} (client : Client World) (w : World) where
  abbrev pub ids : String → List ℕ
  ids topic = client.get_partition_ids_for_topic w topic

  -- The client knows the topic and the partitions that are asked of it.
  abbrev pub IsKnownTopic : String × List ℕ → Type 0
  IsKnownTopic e =
      (client.has_metadata_for_topic w e.0 ≡ true) × Each (λ p. contains p (ids e.0) ≡ true) e.1

  -- All partitions of the topic if none is asked for, else those asked for that exist.
  abbrev pub IsKept : String → List ℕ → List ℕ → Type 0
  IsKept topic asked kept =
      (p : ℕ)
      → contains p kept ≡ (
          if is_nil asked
          then contains p (ids topic)
          else contains p asked && contains p (ids topic))

  -- What a loop over `d` makes of one topic, from what was found for it before.
  abbrev pub Outcome : String → Option (List ℕ) → Option (List ℕ) → Option (List ℕ) → Type 0
  Outcome t none before after = after ≡ before
  Outcome t (some asked) before after =
      (client.has_metadata_for_topic w t ≡ true
        → (kept : List ℕ) × (after ≡ some kept) × IsKept t asked kept)
      × (client.has_metadata_for_topic w t ≡ false → after ≡ before)

  abbrev pub Outcomes : Topics → Topics → Topics → Type 0
  Outcomes d before after = (t : String) → Outcome t (lookup t d) (lookup t before) (lookup t after)

  at_topic :
      (topic t : String) (asked : List ℕ) (more acc v : Topics)
      → string_eq.beq topic t ≡ true
      → Outcome topic (some asked) (lookup topic acc) (lookup topic v)
      → Outcome t (lookup t ((topic, asked) ∷ more)) (lookup t acc) (lookup t v)
  unfolding lookup
  at_topic topic t asked more acc v k h =
      let same = (string_eq.beq_iff topic t).0 k in
      rw k (subst (λ u. Outcome u (some asked) (lookup u acc) (lookup u v)) same h)

  not_touched :
      (topic : String) (more acc v : Topics)
      → Absent topic more
      → Outcomes more acc v
      → lookup topic v ≡ lookup topic acc
  not_touched topic more acc v a h = rw (Absent-lookup topic more a) at (h topic)

  skipped :
      (topic : String) (asked : List ℕ) (more acc v : Topics)
      → Absent topic more
      → client.has_metadata_for_topic w topic ≡ false
      → Outcomes more acc v
      → Outcomes ((topic, asked) ∷ more) acc v
  unfolding lookup
  skipped topic asked more acc v a e h t = elim (Bool-cases (string_eq.beq topic t)) [
    | inl k ↦
        at_topic topic t asked more acc v k
          ((λ f. cc (e, f)), λ _. not_touched topic more acc v a h)
    | inr k ↦ rw k (h t)
  ]

  entered :
      (topic : String) (asked kept : List ℕ) (more acc v : Topics)
      → Absent topic more
      → client.has_metadata_for_topic w topic ≡ true
      → IsKept topic asked kept
      → Outcomes more (insert topic kept acc) v
      → Outcomes ((topic, asked) ∷ more) acc v
  unfolding lookup
  entered topic asked kept more acc v a e good h t = elim (Bool-cases (string_eq.beq topic t)) [
    | inl k ↦ at_topic topic t asked more acc v k (
      (λ _. (
        kept,
        not_touched topic more (insert topic kept acc) v a h ∙ lookup-insert_self topic kept acc,
        good,
      )),
      λ f. cc (e, f),
    )
    | inr k ↦
        let ne : topic ≢ t = λ q. cc (k, (string_eq.beq_iff topic t).1 q) in
        let kept_before : lookup t (insert topic kept acc) ≡ lookup t acc =
          lookup-insert_ne topic t kept acc ne in
        rw k (rw kept_before at (h t))
  ]

  module _ (raise_on_error : Bool) where
    valid_partitions_total :
        (topic : String) (asked : List ℕ)
        → (raise_on_error ≡ true → Each (λ p. contains p (ids topic) ≡ true) asked)
        → Returns (IsKept topic asked) (valid_partitions client w raise_on_error topic asked)
    unfolding valid_partitions
    valid_partitions_total topic asked h = elim (Bool-cases (is_nil asked)) [
      | inl e ↦ rw (e, valid_partitions) (λ p. ground (arith, e))
      | inr e ↦
          rw (e, valid_partitions)
            (elim (Bool-cases (is_nil (minus asked (ids topic)))) [
              | inl z ↦
                  rw (z, valid_partitions)
                    (λ p. ground (
                      arith,
                      e,
                      nil-contains p (minus asked (ids topic)) z,
                      contains-minus p asked (ids topic),
                    ))
              | inr z ↦
                  rw (z, valid_partitions)
                    (elim (Bool-cases raise_on_error) [
                      | inl r ↦ absurd (cc (z, known_no_unknown asked (ids topic) (h r)))
                      | inr r ↦
                          rw (r, valid_partitions)
                            (λ p. ground (
                              arith,
                              e,
                              contains-minus p asked (minus asked (ids topic)),
                              contains-minus p asked (ids topic),
                            ))
                    ])
            ])
    ]

    verify_each_total :
        (acc d : Topics)
        → IsDict d
        → (raise_on_error ≡ true → Each IsKnownTopic d)
        → Returns (Outcomes d acc) (verify_each client w raise_on_error acc d)
    unfolding verify_each lookup
    verify_each_total acc [] i h = λ t. refl
    verify_each_total acc ((topic, asked) ∷ more) i h =
        elim (Bool-cases (client.has_metadata_for_topic w topic)) [
          | inl e ↦
              rw (e, verify_each)
                (Returns-bind (IsKept topic asked) (Outcomes ((topic, asked) ∷ more) acc)
                  (valid_partitions client w raise_on_error topic asked) _
                  (valid_partitions_total topic asked (λ r. (h r).0.1))
                  (λ kept good.
                    Returns-map (Outcomes more (insert topic kept acc)) _ _
                      (λ v k. entered topic asked kept more acc v i.0 e good k)
                      (verify_each_total (insert topic kept acc) more i.1 (λ r. (h r).1))))
          | inr e ↦
              rw (e, verify_each)
                (elim (Bool-cases raise_on_error) [
                  | inl r ↦ absurd (cc ((h r).0.0, e))
                  | inr r ↦
                      rw (r, verify_each)
                        (Returns-map (Outcomes more acc) _ _
                          (λ v k. skipped topic asked more acc v i.0 e k)
                          (verify_each_total acc more i.1 (λ q. cc (q, r))))
                ])
        ]

-- If no error is to be raised for what is missing, or nothing is missing, the check of a
-- dictionary of topics returns. Each topic that the client knows keeps those of its partitions
-- that exist, all of them if it lists none; other topics are left out.
pub verify_topics_and_partitions_total :
    {World : Type 0} (client : Client World) (w : World) (raise_on_error : Bool) (d : Topics)
    → IsDict d
    → (raise_on_error ≡ true → Each (IsKnownTopic client w) d)
    → Returns
        (Outcomes client w d [])
        (verify_topics_and_partitions client w raise_on_error (dict d))
unfolding verify_topics_and_partitions
verify_topics_and_partitions_total client w raise_on_error d i h =
    verify_each_total client w raise_on_error [] d i h

module _ {World : Type 0} (client : Client World) (w : World) where
  valid_partitions_strict :
      (topic : String) (asked kept : List ℕ)
      → valid_partitions client w true topic asked ≡ ok kept
      → Each (λ p. contains p (ids client w topic) ≡ true) asked
  unfolding valid_partitions
  valid_partitions_strict topic asked kept h = Each-contains _ asked (λ p m.
      elim (Bool-cases (is_nil (minus asked (ids client w topic)))) [
        | inl z ↦ ground (
          arith,
          m,
          nil-contains p (minus asked (ids client w topic)) z,
          contains-minus p asked (ids client w topic),
        )
        | inr z ↦ absurd (cc (rw (contains→is_nil p asked m, z, valid_partitions) at h))
      ])

  verify_each_strict :
      (acc d v : Topics) → verify_each client w true acc d ≡ ok v → Each (IsKnownTopic client w) d
  unfolding verify_each
  verify_each_strict acc [] v h = tt
  verify_each_strict acc ((topic, asked) ∷ more) v h =
      elim (Bool-cases (client.has_metadata_for_topic w topic)) [
        | inl e ↦
            let (kept, k, next) =
              >>=-eq-ok (valid_partitions client w true topic asked) _ (rw (e, verify_each) at h) in
            (
              (e, valid_partitions_strict topic asked kept k),
              verify_each_strict (insert topic kept acc) more v next,
            )
        | inr e ↦ absurd (cc (rw (e, verify_each) at h))
      ]

-- With errors raised for what is missing, the check returns exactly if the client knows all the
-- topics, and all the partitions that are asked for.
pub verify_topics_and_partitions_strict_iff :
    {World : Type 0} (client : Client World) (w : World) (d : Topics)
    → IsDict d
    → ((v : Topics) × (verify_topics_and_partitions client w true (dict d) ≡ ok v))
      ↔ Each (IsKnownTopic client w) d
unfolding verify_topics_and_partitions
verify_topics_and_partitions_strict_iff client w d i = (
  λ (v, h). verify_each_strict client w [] d v h,
  λ k.
      let (v, e, _) =
        Returns-value _ (verify_topics_and_partitions client w true (dict d))
          (verify_topics_and_partitions_total client w true d i (λ _. k)) in
      (v, e),
)
