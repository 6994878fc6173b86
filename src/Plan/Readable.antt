-- ===== src/Plan/Readable.antt =====
-- A plan that passes `_validate_format` is read without an exception.
use kafka_utils.Base.{
  List, [], ◌∷◌, Bool, true, false, ◌&&◌, all_of, is_nil, ◌≡◌, refl, arith, Bool-cases,
  Option-cases, inl, inr, Each, ok, ◌>>=◌, >>=-eq-ok, Returns, Returns-bind, Returns-step,
  Returns-map, string_eq,
}
use kafka_utils.Plan.Json.{
  Json, text, arr, obj, nil, cons, items, fields, truthy, equals_one, int_value,
}
use kafka_utils.Plan.Entry.{PData}
use kafka_utils.Plan.Format.{
  keys_are, at_key, is_int, is_text, check_replicas, check_entry, check_entries, check_partitions,
  validate_format, read_ints, read_text, read_int, read_list, read_entry, read_entries, read_plan,
}

read_ints_total :
    (js : List Json)
    → all_of is_int js ≡ true
    → Returns (λ zs. is_nil zs ≡ is_nil js) (read_ints js)
unfolding read_ints is_int
read_ints_total [] h = refl
read_ints_total (j ∷ js) h = elim (Option-cases (int_value j)) [
  | inl e ↦ absurd (ground arith)
  | inr (z, e) ↦
      rw (e, read_ints)
        (Returns-bind (λ zs. is_nil zs ≡ is_nil js) (λ zs. is_nil zs ≡ false) _ _
          (read_ints_total js (ground arith)) (λ zs k. refl))
]

abbrev pub HasReplicas : PData → Type 0
HasReplicas p = is_nil p.replicas ≡ false

read_fields_total :
    (topic partition replicas : Json)
    → (is_text topic && is_int partition && check_replicas replicas) ≡ true
    → Returns HasReplicas (
        read_text topic >>= λ t. read_int partition >>= λ p. read_list replicas >>= λ rs.
        read_ints rs >>= λ zs. ok (record { topic = t; partition = p; replicas = zs }))
unfolding is_int check_replicas
read_fields_total (text t) partition (arr js) h = elim (Option-cases (int_value partition)) [
  | inl e ↦ absurd (ground arith)
  | inr (p, e) ↦
      rw (e, read_int)
        (Returns-bind (λ zs. is_nil zs ≡ is_nil (items js)) HasReplicas _ _
          (read_ints_total (items js) (ground arith)) (λ zs k. ground arith))
]
read_fields_total topic partition replicas h = ground arith

ok-eq : {a b : Bool} → ok a ≡ ok b → a ≡ b
ok-eq e = cc

read_entry_total : (j : Json) → check_entry j ≡ ok true → Returns HasReplicas (read_entry j)
unfolding check_entry read_entry
read_entry_total (obj fs) h =
    elim (Bool-cases (keys_are ("topic" ∷ "partition" ∷ "replicas" ∷ []) (fields fs))) [
      | inl e ↦
          let (topic, et, h₁) =
            >>=-eq-ok (at_key "topic" (fields fs)) _ (rw (e, check_entry) at h) in
          let (partition, ep, h₂) = >>=-eq-ok (at_key "partition" (fields fs)) _ h₁ in
          let (replicas, er, h₃) = >>=-eq-ok (at_key "replicas" (fields fs)) _ h₂ in
          Returns-step HasReplicas _ _ topic et (
            Returns-step HasReplicas _ _ partition ep (
              Returns-step HasReplicas _ _ replicas er
                (read_fields_total topic partition replicas (ok-eq h₃))))
      | inr e ↦ absurd (ground arith)
    ]
read_entry_total j h = ground arith

abbrev AllReplicas : List Json → List PData → Type 0
AllReplicas js ps = (is_nil ps ≡ is_nil js) × Each HasReplicas ps

read_entries_total :
    (js : List Json) → check_entries js ≡ ok true → Returns (AllReplicas js) (read_entries js)
unfolding check_entries read_entries
read_entries_total [] h = (refl, tt)
read_entries_total (j ∷ js) h =
    let (good, e, h') = >>=-eq-ok (check_entry j) _ h in
    let pass : good ≡ true = ground arith in
    Returns-bind HasReplicas (AllReplicas (j ∷ js)) _ _ (read_entry_total j (cc (e, pass))) (λ p k.
      Returns-bind (AllReplicas js) (AllReplicas (j ∷ js)) _ _
        (read_entries_total js (rw (pass) at h')) (λ ps l. (refl, (k, l.1))))

abbrev pub IsReadable : List PData → Type 0
IsReadable ps = (is_nil ps ≡ false) × Each HasReplicas ps

read_partitions_total :
    (j : Json)
    → check_partitions j ≡ ok true
    → Returns IsReadable (read_list j >>= λ js. read_entries js)
unfolding check_partitions truthy
read_partitions_total (arr nil) h = cc
read_partitions_total (arr (cons x js)) h =
    Returns-map (AllReplicas (x ∷ items js)) IsReadable _ (λ ps k. k)
      (read_entries_total (x ∷ items js) h)
read_partitions_total j h = ground arith

-- A plan of the right format is read without an exception: it has at least one partition, and
-- each has at least one replica.
pub read_plan_total :
    (plan : Json) → validate_format plan ≡ ok true → Returns IsReadable (read_plan plan)
unfolding validate_format read_plan
read_plan_total (obj fs) h =
    elim (Bool-cases (keys_are ("version" ∷ "partitions" ∷ []) (fields fs))) [
      | inl e ↦
          let (version, ev, h₁) =
            >>=-eq-ok (at_key "version" (fields fs)) _ (rw (e, validate_format) at h) in
          let (partitions, ep, h₂) = >>=-eq-ok (at_key "partitions" (fields fs)) _ h₁ in
          let one : equals_one version ≡ true = ground arith in
          Returns-step IsReadable _ _ partitions ep
            (read_partitions_total partitions (rw one at h₂))
      | inr e ↦ absurd (ground arith)
    ]
read_plan_total plan h = ground arith
