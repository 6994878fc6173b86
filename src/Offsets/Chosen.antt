-- ===== src/Offsets/Chosen.antt =====
-- Which offsets pass `_verify_commit_offsets_requests` (kafka_utils/util/offsets.py).
use kafka_utils.Base.{
  ℕ, String, List, [], ◌∷◌, Bool, true, false, ◌&&◌, ◌==◌, if◌then◌else◌, Option, none, some, ◌≡◌,
  inl, inr, refl, sym, ◌∙◌, subst, arith, Bool-cases, Option-cases, ok, Returns, Returns-step,
  Returns-map, Returns-value, is_nil, Each, Each-contains, map, contains, Dict, lookup, Absent,
  IsDict, string_eq, nat_eq, ℤ,
}
use kafka_utils.Offsets.Client.{Client}
use kafka_utils.Offsets.Verify.{
  Topics, dict, all_dicts, keys_of, verify_topics_and_partitions, verify_commit_offsets_requests,
}
use kafka_utils.Offsets.Sets.{Absent-lookup}
use kafka_utils.Offsets.Known.{
  ids, IsKnownTopic, IsKept, Outcome, Outcomes, verify_topics_and_partitions_total,
}
use kafka_utils.Offsets.Select.{offset_in, verify_each-IsDict, Has, Fit, IsChosen, select_all_total}

all_dicts-map : (ds : Dict String (Dict ℕ ℤ)) → all_dicts (map (λ e. (e.0, some e.1)) ds) ≡ ok ds
unfolding all_dicts
all_dicts-map [] = refl
all_dicts-map (e ∷ ds) = rw (all_dicts-map ds) refl

keys_of-Absent : (t : String) (ds : Dict String (Dict ℕ ℤ)) → Absent t ds → Absent t (keys_of ds)
keys_of-Absent t [] h = tt
keys_of-Absent t ((u, d) ∷ ds) h = (h.0, keys_of-Absent t ds h.1)

keys_of-IsDict : (ds : Dict String (Dict ℕ ℤ)) → IsDict ds → IsDict (keys_of ds)
keys_of-IsDict [] h = tt
keys_of-IsDict ((t, d) ∷ ds) h = (keys_of-Absent t ds h.0, keys_of-IsDict ds h.1)

abbrev keys : Dict ℕ ℤ → List ℕ
keys d = map (λ o. o.0) d

lookup-keys_of :
    (t : String) (ds : Dict String (Dict ℕ ℤ))
    → lookup t (keys_of ds) ≡ elim (lookup t ds) [ none ↦ none | some d ↦ some (keys d) ]
unfolding lookup
lookup-keys_of t [] = refl
lookup-keys_of t ((u, d) ∷ ds) = elim (Bool-cases (string_eq.beq u t)) [
  | inl e ↦ rw e refl
  | inr e ↦ rw e (lookup-keys_of t ds)
]

contains-keys : (p : ℕ) (d : Dict ℕ ℤ) → contains p (keys d) ≡ true → Has d p
unfolding contains lookup
contains-keys p [] h = cc
contains-keys p ((q, o) ∷ d) h = elim (Bool-cases (q == p)) [
  | inl e ↦ (o, rw e refl)
  | inr e ↦ let (a, m) = contains-keys p d (ground arith) in (a, rw e m)
]

keys-none : (p : ℕ) (d : Dict ℕ ℤ) → contains p (keys d) ≡ false → lookup p d ≡ none
unfolding contains lookup
keys-none p [] h = refl
keys-none p ((q, o) ∷ d) h = ground (arith, keys-none p d)

is_nil-keys : (d : Dict ℕ ℤ) → is_nil (keys d) ≡ is_nil d
is_nil-keys [] = refl
is_nil-keys (o ∷ d) = refl

-- What holds of every value that a lookup finds holds of every entry.
Each-lookup :
    (P : String × List ℕ → Type 0) (v : Topics)
    → IsDict v
    → ((t : String) (ps : List ℕ) → lookup t v ≡ some ps → P (t, ps))
    → Each P v
unfolding lookup
Each-lookup P [] i h = tt
Each-lookup P ((t, ps) ∷ v) i h = (
  h t ps (rw ((string_eq.beq_iff t t).1 refl) refl),
  Each-lookup P v i.1 (λ u qs e. h u qs (elim (Bool-cases (string_eq.beq t u)) [
    | inl s ↦
        let gone : lookup u v ≡ none =
          subst (λ z. lookup z v ≡ none) ((string_eq.beq_iff t u).0 s) (Absent-lookup t v i.0) in
        absurd (cc (gone, e))
    | inr s ↦ rw s e
  ])),
)

nothing : (b : Bool) (x y : Option ℤ) → x ≡ none → y ≡ none → x ≡ (if b then y else none)
nothing true x y h k = h ∙ sym k
nothing false x y h k = h

narrow :
    (a b : Bool) (x : Option ℤ)
    → (a ≡ false → x ≡ none)
    → (if a && b then x else none) ≡ (if b then x else none)
narrow true b x h = refl
narrow false true x h = sym (h refl)
narrow false false x h = refl

module _ {World : Type 0} (client : Client World) (w : World) (ds : Dict String (Dict ℕ ℤ)) where
  -- The offsets that were given for what exists.
  abbrev pub IsAccepted : Dict String (Dict ℕ ℤ) → Type 0
  IsAccepted r =
      (t : String) (p : ℕ)
      → offset_in t p r ≡ (
          if client.has_metadata_for_topic w t && contains p (ids client w t)
          then offset_in t p ds
          else none)

  module _ (filled : (t : String) (d : Dict ℕ ℤ) → lookup t ds ≡ some d → is_nil d ≡ false)
      (valid : Topics) (o : Outcomes client w (keys_of ds) [] valid) where
    gone-after : (t : String) → lookup t ds ≡ none → lookup t valid ≡ none
    unfolding lookup
    gone-after t gone =
        let missing : lookup t (keys_of ds) ≡ none = rw (lookup-keys_of t ds, gone) refl in
        rw missing at (o t)

    found-after :
        (t : String) (d : Dict ℕ ℤ)
        → lookup t ds ≡ some d
        → Outcome client w t (some (keys d)) none (lookup t valid)
    unfolding lookup
    found-after t d found =
        let there : lookup t (keys_of ds) ≡ some (keys d) = rw (lookup-keys_of t ds, found) refl in
        subst (λ x. Outcome client w t x none (lookup t valid)) there (o t)

    kept-keys :
        (t : String) (d : Dict ℕ ℤ) (kept : List ℕ)
        → lookup t ds ≡ some d
        → IsKept client w t (keys d) kept
        → (p : ℕ) → contains p kept ≡ (contains p (keys d) && contains p (ids client w t))
    kept-keys t d kept found good p =
        let full : is_nil (keys d) ≡ false = is_nil-keys d ∙ filled t d found in rw full at (good p)

    valid-Fit : (t : String) (ps : List ℕ) → lookup t valid ≡ some ps → Fit ds (t, ps)
    valid-Fit t ps e nonempty = elim (Option-cases (lookup t ds)) [
      | inl gone ↦ absurd (cc (gone-after t gone, e))
      | inr (d, found) ↦ elim (Bool-cases (client.has_metadata_for_topic w t)) [
        | inl known ↦
            let (kept, after, good) = (found-after t d found).0 known in
            let same : kept ≡ ps = cc (after, e) in
            (
              d,
              found,
              Each-contains (Has d) ps (λ p m.
                  let inside : contains p kept ≡ true =
                    subst (λ xs. contains p xs ≡ true) (sym same) m in
                  contains-keys p d (ground (arith, inside, kept-keys t d kept found good p))),
            )
        | inr unknown ↦ absurd (cc ((found-after t d found).1 unknown, e))
      ]
    ]

    valid-IsAccepted : (r : Dict String (Dict ℕ ℤ)) → IsChosen ds valid r → IsAccepted r
    valid-IsAccepted r k t p = elim (Option-cases (lookup t ds)) [
      | inl gone ↦
          let chosen : offset_in t p r ≡ none = rw (gone-after t gone) at (k t p) in
          nothing (client.has_metadata_for_topic w t && contains p (ids client w t)) _ _ chosen
            (rw (gone, offset_in) refl)
      | inr (d, found) ↦ elim (Bool-cases (client.has_metadata_for_topic w t)) [
        | inl known ↦
            let (kept, after, good) = (found-after t d found).0 known in
            let chosen : offset_in t p r ≡ (if contains p kept then offset_in t p ds else none) =
              rw after at (k t p) in
            rw (kept-keys t d kept found good p) at chosen
            ∙ narrow (contains p (keys d)) (contains p (ids client w t)) (offset_in t p ds)
                (λ f. rw (found, offset_in) (keys-none p d f))
            ∙ rw known refl
        | inr unknown ↦
            let after = (found-after t d found).1 unknown in
            let chosen : offset_in t p r ≡ none = rw after at (k t p) in rw unknown chosen
      ]
    ]

filled-lookup :
    (ds : Dict String (Dict ℕ ℤ))
    → Each (λ e. is_nil e.1 ≡ false) ds
    → (t : String) (d : Dict ℕ ℤ) → lookup t ds ≡ some d
    → is_nil d ≡ false
unfolding lookup
filled-lookup [] h t d e = cc
filled-lookup ((u, v) ∷ ds) h t d e = elim (Bool-cases (string_eq.beq u t)) [
  | inl s ↦ let same : v ≡ d = cc (rw s at e) in subst (λ x. is_nil x ≡ false) same h.0
  | inr s ↦ filled-lookup ds h.1 t d (rw s at e)
]

-- For a dictionary that gives at least one offset for each of its topics, and if no error is to be
-- raised for what is missing or nothing is missing, the check of the offsets to commit returns.
-- It keeps exactly the given offsets whose topic and partition exist.
pub verify_commit_offsets_requests-IsAccepted :
    {World : Type 0} (client : Client World) (w : World) (raise_on_error : Bool)
    (ds : Dict String (Dict ℕ ℤ))
    → IsDict ds
    → Each (λ e. is_nil e.1 ≡ false) ds
    → (raise_on_error ≡ true → Each (IsKnownTopic client w) (keys_of ds))
    → Returns (IsAccepted client w ds) (
        verify_commit_offsets_requests client w raise_on_error
          (some (map (λ e. (e.0, some e.1)) ds)))
unfolding verify_commit_offsets_requests
verify_commit_offsets_requests-IsAccepted client w raise_on_error ds i full known =
    let (valid, checked, o) =
      Returns-value _ (verify_topics_and_partitions client w raise_on_error (dict (keys_of ds))) (
        verify_topics_and_partitions_total client w raise_on_error (keys_of ds)
          (keys_of-IsDict ds i) known) in
    let filled = filled-lookup ds full in
    let once = verify_each-IsDict client w raise_on_error [] (keys_of ds) valid tt checked in
    rw (all_dicts-map ds) (
      Returns-step _ (verify_topics_and_partitions client w raise_on_error (dict (keys_of ds))) _
        valid checked
        (Returns-map (IsChosen ds valid) _ _ (valid-IsAccepted client w ds filled valid o) (
          select_all_total ds valid once
            (Each-lookup (Fit ds) valid once (valid-Fit client w ds filled valid o)))))
