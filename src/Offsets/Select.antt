-- ===== src/Offsets/Select.antt =====
-- The offsets selected for the valid topics (kafka_utils/util/offsets.py).
use kafka_utils.Base.{
  ℕ, String, List, [], ◌∷◌, Bool, false, ◌==◌, if◌then◌else◌, Option, none, some, ◌≡◌, ◌≢◌, inl,
  inr, refl, sym, subst, arith, Bool-cases, ok, >>=-eq-ok, Returns, Returns-bind, Returns-step,
  is_nil, Each, contains, Dict, lookup, insert, Absent, IsDict, string_eq, nat_eq, ℤ,
}
use kafka_utils.Offsets.Client.{Client}
use kafka_utils.Offsets.Verify.{
  Topics, offset_at, offsets_of, select, select_all, valid_partitions, verify_each,
}
use kafka_utils.Offsets.Sets.{Absent-lookup}

-- The offset that a dictionary of dictionaries has for a partition.
abbrev pub offset_in : String → ℕ → Dict String (Dict ℕ ℤ) → Option ℤ
offset_in t p d = elim (lookup t d) [ none ↦ none | some inner ↦ lookup p inner ]

Absent-insert :
    (k j : String) (v : List ℕ) (d : Topics) → j ≢ k → Absent k d → Absent k (insert j v d)
unfolding insert
Absent-insert k j v [] ne h = (ne, tt)
Absent-insert k j v ((i, u) ∷ d) ne h = elim (Bool-cases (string_eq.beq i j)) [
  | inl e ↦ rw e h
  | inr e ↦ rw e (h.0, Absent-insert k j v d ne h.1)
]

insert-IsDict : (j : String) (v : List ℕ) (d : Topics) → IsDict d → IsDict (insert j v d)
unfolding insert
insert-IsDict j v [] h = (tt, tt)
insert-IsDict j v ((i, u) ∷ d) h = elim (Bool-cases (string_eq.beq i j)) [
  | inl e ↦ rw e h
  | inr e ↦ rw e (
    Absent-insert i j v d (λ q. cc (e, (string_eq.beq_iff i j).1 (sym q))) h.0,
    insert-IsDict j v d h.1,
  )
]

module _ {World : Type 0} (client : Client World) (w : World) (raise_on_error : Bool) where
  pub verify_each-IsDict :
      (acc d v : Topics) → IsDict acc → verify_each client w raise_on_error acc d ≡ ok v → IsDict v
  unfolding verify_each
  verify_each-IsDict acc [] v i h = let same : acc ≡ v = cc h in subst IsDict same i
  verify_each-IsDict acc ((topic, asked) ∷ more) v i h =
      elim (Bool-cases (client.has_metadata_for_topic w topic)) [
        | inl e ↦
            let (kept, _, next) =
              >>=-eq-ok (valid_partitions client w raise_on_error topic asked) _
                (rw (e, verify_each) at h) in
            verify_each-IsDict (insert topic kept acc) more v (insert-IsDict topic kept acc i) next
        | inr e ↦ elim (Bool-cases raise_on_error) [
          | inl r ↦ absurd (cc (rw (e, r, verify_each) at h))
          | inr r ↦ verify_each-IsDict acc more v i (rw (e, r, verify_each) at h)
        ]
      ]

abbrev pub Has : Dict ℕ ℤ → ℕ → Type 0
Has d p = (o : ℤ) × (lookup p d ≡ some o)

select_total :
    (d : Dict ℕ ℤ) (ps : List ℕ)
    → Each (Has d) ps
    → Returns
        (λ c. (p : ℕ) → lookup p c ≡ (if contains p ps then lookup p d else none))
        (select d ps)
unfolding select lookup contains
select_total d [] h = λ p. refl
select_total d (q ∷ ps) ((o, e), h) = Returns-step _ (offset_at q d) _ o (rw (e, offset_at) refl) (
    Returns-bind (λ c. (p : ℕ) → lookup p c ≡ (if contains p ps then lookup p d else none)) _
      (select d ps) _ (select_total d ps h)
      (λ c k p. elim (Bool-cases (q == p)) [
        | inl s ↦
            let same : q ≡ p = ground arith in
            let here : lookup p d ≡ some o = subst (λ z. lookup z d ≡ some o) same e in
            ground (arith, here)
        | inr s ↦ ground (arith, k p)
      ]))

-- Whether the offsets of an entry of the valid topics are there.
abbrev pub Fit : Dict String (Dict ℕ ℤ) → String × List ℕ → Type 0
Fit ds e = is_nil e.1 ≡ false → (d : Dict ℕ ℤ) × (lookup e.0 ds ≡ some d) × Each (Has d) e.1

abbrev allowed : Option (List ℕ) → ℕ → Option ℤ → Option ℤ
allowed none p o = none
allowed (some ps) p o = if contains p ps then o else none

abbrev pub IsChosen : Dict String (Dict ℕ ℤ) → Topics → Dict String (Dict ℕ ℤ) → Type 0
IsChosen ds valid r =
    (t : String) (p : ℕ) → offset_in t p r ≡ allowed (lookup t valid) p (offset_in t p ds)

pub skipped :
    (ds : Dict String (Dict ℕ ℤ)) (topic : String) (more : Topics) (r : Dict String (Dict ℕ ℤ))
    → Absent topic more
    → IsChosen ds more r
    → IsChosen ds ((topic, []) ∷ more) r
unfolding lookup contains
skipped ds topic more r a k t p = elim (Bool-cases (string_eq.beq topic t)) [
  | inl s ↦
      let same = (string_eq.beq_iff topic t).0 s in
      let gone : lookup t more ≡ none =
        subst (λ u. lookup u more ≡ none) same (Absent-lookup topic more a) in
      rw s (rw gone at (k t p))
  | inr s ↦ rw s (k t p)
]

pub entered :
    (ds : Dict String (Dict ℕ ℤ)) (topic : String) (ps : List ℕ) (more : Topics)
    (r : Dict String (Dict ℕ ℤ)) (d c : Dict ℕ ℤ)
    → lookup topic ds ≡ some d
    → ((p : ℕ) → lookup p c ≡ (if contains p ps then lookup p d else none))
    → IsChosen ds more r
    → IsChosen ds ((topic, ps) ∷ more) ((topic, c) ∷ r)
unfolding lookup
entered ds topic ps more r d c found chosen k t p = elim (Bool-cases (string_eq.beq topic t)) [
  | inl s ↦
      let same = (string_eq.beq_iff topic t).0 s in
      let here : lookup t ds ≡ some d = subst (λ u. lookup u ds ≡ some d) same found in
      rw (s, offset_in, here) (chosen p)
  | inr s ↦ rw (s, offset_in) (k t p)
]

pub select_all_total :
    (ds : Dict String (Dict ℕ ℤ)) (valid : Topics)
    → IsDict valid
    → Each (Fit ds) valid
    → Returns (IsChosen ds valid) (select_all ds valid)
unfolding select_all lookup
select_all_total ds [] i h = λ t p. refl
select_all_total ds ((topic, []) ∷ more) i h =
    Returns-bind (IsChosen ds more) _ (select_all ds more) _ (select_all_total ds more i.1 h.1)
      (λ r k. skipped ds topic more r i.0 k)
select_all_total ds ((topic, q ∷ qs) ∷ more) i h =
    let (d, found, has) = h.0 refl in
    Returns-bind (IsChosen ds more) _ (select_all ds more) _ (select_all_total ds more i.1 h.1)
      (λ r k. Returns-step _ (offsets_of topic ds) _ d (rw (found, offsets_of) refl) (
        Returns-bind
          (λ c. (p : ℕ) → lookup p c ≡ (if contains p (q ∷ qs) then lookup p d else none)) _
          (select d (q ∷ qs)) _ (select_total d (q ∷ qs) has)
          (λ c m. entered ds topic (q ∷ qs) more r d c found m k)))
