-- ===== src/Offsets/Sets.antt =====
-- Sets of partitions as lists (kafka_utils/util/offsets.py).
use kafka_utils.Base.{
  ℕ, String, List, [], ◌∷◌, true, false, not, ◌&&◌, ◌==◌, none, ◌≡◌, inl, inr, refl, arith,
  Bool-cases, is_nil, Each, contains-Each, contains, contains-keep, lookup, Absent, string_eq,
}
use kafka_utils.Offsets.Verify.{Topics, unique, minus}

contains-unique : (a : ℕ) (xs : List ℕ) → contains a (unique xs) ≡ contains a xs
unfolding contains unique
contains-unique a [] = refl
contains-unique a (x ∷ xs) =
    ground (arith, contains-keep a (λ y. not (x == y)) (unique xs), contains-unique a xs)

pub contains-minus :
    (a : ℕ) (xs ys : List ℕ) → contains a (minus xs ys) ≡ (contains a xs && not (contains a ys))
unfolding minus
contains-minus a xs ys =
    ground (arith, contains-keep a (λ x. not (contains x ys)) (unique xs), contains-unique a xs)

pub nil-contains : (a : ℕ) (xs : List ℕ) → is_nil xs ≡ true → contains a xs ≡ false
unfolding contains
nil-contains a [] h = refl
nil-contains a (x ∷ xs) h = cc

no_member-nil : (xs : List ℕ) → ((a : ℕ) → contains a xs ≡ false) → is_nil xs ≡ true
unfolding contains
no_member-nil [] h = refl
no_member-nil (x ∷ xs) h = ground (arith, h x)

pub known_no_unknown :
    (asked ids : List ℕ) → Each (λ p. contains p ids ≡ true) asked → is_nil (minus asked ids) ≡ true
known_no_unknown asked ids h = no_member-nil (minus asked ids) (λ p.
    elim (Bool-cases (contains p asked)) [
      | inl e ↦
          let known = contains-Each (λ q. contains q ids ≡ true) asked p h e in
          ground (arith, contains-minus p asked ids)
      | inr e ↦ ground (arith, contains-minus p asked ids)
    ])

pub Absent-lookup : (t : String) (d : Topics) → Absent t d → lookup t d ≡ none
unfolding lookup
Absent-lookup t [] h = refl
Absent-lookup t ((u, ps) ∷ d) h = ground (arith, string_eq.beq_iff u t, Absent-lookup t d h.1)
