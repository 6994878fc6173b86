-- ===== src/Commands/Changes.antt =====
-- What a reduced assignment contains.
use kafka_utils.Base.{
  ℕ, zero, suc, ◌+◌, ◌≤◌, List, [], ◌∷◌, map, true, false, not, ◌&&◌, Option, some, lookup, insert,
  pair_eq, string_eq, nat_eq, Returns, Returns-bind, length, keep, all_of, contains, sum_of, Each,
  Bool-cases, ◌≡◌, refl, ap, ◌∙◌, arith, inl, inr,
}
use kafka_utils.Cluster.Topology.{Name, Assignment, same_list}
use kafka_utils.Commands.Actions.{Action}
use kafka_utils.Commands.Parts.{Each-insert, sum_of-insert}
use kafka_utils.Commands.Reduce.{
  same_set, moves, unique_length, leaders_changes, partition_change_count, proposals, take, dict_of,
}

module _ {ℓ} {A : Type ℓ} (P : A → Type 0) where
  pub Each-take : (n : ℕ) (xs : List A) → Each P xs → Each P (take n xs)
  Each-take zero xs h = tt
  Each-take (suc n) [] h = tt
  Each-take (suc n) (x ∷ xs) h = (h.0, Each-take n xs h.1)

pub length-take {ℓ} : {A : Type ℓ} (n : ℕ) (xs : List A) → length (take n xs) ≤ n
length-take zero xs = omega arith
length-take (suc n) [] = omega arith
length-take (suc n) (x ∷ xs) = omega (arith, length-take n xs)

pub Each-dict_of :
    (P : Name × List ℕ → Type 0) (xs d : Assignment) → Each P xs → Each P d → Each P (dict_of xs d)
unfolding dict_of
Each-dict_of P [] d h k = k
Each-dict_of P ((k, v) ∷ xs) d h l =
    Each-dict_of P xs (insert k v d) h.1 (Each-insert P k v d h.0 l)

pub sum_of-dict_of :
    (f : Name → ℕ) (xs d : Assignment)
    → sum_of (λ e. f e.0) (dict_of xs d) ≤ sum_of (λ e. f e.0) xs + sum_of (λ e. f e.0) d
unfolding dict_of
sum_of-dict_of f [] d = omega arith
sum_of-dict_of f ((k, v) ∷ xs) d =
    omega (arith, sum_of-dict_of f xs (insert k v d), sum_of-insert f k v d)

-- Lists with the same members have nothing to move.
keep-nil :
    (xs ys : List ℕ)
    → all_of (λ x. contains x ys) xs ≡ true
    → keep (λ x. not (contains x ys)) xs ≡ []
keep-nil [] ys h = refl
keep-nil (x ∷ xs) ys h = ground (arith, keep-nil xs ys)

pub same_set-moves : (xs ys : List ℕ) → same_set xs ys ≡ true → moves xs ys ≡ 0
same_set-moves xs ys h = ap unique_length (keep-nil xs ys (ground arith))

abbrev both : (List ℕ → List ℕ → ℕ) → Option (List ℕ) → Option (List ℕ) → ℕ
both f (some o) (some v) = f o v
both f _ _ = 0

module _ (original new : Assignment) where
  -- What a number says of the old and the new replicas of a partition; 0 if it has not both.
  abbrev pub on_both : (List ℕ → List ℕ → ℕ) → Name → ℕ
  on_both f k = both f (lookup k original) (lookup k new)

  pub on_both_value :
      (f : List ℕ → List ℕ → ℕ) (k : Name) (o v : List ℕ)
      → lookup k original ≡ some o
      → lookup k new ≡ some v
      → on_both f k ≡ f o v
  on_both_value f k o v h l = ap (λ x. both f x (lookup k new)) h ∙ ap (both f (some o)) l

  -- A partition whose set of replicas changes, with the number of its moves, and one of which
  -- only the order changes, with its new replicas.
  pub record IsMove (a : Action) : Type 0 where
    pub old : List ℕ
    pub now : List ℕ
    pub was : lookup a.0 original ≡ some old
    pub is : lookup a.0 new ≡ some now
    pub differs : same_set old now ≡ false
    pub counted : a.1 ≡ moves old now

  pub record IsSwap (e : Name × List ℕ) : Type 0 where
    pub old : List ℕ
    pub was : lookup e.0 original ≡ some old
    pub is : lookup e.0 new ≡ some e.1
    pub differs : same_list old e.1 ≡ false
    pub same : same_set old e.1 ≡ true

  abbrev pub InBoth : Assignment → Type 0
  InBoth d =
      Each (λ e. (lookup e.0 original ≡ some e.1) × ((v : List ℕ) × (lookup e.0 new ≡ some v))) d

  pub partition_change_count_lem :
      (d : Assignment) → InBoth d → Returns (Each IsMove) (partition_change_count new d)
  unfolding partition_change_count
  partition_change_count_lem [] h = tt
  partition_change_count_lem ((k, o) ∷ d) ((was, (v, is)), h) =
      rw (is, partition_change_count)
        (Returns-bind (Each IsMove) (Each IsMove) _ _ (partition_change_count_lem d h) (λ rest k.
          elim (Bool-cases (same_set o v)) [
            | inl e ↦ rw e k
            | inr e ↦
                rw e
                  (record { old = o; now = v; was = was; is = is; differs = e; counted = refl }, k)
          ]))

  pub leaders_changes_lem :
      (d : Assignment) → InBoth d → Returns (Each IsSwap) (leaders_changes new d)
  unfolding leaders_changes
  leaders_changes_lem [] h = tt
  leaders_changes_lem ((k, o) ∷ d) ((was, (v, is)), h) =
      rw (is, leaders_changes)
        (Returns-bind (Each IsSwap) (Each IsSwap) _ _ (leaders_changes_lem d h) (λ rest k.
          elim (Bool-cases (not (same_list o v) && same_set o v)) [
            | inl e ↦ rw e (
              record { old = o; was = was; is = is; differs = ground arith; same = ground arith },
              k,
            )
            | inr e ↦ rw e k
          ]))

  abbrev pub Proposed : List Name → Assignment → Type 0
  Proposed names r = (map (λ e. e.0) r ≡ names) × Each (λ e. lookup e.0 new ≡ some e.1) r

  pub proposals_lem :
      (names : List Name)
      → Each (λ k. (v : List ℕ) × (lookup k new ≡ some v)) names
      → Returns (Proposed names) (proposals new names)
  unfolding proposals
  proposals_lem [] h = (refl, tt)
  proposals_lem (k ∷ ks) ((v, is), h) =
      rw (is, proposals)
        (Returns-bind (Proposed ks) (Proposed (k ∷ ks)) _ _ (proposals_lem ks h)
          (λ r e. (ap (λ xs. k ∷ xs) e.0, (is, e.1))))
