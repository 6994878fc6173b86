-- ===== src/Cluster/Topology/Rounds.antt =====
-- The rounds of the loop of `replace_broker` (cluster_info/cluster_topology.py).
use kafka_utils.Base.{
  ℕ, ◌+◌, ◌≤◌, List, [], ◌∷◌, not, ◌&&◌, if◌then◌else◌, ◌==◌, ◌≡◌, ◌≢◌, inl, inr, refl, sym, ◌∙◌,
  ap, arith, Bool-cases, count, contains, contains-count, count-cons, erase, nat_eq, ==_refl,
}
use kafka_utils.Cluster.Objects.{Store, replicas, partitions}
use kafka_utils.Cluster.Partition.{replace, replace_first, count-replace_first}
use kafka_utils.Cluster.Topology.{replace_in}

replace_first-absent :
    (source dest : ℕ) (xs : List ℕ) → count source xs ≡ 0 → replace_first source dest xs ≡ xs
unfolding replace_first count
replace_first-absent source dest [] h = refl
replace_first-absent source dest (x ∷ xs) h = ground (arith, replace_first-absent source dest xs)

pub count-replaced :
    (c source dest : ℕ) (xs : List ℕ)
    → source ≢ dest
    → count source xs ≤ 1
    → count c (replace_first source dest xs)
      ≡ (if c == source then 0 else count c xs + (if contains source xs && c == dest then 1 else 0))
count-replaced c source dest xs ne once = elim (Bool-cases (contains source xs)) [
  | inl m ↦ ground (arith, count-replace_first c source dest xs m, contains-count source xs)
  | inr a ↦ ground (arith, replace_first-absent source dest xs, contains-count source xs)
]

pub count-nil : (q : ℕ) → count q [] ≡ 0
unfolding count
count-nil q = refl

module _ (source dest : ℕ) (ne : source ≢ dest) where
  -- One round of the loop.
  pub step : Store → ℕ → Store
  unfolding replace_in replace
  step s p = replace_in s source dest (p ∷ [])

  replace_in-cons :
      (s : Store) (p : ℕ) (ps : List ℕ)
      → replace_in s source dest (p ∷ ps) ≡ replace_in (step s p) source dest ps
  unfolding replace_in step
  replace_in-cons s p ps = refl

  replace_in-nil : (s : Store) → replace_in s source dest [] ≡ s
  unfolding replace_in
  replace_in-nil s = refl

  step-replicas :
      (s : Store) (p q : ℕ)
      → replicas (step s p) q
        ≡ (if q == p then replace_first source dest (replicas s q) else replicas s q)
  unfolding step
  step-replicas s p q = elim (Bool-cases (q == p)) [
    | inl e ↦ let here : q ≡ p = ground arith in rw (here, ==_refl p) (ground arith)
    | inr e ↦ ground arith
  ]

  step-source : (s : Store) (p : ℕ) → partitions (step s p) source ≡ erase p (partitions s source)
  unfolding step
  step-source s p = ground arith

  step-dest :
      (s : Store) (p : ℕ)
      → partitions (step s p) dest
        ≡ (if contains p (partitions s dest) then partitions s dest else p ∷ partitions s dest)
  unfolding step
  step-dest s p = ground arith

  step-other :
      (s : Store) (p b : ℕ) → b ≢ source → b ≢ dest → partitions (step s p) b ≡ partitions s b
  unfolding step
  step-other s p b h k = ground arith

  pub replace_in-replicas :
      (ps : List ℕ) (s : Store)
      → ((q : ℕ) → count source (replicas s q) ≡ count q ps)
      → ((q : ℕ) → count q ps ≤ 1)
      → (q : ℕ)
      → replicas (replace_in s source dest ps) q ≡ replace_first source dest (replicas s q)
  unfolding count
  replace_in-replicas [] s h once q =
      ap (λ x. replicas x q) (replace_in-nil s)
      ∙ sym (replace_first-absent source dest (replicas s q) (h q))
  replace_in-replicas (p ∷ ps) s h once q =
      ap (λ x. replicas x q) (replace_in-cons s p ps)
      ∙ replace_in-replicas ps (step s p)
          (λ r. ground (
            arith,
            step-replicas s p r,
            count-replaced source source dest (replicas s r) ne (ground (arith, h r, once r)),
            h r,
            once r,
            contains-count source (replicas s r),
          ))
          (λ r. ground (arith, once r)) q
      ∙ elim (Bool-cases (q == p)) [
        | inl e ↦ ground (
          arith,
          step-replicas s p q,
          replace_first-absent source dest (replace_first source dest (replicas s q)),
          count-replaced source source dest (replicas s q) ne (ground (arith, h q, once q)),
        )
        | inr e ↦ ap (replace_first source dest) (step-replicas s p q ∙ rw e)
      ]

  pub source-after :
      (ps : List ℕ) (s : Store)
      → partitions s source ≡ ps
      → partitions (replace_in s source dest ps) source ≡ []
  unfolding erase
  source-after [] s e = ap (λ x. partitions x source) (replace_in-nil s) ∙ e
  source-after (p ∷ ps) s e =
      ap (λ x. partitions x source) (replace_in-cons s p ps)
      ∙ source-after ps (step s p) (step-source s p ∙ ap (erase p) e ∙ rw (==_refl p))

  pub dest-after :
      (ps : List ℕ) (s : Store)
      → ((q : ℕ) → count q ps ≤ 1)
      → (q : ℕ)
      → count q (partitions (replace_in s source dest ps) dest)
        ≡ count q (partitions s dest)
          + (if contains q ps && not (contains q (partitions s dest)) then 1 else 0)
  unfolding count contains
  dest-after [] s once q = ap (λ x. count q (partitions x dest)) (replace_in-nil s) ∙ omega arith
  dest-after (p ∷ ps) s once q =
      ap (λ x. count q (partitions x dest)) (replace_in-cons s p ps)
      ∙ dest-after ps (step s p) (λ r. ground (arith, once r)) q
      ∙ elim (Bool-cases (q == p)) [
        | inl e ↦
            let here : p ≡ q = ground arith in
            ground (
              arith,
              step-dest s p,
              once q,
              contains-count q ps,
              contains-count q (partitions s dest),
              contains-count q (partitions (step s p) dest),
              count-cons q p (partitions s dest),
            )
        | inr e ↦ ground (
          arith,
          step-dest s p,
          contains-count q (partitions s dest),
          contains-count q (partitions (step s p) dest),
          count-cons q p (partitions s dest),
        )
      ]

  pub other-after :
      (ps : List ℕ) (s : Store) (b : ℕ)
      → b ≢ source
      → b ≢ dest
      → partitions (replace_in s source dest ps) b ≡ partitions s b
  other-after [] s b h k = ap (λ x. partitions x b) (replace_in-nil s)
  other-after (p ∷ ps) s b h k =
      ap (λ x. partitions x b) (replace_in-cons s p ps)
      ∙ other-after ps (step s p) b h k
      ∙ step-other s p b h k
