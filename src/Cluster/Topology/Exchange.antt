-- ===== src/Cluster/Topology/Exchange.antt =====
-- The replicas of one partition, removed and added (cluster_info/cluster_topology.py).
use mathlib.Core.List.{append-nil, append_assoc}
use kafka_utils.Base.{
  ℕ, ◌≤◌, List, [], ◌∷◌, ◌++◌, true, false, ◌≡◌, ◌≢◌, inl, inr, refl, sym, ◌∙◌, ap, arith,
  Bool-cases, Returns, Returns-bind, Returns-map, Returns-step, count, contains, contains-count,
  count-append, count-cons, erase, pair_eq, string_eq, nat_eq, option_eq, ==_refl,
}
use kafka_utils.Cluster.Objects.{Store, replicas, partitions}
use kafka_utils.Cluster.Broker.{
  IsLinked, removed, added, removed-IsLinked, added-IsLinked, remove_partition_lem,
  add_partition_lem,
}
use kafka_utils.Cluster.Topology.{name_of, same_list, remove_all, add_all, set_new_replicas}

-- What the replacement of the replicas of one partition leaves alone.
pub record IsOnlyAt (p : ℕ) (s t : Store) : Type 0 where
  pub views : IsLinked t
  pub others : (q : ℕ) → q ≢ p → replicas t q ≡ replicas s q
  pub ids : (b : ℕ) → (t.broker b).id ≡ (s.broker b).id
  pub names : (q : ℕ) → name_of t q ≡ name_of s q

IsOnlyAt-trans : {p : ℕ} {s t u : Store} → IsOnlyAt p s t → IsOnlyAt p t u → IsOnlyAt p s u
IsOnlyAt-trans h k = record {
  views = k.views;
  others = λ q ne. k.others q ne ∙ h.others q ne;
  ids = λ b. k.ids b ∙ h.ids b;
  names = λ q. k.names q ∙ h.names q;
}

erase-head : (a : ℕ) (xs : List ℕ) → erase a (a ∷ xs) ≡ xs
unfolding erase
erase-head a xs = rw (==_refl a)

removed-replicas : (s : Store) (b p : ℕ) → replicas (removed s b p) p ≡ erase b (replicas s p)
removed-replicas s b p = ground arith

added-replicas : (s : Store) (b p : ℕ) → replicas (added s b p) p ≡ replicas s p ++ b ∷ []
added-replicas s b p = ground arith

removed-IsOnlyAt : (s : Store) (b p : ℕ) → IsLinked s → IsOnlyAt p s (removed s b p)
removed-IsOnlyAt s b p v = record {
  views = removed-IsLinked s b p v;
  others = λ q ne. ground arith;
  ids = λ c. ground arith;
  names = λ q. ground arith;
}

added-IsOnlyAt :
    (s : Store) (b p : ℕ)
    → IsLinked s
    → contains p (partitions s b) ≡ false
    → IsOnlyAt p s (added s b p)
added-IsOnlyAt s b p v new = record {
  views = added-IsLinked s b p v new;
  others = λ q ne. ground arith;
  ids = λ c. ground arith;
  names = λ q. ground arith;
}

abbrev Emptied : Store → ℕ → Store → Type 0
Emptied s p t = IsOnlyAt p s t × (replicas t p ≡ [])

remove_all_total :
    (s : Store) (p : ℕ) (bs : List ℕ)
    → IsLinked s
    → replicas s p ≡ bs
    → Returns (Emptied s p) (remove_all s p bs)
unfolding remove_all
remove_all_total s p [] v e =
    (record { views = v; others = λ q ne. refl; ids = λ b. refl; names = λ q. refl }, e)
remove_all_total s p (b ∷ bs) v e =
    let held : contains p (partitions s b) ≡ true =
      ground (
        arith,
        v.linked b p,
        contains-count p (partitions s b),
        ap (count b) e,
        count-cons b b bs,
      ) in
    let left : replicas (removed s b p) p ≡ bs =
      removed-replicas s b p ∙ ap (erase b) e ∙ erase-head b bs in
    Returns-step (Emptied s p) _ _ (removed s b p) (remove_partition_lem s b p v ∙ rw held) (
      Returns-map (Emptied (removed s b p) p) (Emptied s p) _
        (λ t k. (IsOnlyAt-trans (removed-IsOnlyAt s b p v) k.0, k.1))
        (remove_all_total (removed s b p) p bs (removed-IsLinked s b p v) left))

abbrev Extended : Store → ℕ → List ℕ → Store → Type 0
Extended s p bs t = IsOnlyAt p s t × (replicas t p ≡ replicas s p ++ bs)

add_all_total :
    (s : Store) (p : ℕ) (bs : List ℕ)
    → IsLinked s
    → ((c : ℕ) → count c (replicas s p ++ bs) ≤ 1)
    → Returns (Extended s p bs) (add_all s p bs)
unfolding add_all
add_all_total s p [] v once = (
  record { views = v; others = λ q ne. refl; ids = λ b. refl; names = λ q. refl },
  sym (append-nil (replicas s p)),
)
add_all_total s p (b ∷ bs) v once =
    let new : contains p (partitions s b) ≡ false = ground (
      arith,
      v.linked b p,
      contains-count p (partitions s b),
      once b,
      count-append b (replicas s p) (b ∷ bs),
      count-cons b b bs,
    ) in
    let longer : replicas (added s b p) p ++ bs ≡ replicas s p ++ b ∷ bs =
      ap (λ xs. xs ++ bs) (added-replicas s b p) ∙ append_assoc (replicas s p) (b ∷ []) bs in
    Returns-step (Extended s p (b ∷ bs)) _ _ (added s b p) (add_partition_lem s b p ∙ rw new) (
      Returns-map (Extended (added s b p) p bs) (Extended s p (b ∷ bs)) _
        (λ t k. (IsOnlyAt-trans (added-IsOnlyAt s b p v new) k.0, k.1 ∙ longer))
        (add_all_total (added s b p) p bs (added-IsLinked s b p v new) (λ c. rw longer (once c))))

same_list-eq : (xs ys : List ℕ) → same_list xs ys ≡ true → xs ≡ ys
same_list-eq [] [] h = refl
same_list-eq [] (y ∷ ys) h = cc
same_list-eq (x ∷ xs) [] h = cc
same_list-eq (x ∷ xs) (y ∷ ys) h = ground (arith, same_list-eq xs ys)

abbrev pub Replaced : Store → ℕ → List ℕ → Store → Type 0
Replaced s p bs t = IsOnlyAt p s t × (replicas t p ≡ bs)

pub set_new_replicas_total :
    (s : Store) (p : ℕ) (new : List ℕ)
    → IsLinked s
    → ((c : ℕ) → count c new ≤ 1)
    → Returns (Replaced s p new) (set_new_replicas s p new)
unfolding set_new_replicas
set_new_replicas_total s p new v once = elim (Bool-cases (same_list new (replicas s p))) [
  | inl e ↦ rw e (
    record { views = v; others = λ q ne. refl; ids = λ b. refl; names = λ q. refl },
    sym (same_list-eq new (replicas s p) e),
  )
  | inr e ↦ rw e (
      Returns-bind (Emptied s p) (Replaced s p new) _ _ (remove_all_total s p (replicas s p) v refl)
        (λ t k.
          Returns-map (Extended t p new) (Replaced s p new) _
            (λ u l. (IsOnlyAt-trans k.0 l.0, l.1 ∙ ap (λ xs. xs ++ new) k.1))
            (add_all_total t p new k.0.views (λ c. rw k.1 (once c)))))
]
