-- ===== src/Plan/Against.antt =====
-- A plan against the base plan: `_validate_plan_base` and what it means.
use kafka_utils.Base.{
  ◌==◌, List, [], ◌∷◌, ◌++◌, true, ◌&&◌, length, map, some, ◌≡◌, ◌≢◌, inl, inr, refl, sym, ap, ◌∙◌,
  arith, Bool-cases, Option-cases, Each, Each-map, ok, >>=-eq-ok, lookup, insert, Absent, Dict,
  string_eq, pair_eq, ℤ,
}
use mathlib.Core.List.{append-nil, append_assoc}
use kafka_utils.Plan.Entry.{PData, IsDistinct, int_eq}
use kafka_utils.Plan.Validate.{PName, name, name_eq, named, replicas_by_name, same_counts}

abbrev pub item : PData → PName × List ℤ
item p = (name p, p.replicas)

insert-Absent :
    (k : PName) (v : List ℤ) (d : Dict PName (List ℤ))
    → Absent k d
    → insert k v d ≡ d ++ (k, v) ∷ []
unfolding insert
insert-Absent k v [] h = refl
insert-Absent k v ((j, w) ∷ d) h = ground (arith, name_eq.beq_iff j k, insert-Absent k v d h.1)

Absent-snoc :
    (k j : PName) (v : List ℤ) (d : Dict PName (List ℤ))
    → Absent k d
    → j ≢ k
    → Absent k (d ++ (j, v) ∷ [])
Absent-snoc k j v [] h ne = (ne, tt)
Absent-snoc k j v (x ∷ d) h ne = (h.0, Absent-snoc k j v d h.1 ne)

Each-names :
    (P : PName → Type 0) (ps : List PData) → Each P (map name ps) → Each (λ p. P (name p)) ps
Each-names P [] h = tt
Each-names P (p ∷ ps) h = (h.0, Each-names P ps h.1)

Each-both :
    (P Q R : PData → Type 0)
    → ((p : PData) → P p → Q p → R p)
    → (ps : List PData) → Each P ps
    → Each Q ps
    → Each R ps
Each-both P Q R f [] h k = tt
Each-both P Q R f (p ∷ ps) h k = (f p h.0 k.0, Each-both P Q R f ps h.1 k.1)

-- With different names the dictionary keeps every entry, in order.
pub replicas_by_name-item :
    (ps : List PData) (d : Dict PName (List ℤ))
    → Each (λ p. Absent (name p) d) ps
    → IsDistinct (map name ps)
    → replicas_by_name ps d ≡ d ++ map item ps
unfolding replicas_by_name
replicas_by_name-item [] d h k = sym (append-nil d)
replicas_by_name-item (p ∷ ps) d h k =
    ap (replicas_by_name ps) (insert-Absent (name p) p.replicas d h.0)
    ∙ replicas_by_name-item ps (d ++ item p ∷ [])
        (Each-both (λ q. Absent (name q) d) (λ q. name q ≢ name p)
          (λ q. Absent (name q) (d ++ item p ∷ []))
          (λ q a ne. Absent-snoc (name q) (name p) p.replicas d a (λ e. ne (sym e))) ps h.1
          (Each-names (λ n. n ≢ name p) ps k.0))
        k.1
    ∙ append_assoc d (item p ∷ []) (map item ps)

pub nil-Absent : (ps : List PData) → Each (λ p. Absent {V = List ℤ} (name p) []) ps
nil-Absent [] = tt
nil-Absent (p ∷ ps) = (tt, nil-Absent ps)

-- Each new partition has as many replicas as the base plan gives it.
abbrev pub Keeps : List PData → PData → Type 0
Keeps base p = Each (λ q. name q ≡ name p → length p.replicas ≡ length q.replicas) base

lookup-item :
    (n : PName) (base : List PData) {old : List ℤ}
    → IsDistinct (map name base)
    → lookup n (map item base) ≡ some old
    → Each (λ q. name q ≡ n → q.replicas ≡ old) base
unfolding lookup
lookup-item n [] d e = tt
lookup-item n (q ∷ qs) d e = elim (Bool-cases (name_eq.beq (name q) n)) [
  | inl b ↦
      let same : name q ≡ n = (name_eq.beq_iff (name q) n).0 b in
      (
        λ _. ground arith,
        Each-map (λ r. name r ≢ name q) _ (λ r ne e'. absurd (ne (e' ∙ sym same))) qs
            (Each-names (λ m. m ≢ name q) qs d.0),
      )
  | inr b ↦ (λ e'. cc (b, (name_eq.beq_iff (name q) n).1 e'), lookup-item n qs d.1 (ground arith))
]

named-lookup :
    (n : PName) (base : List PData)
    → named n (map name base) ≡ true
    → (q : PData) × (lookup n (map item base) ≡ some q.replicas)
      × (name q ≡ n)
      × ((P : PData → Type 0) → Each P base → P q)
unfolding lookup
named-lookup n [] h = cc
named-lookup n (q ∷ qs) h = elim (Bool-cases (name_eq.beq (name q) n)) [
  | inl b ↦ (q, rw b, (name_eq.beq_iff (name q) n).0 b, λ P k. k.0)
  | inr b ↦
      let (r, e, same, at) = named-lookup n qs (ground arith) in (r, rw b e, same, λ P k. at P k.1)
]

pub same_counts_sound :
    (base new : List PData)
    → IsDistinct (map name base)
    → same_counts (map item base) (map item new) ≡ ok true
    → Each (Keeps base) new
unfolding same_counts
same_counts_sound base [] d h = tt
same_counts_sound base (p ∷ ps) d h = elim (Option-cases (lookup (name p) (map item base))) [
  | inl e ↦ cc (rw (e, same_counts) at h)
  | inr (old, e) ↦
      let (others, eo, last) =
        >>=-eq-ok (same_counts (map item base) (map item ps)) _ (rw (e, same_counts) at h) in
      let both : ((length p.replicas == length old) && others) ≡ true = ground arith in
      let count : length p.replicas ≡ length old = ground arith in
      let pass : others ≡ true = ground arith in
      (
        Each-map (λ q. name q ≡ name p → q.replicas ≡ old) _
            (λ q k e'. count ∙ ap (λ (r : List ℤ). length r) (sym (k e'))) base
            (lookup-item (name p) base d e),
        same_counts_sound base ps d (cc (eo, pass)),
      )
]

pub same_counts_complete :
    (base new : List PData)
    → Each (λ p. named (name p) (map name base) ≡ true) new
    → Each (Keeps base) new
    → same_counts (map item base) (map item new) ≡ ok true
unfolding same_counts
same_counts_complete base [] s h = refl
same_counts_complete base (p ∷ ps) s h =
    let (q, e, same, at) = named-lookup (name p) base s.0 in
    let count : length p.replicas ≡ length q.replicas = at _ h.0 same in
    rw (e, same_counts) (ground (arith, same_counts_complete base ps s.1 h.1))
