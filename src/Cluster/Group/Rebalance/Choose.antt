-- ===== src/Cluster/Group/Rebalance/Choose.antt =====
-- The choice of a move: what it may rely on, and what it returns.
use kafka_utils.Base.{
  ℕ, ◌+◌, List, [], ◌∷◌, Bool, true, false, not, ◌||◌, Option, none, some, if◌then◌else◌, ltb, ◌≡◌,
  arith, inl, inr, Bool-cases, ok, raise, key_error, ◌>>=◌, Returns, Returns-bind, Each,
  Each-contains, contains, contains-keep, Each-sorted_up, Each-sorted_down, sorted_up, sorted_down,
  keep, ℤ, ltb_ℤ,
}
use kafka_utils.Cluster.Objects.{Store, partitions}
use kafka_utils.Cluster.Broker.{nearest, get_preferred_partition}
use kafka_utils.Cluster.Group.Elect.{load}
use kafka_utils.Cluster.Group.Rebalance.{
  Distances, Target, Choice, better, try_dest, try_dests, try_sources, get_target_brokers, max_size,
}

module _ (s : Store) where
  module _ (P : ℕ → Type 0) (distance : ℕ → Option ℤ)
      (defined : (p : ℕ) → P p → (d : ℤ) × (distance (s.partition p).topic ≡ some d)) where
    nearest_total :
        (best : ℕ) (ps : List ℕ) → P best → Each P ps → Returns P (nearest distance s best ps)
    unfolding nearest
    nearest_total best [] h k = h
    nearest_total best (p ∷ ps) h k =
        let (d, e) = defined best h in
        let (d', e') = defined p k.0 in
        rw (e, nearest)
          (rw e' (nearest_total (if ltb_ℤ d' d then p else best) ps (pick (ltb_ℤ d' d) k.0) k.1))
      where
        pick : (b : Bool) → P p → P (if b then p else best)
        pick true m = m
        pick false m = h

  -- The partitions that one broker may give to another.
  pub record IsMovable (source dest p : ℕ) : Type 0 where
    pub held : contains p (partitions s source) ≡ true
    pub new : contains p (partitions s dest) ≡ false

  abbrev IsPreferred : ℕ → ℕ → Option ℕ → Type 0
  IsPreferred source dest none = Unit
  IsPreferred source dest (some p) = IsMovable source dest p

  get_preferred_partition_total :
      (source dest : ℕ) (distance : ℕ → Option ℤ)
      → ((p : ℕ) → IsMovable source dest p → (d : ℤ) × (distance (s.partition p).topic ≡ some d))
      → Returns (IsPreferred source dest) (get_preferred_partition s source dest distance)
  unfolding get_preferred_partition
  get_preferred_partition_total source dest distance defined =
      go (keep (λ p. not (contains p (partitions s dest))) (partitions s source)) (
        Each-contains _ _ λ p m.
          let e =
            contains-keep p (λ q. not (contains q (partitions s dest))) (partitions s source) in
          record { held = ground arith; new = ground arith })
    where
      go :
          (ps : List ℕ)
          → Each (IsMovable source dest) ps
          → Returns (IsPreferred source dest) (elim ps [
            | [] ↦ ok none
            | q ∷ qs ↦ nearest distance s q (q ∷ qs) >>= λ best. ok (some best)
          ])
      go [] h = tt
      go (q ∷ qs) h =
          Returns-bind (IsMovable source dest) (IsPreferred source dest) _ _
            (nearest_total (IsMovable source dest) distance defined q (q ∷ qs) h.0 h) (λ best k. k)

  -- Whether the source is to give to the destination.
  abbrev pub gives : ℕ → ℕ → Bool
  gives source dest = ltb (load s dest + 1) (load s source) || (s.broker source).decommissioned

  module _ (ds : Distances) (Source Dest : ℕ → Type 0)
      (defined : (source dest p : ℕ)
        → Source source
        → Dest dest
        → gives source dest ≡ true
        → IsMovable source dest p
        → (d : ℤ) × (ds.distance dest source (s.partition p).topic ≡ some d)) where
    pub record IsMove (m : Target) : Type 0 where
      pub from : Source m.source
      pub to : Dest m.dest
      pub down : gives m.source m.dest ≡ true
      pub movable : IsMovable m.source m.dest m.partition

    abbrev pub IsChoice : Option Target → Type 0
    IsChoice none = Unit
    IsChoice (some m) = IsMove m

    abbrev Chosen : Choice → Type 0
    Chosen c = IsChoice c.target

    better-IsChoice :
        (d : ℤ) (m : Target) (c : Choice) → IsMove m → Chosen c → Chosen (better d m c)
    better-IsChoice d m c h k = elim (Bool-cases (ltb_ℤ d c.min_distance)) [
      | inl e ↦ rw e h
      | inr e ↦ rw e k
    ]

    try_dest_total :
        (source dest : ℕ) (c : Choice)
        → Source source
        → Dest dest
        → gives source dest ≡ true
        → Chosen c
        → Returns Chosen (try_dest s ds source dest c)
    unfolding try_dest
    try_dest_total source dest c hs hd g k =
        Returns-bind (IsPreferred source dest) Chosen _ _
          (get_preferred_partition_total source dest (ds.distance dest source)
            (λ p. defined source dest p hs hd g))
          go
      where
        go :
            (o : Option ℕ)
            → IsPreferred source dest o
            → Returns Chosen (elim o [
              | none ↦ ok c
              | some p ↦ elim (ds.distance dest source (s.partition p).topic) [
                | none ↦ raise key_error
                | some d ↦ ok (better d (record { source = source; dest = dest; partition = p }) c)
              ]
            ])
        go none h = k
        go (some p) h =
            let (d, e) = defined source dest p hs hd g h in
            rw e (
              better-IsChoice d (record { source = source; dest = dest; partition = p }) c
                (record { from = hs; to = hd; down = g; movable = h }) k)

    try_dests_total :
        (source : ℕ) (c : Choice) (dests : List ℕ)
        → Source source
        → Each Dest dests
        → Chosen c
        → Returns Chosen (try_dests s ds source c dests)
    unfolding try_dests
    try_dests_total source c [] hs h k = k
    try_dests_total source c (dest ∷ rest) hs h k = elim (Bool-cases (gives source dest)) [
      | inl g ↦
          rw (g, try_dests)
            (Returns-bind Chosen Chosen _ _ (try_dest_total source dest c hs h.0 g k)
              (λ c' k'. try_dests_total source c' rest hs h.1 k'))
      | inr stop ↦ rw (stop, try_dests) k
    ]

    try_sources_total :
        (under : List ℕ) (c : Choice) (sources : List ℕ)
        → Each Dest under
        → Each Source sources
        → Chosen c
        → Returns Chosen (try_sources s ds under c sources)
    unfolding try_sources
    try_sources_total under c [] hd hs k = k
    try_sources_total under c (source ∷ rest) hd hs k =
        Returns-bind Chosen Chosen _ _ (try_dests_total source c under hs.0 hd k)
          (λ c' k'. try_sources_total under c' rest hd hs.1 k')

    -- The choice returns, and what it returns is a move that a source may make to a destination.
    pub get_target_brokers_total :
        (over under : List ℕ)
        → Each Source over
        → Each Dest under
        → Returns IsChoice (get_target_brokers s ds over under)
    unfolding get_target_brokers
    get_target_brokers_total over under hs hd =
        Returns-bind Chosen IsChoice _ _
          (try_sources_total (sorted_up (load s) under)
            (record { min_distance = max_size; target = none }) (sorted_down (load s) over)
            (Each-sorted_up (load s) Dest under hd) (Each-sorted_down (load s) Source over hs) tt)
          (λ c k. k)
