-- ===== src/Commands/Bounded.antt =====
-- A reduced assignment changes what it may, within its three limits.
use kafka_utils.Base.{
  ℕ, ◌+◌, ◌≤◌, List, [], ◌∷◌, ◌++◌, map, true, false, if◌then◌else◌, Option, none, some, lookup,
  pair_eq, string_eq, nat_eq, all_of, contains, sum_of, Each, Each-append, Each-map, ◌≡◌, refl, sym,
  ap, subst, ◌∙◌, arith,
}
use kafka_utils.Cluster.Topology.{Name, Assignment, same_list}
use kafka_utils.Commands.Actions.{Action, over}
use kafka_utils.Commands.Kept.{Extracted}
use kafka_utils.Commands.Pool.{sum_of-append}
use kafka_utils.Commands.Parts.{Each-part, sum_of-map, sum_of-zero, sum_of-length, sum_of-same}
use kafka_utils.Commands.Reduce.{same_set, moves, take, dict_of}
use kafka_utils.Commands.Changes.{
  Each-take, length-take, Each-dict_of, sum_of-dict_of, same_set-moves, on_both, on_both_value,
  IsMove, IsSwap, Proposed,
}

-- The same list has the same members.
self_contains :
    (xs ys : List ℕ)
    → ((a : ℕ) → contains a xs ≡ true → contains a ys ≡ true)
    → all_of (λ x. contains x ys) xs ≡ true
unfolding contains
self_contains [] ys h = refl
self_contains (x ∷ xs) ys h =
    ground (arith, h x (ground arith), self_contains xs ys (λ a m. h a (ground arith)))

same_list→eq : (xs ys : List ℕ) → same_list xs ys ≡ true → xs ≡ ys
same_list→eq [] [] h = refl
same_list→eq [] (y ∷ ys) h = cc
same_list→eq (x ∷ xs) [] h = cc
same_list→eq (x ∷ xs) (y ∷ ys) h =
    let head : x ≡ y = ground arith in let tail = same_list→eq xs ys (ground arith) in cc

same_list-same_set : (xs ys : List ℕ) → same_list xs ys ≡ true → same_set xs ys ≡ true
same_list-same_set xs ys h =
    let k = self_contains xs xs (λ a m. m) in rw (sym (same_list→eq xs ys h)) (ground arith)

pub Each-both {ℓ} :
    {A : Type ℓ} (P Q : A → Type 0) (xs : List A) → Each P xs → Each Q xs → Each (λ x. P x × Q x) xs
Each-both P Q [] h k = tt
Each-both P Q (x ∷ xs) h k = ((h.0, k.0), Each-both P Q xs h.1 k.1)

over_less : (limit : Option ℕ) (b c : ℕ) → b ≤ c → over limit c ≡ false → over limit b ≡ false
over_less none b c h e = refl
over_less (some l) b c h e = ground arith

module _ (original new : Assignment) (size : Name → ℕ) where
  -- The bytes that a change of the set of replicas moves, and 1 for a change of their order only.
  abbrev pub moved_size : Name → ℕ
  moved_size k = on_both original new (λ o v. if same_set o v then 0 else size k) k

  abbrev pub swaps : Name → ℕ
  swaps k = on_both original new (λ o v. if same_set o v then 1 else 0) k

  -- An entry of the new assignment that differs from the original one.
  abbrev pub IsChange : Name × List ℕ → Type 0
  IsChange e =
      (lookup e.0 new ≡ some e.1)
      × (o : List ℕ) × (lookup e.0 original ≡ some o)
      × (same_list o e.1 ≡ false)

  pub record IsReduced (max_movements max_leader_changes : ℕ) (limit : Option ℕ) (r : Assignment)
      : Type 0 where
    pub changes : Each IsChange r
    pub few_moves : sum_of (λ e. on_both original new moves e.0) r ≤ max_movements
    pub small : over limit (sum_of (λ e. moved_size e.0) r) ≡ false
    pub few_swaps : sum_of (λ e. swaps e.0) r ≤ max_leader_changes

  move_counts :
      (a : Action)
      → IsMove original new a
      → (on_both original new moves a.0 ≡ a.1) × (moved_size a.0 ≡ size a.0) × (swaps a.0 ≡ 0)
  move_counts a m = (
    on_both_value original new _ a.0 m.old m.now m.was m.is ∙ sym m.counted,
    on_both_value original new _ a.0 m.old m.now m.was m.is ∙ rw m.differs refl,
    on_both_value original new _ a.0 m.old m.now m.was m.is ∙ rw m.differs refl,
  )

  swap_counts :
      (e : Name × List ℕ)
      → IsSwap original new e
      → (on_both original new moves e.0 ≡ 0) × (moved_size e.0 ≡ 0) × (swaps e.0 ≤ 1)
  swap_counts e w = (
    on_both_value original new _ e.0 w.old e.1 w.was w.is ∙ same_set-moves w.old e.1 w.same,
    on_both_value original new _ e.0 w.old e.1 w.was w.is ∙ rw w.same refl,
    (let one : ◌≡◌ {A = ℕ} (if same_set w.old e.1 then 1 else 0) 1 = rw w.same refl in
        omega (
          arith,
          on_both_value original new (λ o v. if same_set o v then 1 else 0) e.0 w.old e.1 w.was
              w.is,
          one,
        )),
  )

  -- A name of which the set of replicas changes.
  abbrev pub Moves : Name → Type 0
  Moves k =
      (o : List ℕ) × (v : List ℕ) × (lookup k original ≡ some o)
      × (lookup k new ≡ some v)
      × (same_set o v ≡ false)

  pub names_of : (xs : List Action) → Each (IsMove original new) xs → Each Moves (map (λ a. a.0) xs)
  names_of [] h = tt
  names_of (a ∷ xs) (m, h) = ((m.old, m.now, m.was, m.is, m.differs), names_of xs h)

  changed_entries :
      (r : Assignment)
      → Each Moves (map (λ e. e.0) r)
      → Each (λ e. lookup e.0 new ≡ some e.1) r
      → Each IsChange r
  changed_entries [] h l = tt
  changed_entries (e ∷ r) ((o, v, was, is, differs), h) (found, l) =
      let same : v ≡ e.1 = cc in
      let still : same_set o e.1 ≡ false = subst (λ x. same_set o x ≡ false) same differs in
      ((found, o, was, ground (arith, same_list-same_set o e.1)), changed_entries r h l)

  swap_entries : (xs : Assignment) → Each (IsSwap original new) xs → Each IsChange xs
  swap_entries [] h = tt
  swap_entries (e ∷ xs) (w, h) = ((w.is, w.old, w.was, w.differs), swap_entries xs h)

  -- The changes of one kind and the other, put into a dictionary.
  pub reduced :
      (max_movements max_leader_changes : ℕ) (limit : Option ℕ) (counts : List Action)
      (names : List Name) (changed leaders : Assignment)
      → Each (IsMove original new) counts
      → Extracted size max_movements limit counts names
      → Proposed original new names changed
      → Each (IsSwap original new) leaders
      → IsReduced max_movements max_leader_changes limit
          (dict_of (changed ++ take max_leader_changes leaders) [])
  reduced m n limit counts names changed leaders moved x proposed swapped =
      let chosen : Each (IsMove original new) x.chosen =
        Each-part _ counts x.chosen x.others x.split moved in
      let some_swaps : Each (IsSwap original new) (take n leaders) =
        Each-take _ n leaders swapped in
      let total : (f : Name → ℕ) → sum_of (λ e. f e.0) changed ≡ sum_of (λ a. f a.0) x.chosen = λ f.
        sym (sum_of-map f (λ e. e.0) changed)
        ∙ ap (sum_of f) (proposed.0 ∙ x.named)
        ∙ sum_of-map f (λ a. a.0) x.chosen in
      let all : (f : Name → ℕ)
          → sum_of (λ e. f e.0) (dict_of (changed ++ take n leaders) [])
            ≤ sum_of (λ a. f a.0) x.chosen + sum_of (λ e. f e.0) (take n leaders) =
        λ f. omega (
          arith,
          sum_of-dict_of f (changed ++ take n leaders) [],
          sum_of-append (λ e. f e.0) changed (take n leaders),
          total f,
        ) in
      record {
        changes =
            Each-dict_of IsChange _ []
              (Each-append IsChange changed (take n leaders)
                (changed_entries changed
                  (subst (Each Moves) (sym (proposed.0 ∙ x.named)) (names_of x.chosen chosen))
                  proposed.1)
                (swap_entries (take n leaders) some_swaps))
              tt;
        few_moves = omega (
          arith,
          x.few,
          all (on_both original new moves),
          sum_of-same (λ a. on_both original new moves a.0) (λ a. a.1) x.chosen
              (Each-map _ _ (λ a h. (move_counts a h).0) x.chosen chosen),
          sum_of-zero (λ e. on_both original new moves e.0) (take n leaders)
              (Each-map _ _ (λ e h. (swap_counts e h).0) (take n leaders) some_swaps),
        );
        small =
            over_less limit _ _
              (omega (
                arith,
                all moved_size,
                sum_of-same (λ a. moved_size a.0) (λ a. size a.0) x.chosen
                    (Each-map _ _ (λ a h. (move_counts a h).1) x.chosen chosen),
                sum_of-zero (λ e. moved_size e.0) (take n leaders)
                    (Each-map _ _ (λ e h. (swap_counts e h).1) (take n leaders) some_swaps),
              ))
              x.small;
        few_swaps = omega (
          arith,
          length-take n leaders,
          all swaps,
          sum_of-zero (λ a. swaps a.0) x.chosen
              (Each-map _ _ (λ a h. (move_counts a h).2) x.chosen chosen),
          sum_of-length (λ e. swaps e.0) (take n leaders)
              (Each-map _ _ (λ e h. (swap_counts e h).2) (take n leaders) some_swaps),
        );
      }
