-- ===== src/Commands/Sent.antt =====
-- What a command sends has been checked and reduced.
use kafka_utils.Base.{
  ℕ, List, Bool, true, false, not, ◌&&◌, if◌then◌else◌, Option, some, ℤ, pos_part, all_of, is_nil,
  IsDict, lookup, pair_eq, string_eq, nat_eq, Result, ok, >>=-eq-ok, Returns, Each, Bool-cases, ◌≡◌,
  refl, sym, ap, subst, ◌∙◌, inl, inr, ◌⊎◌, arith,
}
use kafka_utils.Cluster.Topology.{Topology, Assignment, assignment}
use kafka_utils.Plan.Json.{Json}
use kafka_utils.Plan.Entry.{PData}
use kafka_utils.Plan.Validate.{validate_plan}
use kafka_utils.Plan.Valid.{IsValid}
use kafka_utils.Plan.Accept.{IsWithin, validate_plan_iff}
use kafka_utils.Plan.Written.{write_plan, read_plan-write_plan}
use kafka_utils.Commands.Reduce.{size_of, size_limit, get_reduced_assignment}
use kafka_utils.Commands.Bounded.{IsReduced}
use kafka_utils.Commands.Reduced.{get_reduced_assignment-IsReduced}
use kafka_utils.Commands.Send.{
  Session, Finish, exited, idle, sent, plan_of, should_execute, execute_plan, process_assignment,
  propose,
}

-- There is a partition, and each one has a replica.
abbrev pub IsFilled : List PData → Type 0
IsFilled ps = (not (is_nil ps) && all_of (λ p. not (is_nil p.replicas)) ps) ≡ true

-- Of two filled plans the check accepts exactly those that are valid and fit together.
written_iff :
    (ns bs : List PData)
    → IsFilled ns
    → IsFilled bs
    → validate_plan (write_plan ns) (write_plan bs) true false ≡ ok true
    → IsValid ns × IsWithin ns bs true false
written_iff ns bs fn fb h =
    let (ms, cs, rm, rc, iff) =
      validate_plan_iff (write_plan ns) (write_plan bs) true false
        ((read_plan-write_plan ns).1 ∙ ap ok fn) ((read_plan-write_plan bs).1 ∙ ap ok fb) in
    let same_new : ms ≡ ns = cc (sym rm ∙ (read_plan-write_plan ns).0) in
    let same_base : cs ≡ bs = cc (sym rc ∙ (read_plan-write_plan bs).0) in
    let (v, w, x) = iff.0 h in
    (
      subst IsValid same_new v,
      subst (λ q. IsWithin q bs true false) same_new
          (subst (λ q. IsWithin ms q true false) same_base x),
    )

-- A plan is only sent if the user asked for it.
process_sent :
    (session : Session) (a : Assignment) (plan : Json)
    → process_assignment session a false ≡ sent plan
    → (should_execute session ≡ true) × (plan ≡ write_plan (plan_of a))
unfolding process_assignment execute_plan
process_sent session a plan h = elim (Bool-cases (should_execute session)) [
  | inr e ↦ let k = rw (e, process_assignment) at h in cc k
  | inl e ↦ elim (Bool-cases (session.execute_plan (write_plan (plan_of a)) false)) [
    | inr f ↦ let k = rw (e, f, process_assignment) at h in cc k
    | inl f ↦ (e, let k = rw (e, f, process_assignment) at h in cc k)
  ]
]

-- The steps of `propose`, from its end.
last_step :
    (session : Session) (a : Assignment) (plan : Json)
    → ◌≡◌ {A = Result Finish}
        (ok (if is_nil a then idle else process_assignment session a false))
        (ok (sent plan))
    → (should_execute session ≡ true) × (plan ≡ write_plan (plan_of a))
last_step session a plan h = elim (Bool-cases (is_nil a)) [
  | inl e ↦ let k = rw e at h in cc k
  | inr e ↦ process_sent session a plan (let k = rw e at h in cc k)
]

checked :
    (good : Bool) (next : Result Finish) (plan : Json)
    → elim good [ false ↦ ok exited | true ↦ next ] ≡ ok (sent plan)
    → (good ≡ true) × (next ≡ ok (sent plan))
checked false next plan h = cc h
checked true next plan h = (refl, h)

-- The option --apply, and a confirmation or the option --no-confirm.
should_execute_lem :
    (session : Session)
    → should_execute session ≡ true
    → (session.apply ≡ true) × ((session.no_confirm ≡ true) ⊎ (session.confirmed ≡ true))
unfolding should_execute
should_execute_lem session h = (ground arith, ground arith)

-- What is known of a plan that has been sent.
pub record IsSent (session : Session) (base : Assignment) (c : Topology)
    (max_movements max_leader_changes : ℕ) (limit : Option ℕ) (plan : Json) : Type 0 where
  pub applied : session.apply ≡ true
  pub sure : (session.no_confirm ≡ true) ⊎ (session.confirmed ≡ true)
  pub valid : IsValid (plan_of (assignment c))
  pub within : IsWithin (plan_of (assignment c)) (plan_of base) true false
  pub reduced : Assignment
  pub is_reduced :
      IsReduced base (assignment c) (size_of c) max_movements max_leader_changes limit reduced
  pub written : plan ≡ write_plan (plan_of reduced)

-- The last step of the commands replace, revoke leadership, rebalance and, without forced progress,
-- decommission sends a plan only with the option --apply and with a confirmation or the option
-- --no-confirm. The whole new assignment is then valid and keeps to the original one, in its
-- partitions and replication factors, and the plan is a reduction of it within the limits given. The
-- original assignment is a dictionary with its keys in the new one, and in both each partition has a
-- replica.
pub propose-IsSent :
    (session : Session) (base : Assignment) (c : Topology)
    (max_partition_movements max_leader_changes : ℤ) (max_movement_size : Option ℤ) (plan : Json)
    → IsDict base
    → Each (λ e. (v : List ℕ) × (lookup e.0 (assignment c) ≡ some v)) base
    → IsFilled (plan_of (assignment c))
    → IsFilled (plan_of base)
    → propose session base c max_partition_movements max_leader_changes max_movement_size false
      ≡ ok (sent plan)
    → IsSent session base c
        (pos_part max_partition_movements)
        (pos_part max_leader_changes)
        (size_limit max_movement_size)
        plan
unfolding propose
propose-IsSent session base c m l size plan d found fn fb h =
    let (good, e, after) =
      >>=-eq-ok
        (validate_plan (write_plan (plan_of (assignment c))) (write_plan (plan_of base)) true false)
        _ h in
    let (fine, rest) = checked good _ plan after in
    let (reduced, r, last) = >>=-eq-ok (get_reduced_assignment base c m l size false) _ rest in
    let (v, w) = written_iff (plan_of (assignment c)) (plan_of base) fn fb (e ∙ ap ok fine) in
    let Good =
      IsReduced base (assignment c) (size_of c) (pos_part m) (pos_part l) (size_limit size) in
    let (asked, written) = last_step session reduced plan last in
    record {
      applied = (should_execute_lem session asked).0;
      sure = (should_execute_lem session asked).1;
      valid = v;
      within = w;
      reduced = reduced;
      is_reduced =
          subst (Returns Good) r (get_reduced_assignment-IsReduced base c m l size d found);
      written = written;
    }
