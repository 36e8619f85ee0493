-- ===== src/Storage/Capacity/Check.antt =====
-- internal/storage/capacity.go: the checks of a requirement against the observed free bytes.
use ephemeral_action_runner.Shared.{
  ℕ, ◌+◌, ◌-◌, Str, codes, str_eq, str_lt, is_empty, trim_space, Bool, not, ◌&&◌, ltb, List, [],
  ◌∷◌, ◌++◌, Option, none, some, if◌then◌else◌, Result, ok, err, ◌>>=◌, ◌>>◌,
}
use ephemeral_action_runner.Shared.Sorting.{sort}
use ephemeral_action_runner.Storage.Capacity.Types.{
  Capacity, Surface, CapacityDomain, OperationPlan, DomainRequirement, Requirement, CapacityStatus,
  CapacityCheck, OperationEvaluation, CapacityError, max_u64,
}
use ephemeral_action_runner.Storage.Capacity.Topology.{
  blank, seen, check_surface, normalize_capacity_topology,
}
use ephemeral_action_runner.Storage.Capacity.Plan.{minimum_of}
use ephemeral_action_runner.Storage.Capacity.Resolve.{resolve_operation_plan, surface_of}

-- More bytes available than there are.
unfoldable pub is_inconsistent : Capacity → Bool
is_inconsistent c = ltb 0 c.total_bytes && ltb c.total_bytes c.available_bytes

unfoldable pub unavailable_reason : CapacityDomain → Str
unavailable_reason d =
    let given = trim_space d.capacity_unavailable_reason in
    if is_empty given then codes "capacity domain observation is unavailable" else given

-- The check before its status is known.
unfoldable pub open_check :
    CapacityDomain → DomainRequirement → Str → CapacityStatus → ℕ → Str → CapacityCheck
open_check d q provider status deficit reason = record {
  requirement = record {
    id = q.operation_id ++ codes "-" ++ q.domain_id;
    provider = provider;
    surface_id = q.domain_id;
    peak_bytes = q.peak_bytes;
    minimum_free_bytes = q.minimum_free_bytes;
  };
  domain_requirement = some q;
  capacity = d.capacity;
  status = status;
  required_available_bytes = q.required_available_bytes;
  deficit_bytes = deficit;
  reason = reason;
}

unfoldable pub evaluate_domain_capacity :
    CapacityDomain → DomainRequirement → Str → Result CapacityError CapacityCheck
unfolding is_inconsistent unavailable_reason open_check
evaluate_domain_capacity d q provider =
    if is_inconsistent d.capacity
    then err CapacityError.inconsistent_capacity
    else if not d.capacity.known
    then ok (open_check d q provider CapacityStatus.unknown 0 (unavailable_reason d))
    else if ltb d.capacity.available_bytes q.required_available_bytes
    then ok (
        open_check d q provider CapacityStatus.insufficient
          (q.required_available_bytes - d.capacity.available_bytes)
          (codes
            "available domain capacity is below phase peak plus one minimum free-space reserve"))
    else ok (
        open_check d q provider CapacityStatus.ready 0 (
          codes
            "available domain capacity satisfies phase peak plus one minimum free-space reserve"))

unfoldable pub domain_of : Str → List CapacityDomain → Option CapacityDomain
domain_of id [] = none
domain_of id (d ∷ ds) = let rest = domain_of id ds in if str_eq d.id id then some d else rest

-- A requirement against its domain, if there is one.
unfoldable pub evaluate_in :
    Option CapacityDomain → DomainRequirement → Str → Result CapacityError CapacityCheck
unfolding evaluate_domain_capacity
evaluate_in none q provider = err CapacityError.unknown_domain
evaluate_in (some d) q provider = evaluate_domain_capacity d q provider

-- The loop over the requirements.
unfoldable pub evaluate_requirements :
    List CapacityDomain → Str → List DomainRequirement → Result CapacityError (List CapacityCheck)
unfolding evaluate_in domain_of
evaluate_requirements domains provider [] = ok []
evaluate_requirements domains provider (q ∷ qs) =
    evaluate_in (domain_of q.domain_id domains) q provider >>= λ check.
    evaluate_requirements domains provider qs >>= λ rest. ok (check ∷ rest)

unfoldable pub evaluate_operation_plan :
    OperationPlan → List Surface → List CapacityDomain → Result CapacityError OperationEvaluation
unfolding resolve_operation_plan normalize_capacity_topology evaluate_requirements
evaluate_operation_plan plan surfaces domains =
    resolve_operation_plan plan surfaces domains >>= λ resolved.
    normalize_capacity_topology surfaces domains >>= λ t.
    evaluate_requirements t.1 plan.provider resolved.requirements >>= λ checks.
    ok (record { resolved = resolved; capacity_checks = checks })

unfoldable pub surface_check : Surface → Requirement → CapacityStatus → ℕ → Str → CapacityCheck
surface_check s q status deficit reason = record {
  requirement = q;
  domain_requirement = none;
  capacity = s.capacity;
  status = status;
  required_available_bytes = q.peak_bytes + q.minimum_free_bytes;
  deficit_bytes = deficit;
  reason = reason;
}

-- The rest of the check of one surface, with the reserve of the requirement filled in.
unfoldable pub evaluate_surface : Surface → Requirement → Result CapacityError CapacityCheck
unfolding is_inconsistent surface_check
evaluate_surface s q =
    let required = q.peak_bytes + q.minimum_free_bytes in
    if ltb (max_u64 - q.minimum_free_bytes) q.peak_bytes
    then err CapacityError.required_overflow
    else if not s.capacity.known
    then ok
        (surface_check s q CapacityStatus.unknown 0 (codes "capacity observation is unavailable"))
    else if is_inconsistent s.capacity
    then err CapacityError.inconsistent_capacity
    else if ltb s.capacity.available_bytes required
    then ok (
        surface_check s q CapacityStatus.insufficient (required - s.capacity.available_bytes)
          (codes "available capacity is below peak bytes plus minimum free bytes"))
    else ok (
        surface_check s q CapacityStatus.ready 0
          (codes "available capacity satisfies peak bytes plus minimum free bytes"))

unfoldable pub evaluate_capacity : Surface → Requirement → Result CapacityError CapacityCheck
unfolding evaluate_surface minimum_of
evaluate_capacity s q =
    if blank s.id
    then err CapacityError.blank_surface
    else if blank q.id
    then err CapacityError.blank_requirement
    else if not (str_eq q.surface_id s.id)
    then err CapacityError.other_surface
    else evaluate_surface s (record q { minimum_free_bytes = minimum_of q.minimum_free_bytes })

unfoldable pub check_surfaces : List Surface → List Str → Result CapacityError (Unit {0})
unfolding check_surface
check_surfaces [] ids = ok tt
check_surfaces (s ∷ ss) ids = check_surface s ids >> check_surfaces ss (s.id ∷ ids)

-- A requirement against its surface, if there is one.
unfoldable pub evaluate_on : Option Surface → Requirement → Result CapacityError CapacityCheck
unfolding evaluate_capacity
evaluate_on none q = err CapacityError.unknown_surface
evaluate_on (some s) q = evaluate_capacity s q

unfoldable pub preflight_checks :
    List Surface → List Requirement → List Str → Result CapacityError (List CapacityCheck)
unfolding seen evaluate_on surface_of
preflight_checks surfaces [] ids = ok []
preflight_checks surfaces (q ∷ qs) ids =
    if seen q.id ids
    then err CapacityError.duplicate_requirement
    else (evaluate_on (surface_of q.surface_id surfaces) q >>= λ check.
        preflight_checks surfaces qs (q.id ∷ ids) >>= λ rest. ok (check ∷ rest))

unfoldable pub capacity_preflight :
    List Surface → List Requirement → Result CapacityError (List CapacityCheck)
unfolding check_surfaces preflight_checks sort
capacity_preflight surfaces requirements =
    check_surfaces surfaces []
    >> (preflight_checks surfaces requirements [] >>= λ checks.
        ok (sort (λ a b. str_lt a.requirement.id b.requirement.id) checks))
