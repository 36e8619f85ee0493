-- ===== src/Storage/Capacity/Resolve.antt =====
-- internal/storage/capacity.go: resolveAllocationSurface and ResolveOperationPlan.
use ephemeral_action_runner.Shared.{
  ℕ, ◌+◌, ◌-◌, Str, str_eq, str_lt, is_empty, Bool, false, not, ◌&&◌, ◌||◌, ltb, List, [], ◌∷◌,
  ◌++◌, Option, none, some, keep, if◌then◌else◌, Result, ok, err, ◌>>=◌, ◌>>◌,
}
use ephemeral_action_runner.Shared.Sorting.{sort}
use ephemeral_action_runner.Storage.Capacity.Types.{
  Surface, CapacityDomain, Allocation, OperationPhase, OperationPlan, ResolvedAllocation,
  DomainRequirement, ResolvedOperationPlan, CapacityError, max_u64,
}
use ephemeral_action_runner.Storage.Capacity.Topology.{has_domain, normalize_capacity_topology}
use ephemeral_action_runner.Storage.Capacity.Plan.{normalize_operation_plan}

unfoldable pub surface_of : Str → List Surface → Option Surface
surface_of id [] = none
surface_of id (s ∷ ss) = let rest = surface_of id ss in if str_eq s.id id then some s else rest

-- `byRole`, where a surface without a role does not stand.
abbrev of_role : Str → List Surface → List Surface
of_role role = keep (λ s. not (is_empty s.role) && str_eq s.role role)

only_match : List Surface → Result CapacityError Surface
only_match [] = err CapacityError.unknown_role
only_match (s ∷ []) = ok s
only_match (s ∷ t ∷ ss) = err CapacityError.ambiguous_role

bound_surface : Allocation → Option Surface → Result CapacityError Surface
bound_surface a none = err CapacityError.unknown_surface
bound_surface a (some s) =
    if not (is_empty a.role) && (not (is_empty s.role) && not (str_eq a.role s.role))
    then err CapacityError.role_mismatch
    else ok s

unfoldable pub resolve_allocation_surface : Allocation → List Surface → Result CapacityError Surface
unfolding surface_of only_match bound_surface
resolve_allocation_surface a surfaces =
    if not (is_empty a.surface_id)
    then bound_surface a (surface_of a.surface_id surfaces)
    else only_match (of_role a.role surfaces)

-- A map from capacity domains to bytes.
abbrev pub Usage : Type 0
Usage = List (Str × ℕ)

-- The bytes of a domain, 0 if it has none.
unfoldable pub used : Str → Usage → ℕ
used d [] = 0
used d (u ∷ us) = let rest = used d us in if str_eq u.0 d then u.1 else rest

unfoldable pub put : Str → ℕ → Usage → Usage
put d n [] = (d, n) ∷ []
put d n (u ∷ us) = let rest = put d n us in if str_eq u.0 d then (d, n) ∷ us else u ∷ rest

abbrev pub is_used : Str → Usage → Bool
is_used d [] = false
is_used d (u ∷ us) = str_eq u.0 d || is_used d us

unfoldable pub resolved_as : Str → Str → Allocation → Surface → ResolvedAllocation
resolved_as operation phase a s = record {
  operation_id = operation;
  phase_id = phase;
  allocation_id = a.id;
  role = (if is_empty a.role then s.role else a.role);
  surface_id = s.id;
  domain_id = s.domain_id;
  bytes = a.bytes;
}

-- The bytes of a phase with those of one more allocation.
unfoldable pub charge : Str → ℕ → Usage → Result CapacityError Usage
unfolding used put
charge d n us =
    if ltb (max_u64 - used d us) n
    then err CapacityError.phase_overflow
    else ok (put d (used d us + n) us)

-- The larger of two peaks of a domain, and that for each domain of a phase.
unfoldable pub raise_peak : Str × ℕ → Usage → Usage
unfolding used put
raise_peak u peaks =
    if not (is_used u.0 peaks) || ltb (used u.0 peaks) u.1 then put u.0 u.1 peaks else peaks

unfoldable pub raise_peaks : Usage → Usage → Usage
unfolding raise_peak
raise_peaks [] peaks = peaks
raise_peaks (u ∷ us) peaks = raise_peaks us (raise_peak u peaks)

module _ (operation : Str) (surfaces : List Surface) (domains : List CapacityDomain) where
  unfoldable pub known_domain : Surface → Result CapacityError (Unit {0})
  unfolding has_domain
  known_domain s =
      if has_domain s.domain_id domains then ok tt else err CapacityError.unknown_domain

  -- The loop over the allocations of a phase.
  unfoldable pub resolve_allocations :
      Str → List Allocation → Usage → Result CapacityError (List ResolvedAllocation × Usage)
  unfolding resolve_allocation_surface known_domain charge resolved_as
  resolve_allocations phase [] us = ok ([], us)
  resolve_allocations phase (a ∷ as') us = resolve_allocation_surface a surfaces >>= λ s.
      known_domain s
      >> (charge s.domain_id a.bytes us >>= λ us'. resolve_allocations phase as' us' >>= λ r.
          ok (resolved_as operation phase a s ∷ r.0, r.1))

  -- The loop over the phases.
  unfoldable pub resolve_phases :
      List OperationPhase → Usage → Result CapacityError (List ResolvedAllocation × Usage)
  unfolding resolve_allocations raise_peaks
  resolve_phases [] peaks = ok ([], peaks)
  resolve_phases (p ∷ ps) peaks = resolve_allocations p.id p.allocations [] >>= λ r.
      resolve_phases ps (raise_peaks r.1 peaks) >>= λ rest. ok (r.0 ++ rest.0, rest.1)

-- The loop over the peaks.
unfoldable pub requirements_of : Str → ℕ → Usage → Result CapacityError (List DomainRequirement)
requirements_of operation minimum [] = ok []
requirements_of operation minimum (u ∷ us) =
    if ltb (max_u64 - minimum) u.1
    then err CapacityError.required_overflow
    else (requirements_of operation minimum us >>= λ rest. ok (
        record {
          operation_id = operation;
          domain_id = u.0;
          peak_bytes = u.1;
          minimum_free_bytes = minimum;
          required_available_bytes = u.1 + minimum;
        }
        ∷ rest))

abbrev pub resolved_before : ResolvedAllocation → ResolvedAllocation → Bool
resolved_before a b =
    if not (str_eq a.phase_id b.phase_id)
    then str_lt a.phase_id b.phase_id
    else str_lt a.allocation_id b.allocation_id

abbrev pub requirement_before : DomainRequirement → DomainRequirement → Bool
requirement_before a b = str_lt a.domain_id b.domain_id

-- The plan, with its surfaces and domains normalized.
unfoldable pub resolve_normalized :
    OperationPlan → List Surface → List CapacityDomain → Result CapacityError ResolvedOperationPlan
unfolding resolve_phases requirements_of sort
resolve_normalized plan surfaces domains =
    resolve_phases plan.id surfaces domains plan.phases [] >>= λ r.
    requirements_of plan.id plan.minimum_free_bytes r.1 >>= λ requirements. ok (record {
      plan = plan;
      allocations = sort resolved_before r.0;
      requirements = sort requirement_before requirements;
    })

unfoldable pub resolve_operation_plan :
    OperationPlan → List Surface → List CapacityDomain → Result CapacityError ResolvedOperationPlan
unfolding normalize_capacity_topology normalize_operation_plan resolve_normalized
resolve_operation_plan plan surfaces domains = normalize_capacity_topology surfaces domains >>= λ t.
    normalize_operation_plan plan >>= λ p. resolve_normalized p t.0 t.1
