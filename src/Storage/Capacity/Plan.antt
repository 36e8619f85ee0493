-- ===== src/Storage/Capacity/Plan.antt =====
-- internal/storage/capacity.go: normalizeOperationPlan.
use ephemeral_action_runner.Shared.{
  ℕ, Str, str_lt, is_empty, Bool, true, false, ◌&&◌, ◌==◌, List, [], ◌∷◌, map, if◌then◌else◌,
  Result, ok, err, ◌>>=◌, ◌>>◌,
}
use ephemeral_action_runner.Shared.Sorting.{sort}
use ephemeral_action_runner.Storage.Capacity.Types.{
  Allocation, OperationPhase, OperationPlan, CapacityError, default_minimum_free_bytes,
}
use ephemeral_action_runner.Storage.Capacity.Topology.{blank, seen}

-- The allocations of a phase, with the identifiers that were seen before and those seen after.
unfoldable pub check_allocations : List Allocation → List Str → Result CapacityError (List Str)
unfolding seen
check_allocations [] ids = ok ids
check_allocations (a ∷ as') ids =
    let rest = check_allocations as' (a.id ∷ ids) in
    if blank a.id
    then err CapacityError.blank_allocation
    else if seen a.id ids
    then err CapacityError.duplicate_allocation
    else if is_empty a.role && blank a.surface_id
    then err CapacityError.unbound_allocation
    else rest

unfoldable pub check_phase : OperationPhase → List Str → Result CapacityError (Unit {0})
unfolding seen
check_phase p phases =
    if blank p.id
    then err CapacityError.blank_phase
    else if seen p.id phases
    then err CapacityError.duplicate_phase
    else ok tt

unfoldable pub check_phases :
    List OperationPhase → List Str → List Str → Result CapacityError (Unit {0})
unfolding check_phase check_allocations
check_phases [] phases ids = ok tt
check_phases (p ∷ ps) phases ids =
    check_phase p phases
    >> (check_allocations p.allocations ids >>= λ ids'. check_phases ps (p.id ∷ phases) ids')

abbrev pub allocation_before : Allocation → Allocation → Bool
allocation_before a b = str_lt a.id b.id

abbrev pub phase_before : OperationPhase → OperationPhase → Bool
phase_before a b = str_lt a.id b.id

unfoldable pub sorted_phase : OperationPhase → OperationPhase
unfolding sort
sorted_phase p = record p { allocations = sort allocation_before p.allocations }

abbrev no_phases : List OperationPhase → Bool
no_phases [] = true
no_phases (p ∷ ps) = false

unfoldable pub minimum_of : ℕ → ℕ
minimum_of n = if n == 0 then default_minimum_free_bytes else n

unfoldable pub normalize_operation_plan : OperationPlan → Result CapacityError OperationPlan
unfolding check_phases sorted_phase sort minimum_of
normalize_operation_plan plan =
    if blank plan.id
    then err CapacityError.blank_plan
    else if no_phases plan.phases
    then err CapacityError.no_phases
    else check_phases plan.phases [] []
      >> ok (record plan {
        minimum_free_bytes = minimum_of plan.minimum_free_bytes;
        phases = sort phase_before (map sorted_phase plan.phases);
      })
