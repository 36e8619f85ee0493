-- ===== src/Storage/Capacity/Types.antt =====
-- internal/storage/types.go: surfaces, capacity domains, operation plans and capacity checks.
use ephemeral_action_runner.Shared.{ℕ, ◌^◌, ◌-◌, Str, Bool, Option, List}

pub record Capacity : Type 0 where
  pub known : Bool
  pub available_bytes : ℕ
  pub total_bytes : ℕ
  pub observed_at : ℕ

pub record Surface : Type 0 where
  pub id : Str
  pub provider : Str
  pub role : Str
  pub kind : Str
  pub domain_id : Str
  pub path : Str
  pub location : Str
  pub classification : Str
  pub provenance : Str
  pub sparse : Bool
  pub virtual_maximum_bytes : ℕ
  pub allocated_bytes : ℕ
  pub confidence : Str
  pub admission_authoritative : Bool
  pub advisory : Bool
  pub capacity : Capacity

pub record CapacityDomain : Type 0 where
  pub id : Str
  pub kind : Str
  pub identity : Str
  pub path : Str
  pub provenance : Str
  pub confidence : Str
  pub capacity_unavailable_reason : Str
  pub capacity : Capacity

pub record Allocation : Type 0 where
  pub id : Str
  pub role : Str
  pub surface_id : Str
  pub bytes : ℕ

pub record OperationPhase : Type 0 where
  pub id : Str
  pub allocations : List Allocation

pub record OperationPlan : Type 0 where
  pub id : Str
  pub provider : Str
  pub minimum_free_bytes : ℕ
  pub phases : List OperationPhase

pub record ResolvedAllocation : Type 0 where
  pub operation_id : Str
  pub phase_id : Str
  pub allocation_id : Str
  pub role : Str
  pub surface_id : Str
  pub domain_id : Str
  pub bytes : ℕ

pub record DomainRequirement : Type 0 where
  pub operation_id : Str
  pub domain_id : Str
  pub peak_bytes : ℕ
  pub minimum_free_bytes : ℕ
  pub required_available_bytes : ℕ

pub record ResolvedOperationPlan : Type 0 where
  pub plan : OperationPlan
  pub allocations : List ResolvedAllocation
  pub requirements : List DomainRequirement

pub record Requirement : Type 0 where
  pub id : Str
  pub provider : Str
  pub surface_id : Str
  pub peak_bytes : ℕ
  pub minimum_free_bytes : ℕ

pub data CapacityStatus : Type 0 where
  ready insufficient unknown : CapacityStatus

pub record CapacityCheck : Type 0 where
  pub requirement : Requirement
  pub domain_requirement : Option DomainRequirement
  pub capacity : Capacity
  pub status : CapacityStatus
  pub required_available_bytes : ℕ
  pub deficit_bytes : ℕ
  pub reason : Str

pub record OperationEvaluation : Type 0 where
  pub resolved : ResolvedOperationPlan
  pub capacity_checks : List CapacityCheck

-- The errors, without their texts.
pub data CapacityError : Type 0 where
  blank_domain invalid_domain_kind duplicate_domain duplicate_identity : CapacityError
  blank_surface invalid_surface_kind duplicate_surface unknown_domain : CapacityError
  blank_plan no_phases blank_phase duplicate_phase blank_allocation : CapacityError
  duplicate_allocation unbound_allocation unknown_surface role_mismatch : CapacityError
  unknown_role ambiguous_role phase_overflow required_overflow : CapacityError
  inconsistent_capacity blank_requirement other_surface duplicate_requirement : CapacityError

abbrev pub max_u64 : ℕ
max_u64 = 2 ^ 64 - 1

abbrev pub default_minimum_free_bytes : ℕ
default_minimum_free_bytes = 2 ^ 30
