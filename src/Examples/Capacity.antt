-- ===== src/Examples/Capacity.antt =====
-- An operation with two phases on two surfaces of one domain and one of its own.
use ephemeral_action_runner.Shared.{
  ℕ, ◌+◌, ◌^◌, Str, codes, true, false, List, [], ◌∷◌, map, none, Result, ok, err, ◌≡◌, ◌≤◌, refl,
  arith, All, str_eq, str_lt, is_empty, trim_space,
}
use ephemeral_action_runner.Storage.Capacity.Types.{
  Capacity, Surface, CapacityDomain, OperationPlan, DomainRequirement, ResolvedOperationPlan,
  Requirement, CapacityStatus, CapacityCheck, OperationEvaluation, CapacityError, max_u64,
}
use ephemeral_action_runner.Storage.Capacity.Topology.{normalize_capacity_topology}
use ephemeral_action_runner.Storage.Capacity.Plan.{minimum_of}
use ephemeral_action_runner.Storage.Capacity.Resolve.{resolve_operation_plan}
use ephemeral_action_runner.Storage.Capacity.Check.{evaluate_operation_plan, evaluate_capacity}
use ephemeral_action_runner.Storage.Capacity.Requirements.{
  IsResolved, resolve_operation_plan-IsResolved,
}
use ephemeral_action_runner.Storage.Capacity.Verdict.{IsVerdict, evaluate_capacity-IsVerdict}
use ephemeral_action_runner.Storage.Capacity.Fits.{IsReady, Fits, evaluate_operation_plan-Fits}

abbrev free : ℕ → Capacity
free n = record { known = true; available_bytes = n; total_bytes = 2 ^ 40; observed_at = 5 }

abbrev surface : Str → Str → Str → ℕ → Surface
surface id role domain n = record {
  id = id;
  provider = codes "";
  role = role;
  kind = codes "host-filesystem";
  domain_id = domain;
  path = codes "/srv";
  location = codes "";
  classification = codes "";
  provenance = codes "";
  sparse = false;
  virtual_maximum_bytes = 0;
  allocated_bytes = 0;
  confidence = codes "";
  admission_authoritative = true;
  advisory = false;
  capacity = free n;
}

abbrev surfaces : List Surface
surfaces =
    surface (codes "s2") (codes "project") (codes "d1") 7
    ∷ surface (codes "s1") (codes "docker-engine") (codes "d1") 7
    ∷ surface (codes "s0") (codes "tart-store") (codes "") (2 ^ 35)
    ∷ []

abbrev domains : List CapacityDomain
domains =
    record {
      id = codes "d1";
      kind = codes "host-filesystem";
      identity = codes "disk";
      path = codes "/srv";
      provenance = codes "";
      confidence = codes "";
      capacity_unavailable_reason = codes "";
      capacity = free (2 ^ 30 + 700);
    }
    ∷ []

abbrev plan : OperationPlan
plan = record {
  id = codes "op";
  provider = codes "wsl";
  minimum_free_bytes = 0;
  phases =
      record {
        id = codes "p2";
        allocations =
            record { id = codes "a1"; role = codes "project"; surface_id = codes ""; bytes = 300 }
            ∷ record { id = codes "a2"; role = codes ""; surface_id = codes "s1"; bytes = 400 }
            ∷ [];
      }
      ∷ record {
        id = codes "p1";
        allocations =
            record { id = codes "a3"; role = codes "project"; surface_id = codes ""; bytes = 500 }
            ∷ record {
              id = codes "a4";
              role = codes "tart-store";
              surface_id = codes "";
              bytes = 9;
            }
            ∷ [];
      }
      ∷ [];
}

abbrev value_of {ℓ} : {A : Type ℓ} → A → Result CapacityError A → A
value_of a (ok b) = b
value_of a (err e) = a

abbrev bound : List Surface × List CapacityDomain
bound = value_of ([], []) (normalize_capacity_topology surfaces domains)

abbrev nothing : ResolvedOperationPlan
nothing = record { plan = plan; allocations = []; requirements = [] }

abbrev resolved : ResolvedOperationPlan
resolved = value_of nothing (resolve_operation_plan plan surfaces domains)

abbrev evaluation : OperationEvaluation
evaluation =
    value_of (record { resolved = nothing; capacity_checks = [] })
      (evaluate_operation_plan plan surfaces domains)

binds : normalize_capacity_topology surfaces domains ≡ ok bound
unfolding normalize_capacity_topology is_empty trim_space str_eq str_lt
binds = refl

resolves : resolve_operation_plan plan surfaces domains ≡ ok resolved
unfolding resolve_operation_plan is_empty trim_space str_eq str_lt
resolves = refl

evaluates : evaluate_operation_plan plan surfaces domains ≡ ok evaluation
unfolding evaluate_operation_plan is_empty trim_space str_eq str_lt
evaluates = refl

both_ready :
    map (λ (c : CapacityCheck). c.status) evaluation.capacity_checks
    ≡ CapacityStatus.ready ∷ CapacityStatus.ready ∷ []
unfolding evaluate_operation_plan is_empty trim_space str_eq str_lt
both_ready = refl

peaks_taken : map (λ (q : DomainRequirement). q.peak_bytes) resolved.requirements ≡ 700 ∷ 9 ∷ []
unfolding resolve_operation_plan is_empty trim_space str_eq str_lt
peaks_taken = refl

All-IsReady : All IsReady evaluation.capacity_checks
unfolding evaluate_operation_plan is_empty trim_space str_eq str_lt
All-IsReady = (refl, (refl, tt))

resolve_operation_plan-IsResolved_example : IsResolved bound.0 resolved
resolve_operation_plan-IsResolved_example =
    resolve_operation_plan-IsResolved plan surfaces domains (omega arith) binds resolves

evaluate_operation_plan-Fits_example :
    IsResolved bound.0 evaluation.resolved
    × All (Fits bound.0 bound.1 evaluation.resolved.plan) evaluation.resolved.requirements
evaluate_operation_plan-Fits_example =
    evaluate_operation_plan-Fits plan surfaces domains (omega arith) binds evaluates All-IsReady

abbrev small_surface : Surface
small_surface = surface (codes "s1") (codes "project") (codes "") 1000

abbrev requirement : Requirement
requirement = record {
  id = codes "q";
  provider = codes "wsl";
  surface_id = codes "s1";
  peak_bytes = 900;
  minimum_free_bytes = 200;
}

abbrev short_check : CapacityCheck
short_check = record {
  requirement = requirement;
  domain_requirement = none;
  capacity = free 1000;
  status = CapacityStatus.insufficient;
  required_available_bytes = 1100;
  deficit_bytes = 100;
  reason = codes "available capacity is below peak bytes plus minimum free bytes";
}

falls_short : evaluate_capacity small_surface requirement ≡ ok short_check
unfolding evaluate_capacity is_empty trim_space str_eq str_lt
falls_short = refl

evaluate_capacity-IsVerdict_example :
    IsVerdict (free 1000) (900 + minimum_of 200) short_check × (900 + minimum_of 200 ≤ max_u64)
evaluate_capacity-IsVerdict_example =
    evaluate_capacity-IsVerdict small_surface requirement (omega arith) falls_short
