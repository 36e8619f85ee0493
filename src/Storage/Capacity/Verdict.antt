-- ===== src/Storage/Capacity/Verdict.antt =====
-- What the status of a capacity check says.
use ephemeral_action_runner.Shared.{ℕ, ◌+◌, ◌≤◌, ◌<◌, Str, true, false, ok, ◌≡◌, arith}
use ephemeral_action_runner.Storage.Capacity.Types.{
  Capacity, Surface, CapacityDomain, DomainRequirement, Requirement, CapacityStatus, CapacityCheck,
  max_u64,
}
use ephemeral_action_runner.Storage.Capacity.Plan.{minimum_of}
use ephemeral_action_runner.Storage.Capacity.Requirements.{minimum_of-small}
use ephemeral_action_runner.Storage.Capacity.Check.{
  evaluate_domain_capacity, open_check, evaluate_surface, surface_check, evaluate_capacity,
}

-- The status is `ready` exactly if the capacity is known and as large as required, and `unknown`
-- exactly if it is not known; the deficit is what is missing.
pub record IsVerdict (c : Capacity) (required : ℕ) (check : CapacityCheck) : Type 0 where
  pub ready :
      check.status ≡ CapacityStatus.ready → (c.known ≡ true) × (required ≤ c.available_bytes)
  pub is_ready : c.known ≡ true → required ≤ c.available_bytes → check.status ≡ CapacityStatus.ready
  pub unknown : check.status ≡ CapacityStatus.unknown → c.known ≡ false
  pub is_unknown : c.known ≡ false → check.status ≡ CapacityStatus.unknown
  pub missing :
      check.status ≡ CapacityStatus.insufficient
      → (c.available_bytes < required) × (c.available_bytes + check.deficit_bytes ≡ required)
  pub asked : check.required_available_bytes ≡ required

pub evaluate_domain_capacity-IsVerdict :
    (d : CapacityDomain) (q : DomainRequirement) (provider : Str) {check : CapacityCheck}
    → evaluate_domain_capacity d q provider ≡ ok check
    → IsVerdict d.capacity q.required_available_bytes check
unfolding evaluate_domain_capacity open_check
evaluate_domain_capacity-IsVerdict d q provider h = record {
  ready = λ e. (ground (arith, h, e), ground (arith, h, e));
  is_ready = λ e l. ground (arith, h, e, l);
  unknown = λ e. ground (arith, h, e);
  is_unknown = λ e. ground (arith, h, e);
  missing = λ e. (ground (arith, h, e), ground (arith, h, e));
  asked = ground (arith, h);
}

evaluate_surface-IsVerdict :
    (s : Surface) (q : Requirement) {check : CapacityCheck}
    → evaluate_surface s q ≡ ok check
    → IsVerdict s.capacity (q.peak_bytes + q.minimum_free_bytes) check
unfolding evaluate_surface surface_check
evaluate_surface-IsVerdict s q h = record {
  ready = λ e. (ground (arith, h, e), ground (arith, h, e));
  is_ready = λ e l. ground (arith, h, e, l);
  unknown = λ e. ground (arith, h, e);
  is_unknown = λ e. ground (arith, h, e);
  missing = λ e. (ground (arith, h, e), ground (arith, h, e));
  asked = ground (arith, h);
}

evaluate_surface-fits :
    (s : Surface) (q : Requirement) {check : CapacityCheck}
    → q.minimum_free_bytes ≤ max_u64
    → evaluate_surface s q ≡ ok check
    → q.peak_bytes + q.minimum_free_bytes ≤ max_u64
unfolding evaluate_surface
evaluate_surface-fits s q small h = ground (arith, h, small)

-- A check of a requirement against a surface that comes back with a verdict says `ready` exactly if the
-- surface's capacity is known and as large as the peak and the reserve together, `unknown` exactly if it
-- is not known, and otherwise how many bytes are missing; and that sum, with the default reserve in place
-- of none, fits an unsigned 64-bit integer, if the given reserve does.
pub evaluate_capacity-IsVerdict :
    (s : Surface) (q : Requirement) {check : CapacityCheck}
    → q.minimum_free_bytes ≤ max_u64
    → evaluate_capacity s q ≡ ok check
    → IsVerdict s.capacity (q.peak_bytes + minimum_of q.minimum_free_bytes) check
      × (q.peak_bytes + minimum_of q.minimum_free_bytes ≤ max_u64)
unfolding evaluate_capacity
evaluate_capacity-IsVerdict s q {check} small h =
    let q' = record q { minimum_free_bytes = minimum_of q.minimum_free_bytes } in
    let e : evaluate_surface s q' ≡ ok check = ground (arith, h) in
    (
      evaluate_surface-IsVerdict s q' e,
      evaluate_surface-fits s q' (minimum_of-small q.minimum_free_bytes small) e,
    )
