-- ===== src/Storage/Capacity/Fits.antt =====
-- When an operation fits.
use ephemeral_action_runner.Shared.{
  ◌+◌, ◌≤◌, Str, List, [], ◌∷◌, some, true, ok, >>=-eq-ok, ◌≡◌, subst, arith, All, Option-cases,
  inl, inr,
}
use ephemeral_action_runner.Storage.Capacity.Types.{
  Surface, CapacityDomain, OperationPlan, DomainRequirement, CapacityStatus, CapacityCheck,
  OperationEvaluation, max_u64,
}
use ephemeral_action_runner.Storage.Capacity.Topology.{normalize_capacity_topology}
use ephemeral_action_runner.Storage.Capacity.Resolve.{resolve_operation_plan}
use ephemeral_action_runner.Storage.Capacity.Check.{
  evaluate_domain_capacity, domain_of, evaluate_in, evaluate_requirements, evaluate_operation_plan,
}
use ephemeral_action_runner.Storage.Capacity.Peaks.{peak_over}
use ephemeral_action_runner.Storage.Capacity.Requirements.{
  IsRequirement, IsResolved, resolve_operation_plan-IsResolved,
}
use ephemeral_action_runner.Storage.Capacity.Verdict.{evaluate_domain_capacity-IsVerdict}

abbrev pub IsReady : CapacityCheck → Type 0
IsReady check = check.status ≡ CapacityStatus.ready

-- The domain of a requirement is known to have its bytes.
record IsMet (domains : List CapacityDomain) (q : DomainRequirement) : Type 0 where
  domain : CapacityDomain
  found : domain_of q.domain_id domains ≡ some domain
  known : domain.capacity.known ≡ true
  room : q.required_available_bytes ≤ domain.capacity.available_bytes

evaluate_in-IsMet :
    (domains : List CapacityDomain) (q : DomainRequirement) (provider : Str) {check : CapacityCheck}
    → evaluate_in (domain_of q.domain_id domains) q provider ≡ ok check
    → IsReady check
    → IsMet domains q
unfolding evaluate_in
evaluate_in-IsMet domains q provider {check} h ready =
    elim (Option-cases (domain_of q.domain_id domains)) [
      | inl e ↦ absurd (ground (arith, h, e))
      | inr (d, e) ↦
          let it : evaluate_domain_capacity d q provider ≡ ok check = rw (e, evaluate_in) at h in
          let v = evaluate_domain_capacity-IsVerdict d q provider it in
          let (known, room) = v.ready ready in
          record { domain = d; found = e; known = known; room = room }
    ]

evaluate_requirements-IsMet :
    (domains : List CapacityDomain) (provider : Str) (qs : List DomainRequirement)
    {checks : List CapacityCheck}
    → evaluate_requirements domains provider qs ≡ ok checks
    → All IsReady checks
    → All (IsMet domains) qs
unfolding evaluate_requirements
evaluate_requirements-IsMet domains provider [] h all = tt
evaluate_requirements-IsMet domains provider (q ∷ qs) {checks} h all =
    let (check, one, h₁) = >>=-eq-ok (evaluate_in (domain_of q.domain_id domains) q provider) _ h in
    let (rest, more, h₂) = >>=-eq-ok (evaluate_requirements domains provider qs) _ h₁ in
    let it : checks ≡ check ∷ rest = ground (arith, h₂) in
    let both : All IsReady (check ∷ rest) = subst (All IsReady) it all in
    (
      evaluate_in-IsMet domains q provider one both.0,
      evaluate_requirements-IsMet domains provider qs more both.1,
    )

-- The most that one phase takes of the domain of a requirement, and the reserve, are available there.
pub record Fits (surfaces : List Surface) (domains : List CapacityDomain) (plan : OperationPlan)
    (q : DomainRequirement) : Type 0 where
  pub domain : CapacityDomain
  pub found : domain_of q.domain_id domains ≡ some domain
  pub known : domain.capacity.known ≡ true
  pub room :
      peak_over surfaces q.domain_id plan.phases + plan.minimum_free_bytes
      ≤ domain.capacity.available_bytes

All-Fits :
    (surfaces : List Surface) (domains : List CapacityDomain) (plan : OperationPlan)
    (qs : List DomainRequirement)
    → All (IsRequirement surfaces plan) qs
    → All (IsMet domains) qs
    → All (Fits surfaces domains plan) qs
All-Fits surfaces domains plan [] rs ms = tt
All-Fits surfaces domains plan (q ∷ qs) rs ms =
    let r = rs.0 in
    let m = ms.0 in
    (
      record {
        domain = m.domain;
        found = m.found;
        known = m.known;
        room = omega (arith, r.peak, r.reserve, r.sum, m.room);
      },
      All-Fits surfaces domains plan qs rs.1 ms.1,
    )

-- If the evaluation of a plan finds every check ready, then each domain that a phase of the
-- normalized plan takes bytes of has a requirement, and has a known capacity that holds the most
-- that one phase takes of it and the reserve besides, if the given reserve fits an unsigned 64-bit
-- integer.
pub evaluate_operation_plan-Fits :
    (plan : OperationPlan) (surfaces : List Surface) (domains : List CapacityDomain)
    {t : List Surface × List CapacityDomain} {e : OperationEvaluation}
    → plan.minimum_free_bytes ≤ max_u64
    → normalize_capacity_topology surfaces domains ≡ ok t
    → evaluate_operation_plan plan surfaces domains ≡ ok e
    → All IsReady e.capacity_checks
    → IsResolved t.0 e.resolved × All (Fits t.0 t.1 e.resolved.plan) e.resolved.requirements
unfolding evaluate_operation_plan
evaluate_operation_plan-Fits plan surfaces domains {t} {e} small bound h ready =
    let (r, resolved, h₁) = >>=-eq-ok (resolve_operation_plan plan surfaces domains) _ h in
    let (t', bound', h₂) = >>=-eq-ok (normalize_capacity_topology surfaces domains) _ h₁ in
    let (checks, done, h₃) =
      >>=-eq-ok (evaluate_requirements t'.1 plan.provider r.requirements) _ h₂ in
    let same_t : t' ≡ t = ground (arith, bound, bound') in
    let same_r : r ≡ e.resolved = ground (arith, h₃) in
    let same_c : e.capacity_checks ≡ checks = ground (arith, h₃) in
    let is_resolved =
      resolve_operation_plan-IsResolved plan surfaces domains small bound resolved in
    let met =
      evaluate_requirements-IsMet t'.1 plan.provider r.requirements done
        (subst (All IsReady) same_c ready) in
    let met' : All (IsMet t.1) r.requirements =
      subst (λ x. All (IsMet x.1) r.requirements) same_t met in
    subst (λ x. IsResolved t.0 x × All (Fits t.0 t.1 x.plan) x.requirements) same_r
      (is_resolved, All-Fits t.0 t.1 r.plan r.requirements is_resolved.each met')
