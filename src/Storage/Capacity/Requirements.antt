-- ===== src/Storage/Capacity/Requirements.antt =====
-- What the requirements of a resolved plan say.
use mathlib.Core.Path.{subst₂}
use ephemeral_action_runner.Shared.{
  ℕ, ◌+◌, ◌-◌, ◌≤◌, Str, str_eq, str_eq→≡, str_eq_refl, Bool, true, false, ◌||◌, ltb, List, [], ◌∷◌,
  ok, >>=-eq-ok, inl, inr, ◌≡◌, refl, ap, ◌∙◌, subst, arith, All, Bool-cases,
}
use ephemeral_action_runner.Shared.Sorting.{sort, insert, All-sort}
use ephemeral_action_runner.Storage.Capacity.Types.{
  Surface, CapacityDomain, OperationPlan, DomainRequirement, ResolvedOperationPlan, max_u64,
}
use ephemeral_action_runner.Storage.Capacity.Topology.{normalize_capacity_topology}
use ephemeral_action_runner.Storage.Capacity.Plan.{normalize_operation_plan, minimum_of}
use ephemeral_action_runner.Storage.Capacity.Resolve.{
  Usage, used, is_used, requirements_of, requirement_before, resolve_phases, resolve_normalized,
  resolve_operation_plan,
}
use ephemeral_action_runner.Storage.Capacity.Sums.{Unique}
use ephemeral_action_runner.Storage.Capacity.Peaks.{peak_over, in_phases, resolve_phases-ArePeaks}

-- An entry of the peaks as a requirement.
record IsEntry (operation : Str) (minimum : ℕ) (us : Usage) (q : DomainRequirement) : Type 0 where
  of : q.operation_id ≡ operation
  peak : q.peak_bytes ≡ used q.domain_id us
  there : is_used q.domain_id us ≡ true
  reserve : q.minimum_free_bytes ≡ minimum
  sum : q.required_available_bytes ≡ q.peak_bytes + q.minimum_free_bytes
  bound : q.required_available_bytes ≤ max_u64

IsEntry-behind :
    {operation : Str} {minimum : ℕ} (u : Str × ℕ) (us : Usage) (q : DomainRequirement)
    → is_used u.0 us ≡ false
    → IsEntry operation minimum us q
    → IsEntry operation minimum (u ∷ us) q
unfolding used
IsEntry-behind u us q new i = elim (Bool-cases (str_eq u.0 q.domain_id)) [
  | inl e ↦ absurd (ground (arith, new, i.there, str_eq→≡ u.0 q.domain_id e))
  | inr e ↦ record {
    of = i.of;
    peak = ground (arith, i.peak, e);
    there = ground (arith, i.there);
    reserve = i.reserve;
    sum = i.sum;
    bound = i.bound;
  }
]

All-map :
    {P Q : DomainRequirement → Type 0} (qs : List DomainRequirement)
    → ((q : DomainRequirement) → P q → Q q)
    → All P qs
    → All Q qs
All-map [] f ps = ps
All-map (q ∷ qs) f ps = (f q ps.0, All-map qs f ps.1)

-- A requirement for a domain.
abbrev pub needs : Str → List DomainRequirement → Bool
needs e [] = false
needs e (q ∷ qs) = str_eq q.domain_id e || needs e qs

record AreEntries (operation : Str) (minimum : ℕ) (us : Usage) (qs : List DomainRequirement)
    : Type 0 where
  each : All (IsEntry operation minimum us) qs
  keys : (e : Str) → needs e qs ≡ is_used e us

requirements_of-AreEntries :
    (operation : Str) (minimum : ℕ) (us : Usage) {qs : List DomainRequirement}
    → Unique us
    → minimum ≤ max_u64
    → requirements_of operation minimum us ≡ ok qs
    → AreEntries operation minimum us qs
unfolding requirements_of used
requirements_of-AreEntries operation minimum [] {qs} v small h =
    let it : [] ≡ qs = ground (arith, h) in
    subst (AreEntries operation minimum []) it (record { each = tt; keys = λ e. refl })
requirements_of-AreEntries operation minimum (u ∷ us) {qs} v small h =
    elim (Bool-cases (ltb (max_u64 - minimum) u.1)) [
      | inl over ↦ absurd (ground (arith, over, h))
      | inr fits ↦
          let (rest, done, h₁) =
            >>=-eq-ok (requirements_of operation minimum us) _ (rw (fits, requirements_of) at h) in
          let more = requirements_of-AreEntries operation minimum us v.1 small done in
          let q : DomainRequirement = record {
            operation_id = operation;
            domain_id = u.0;
            peak_bytes = u.1;
            minimum_free_bytes = minimum;
            required_available_bytes = u.1 + minimum;
          } in
          let it : q ∷ rest ≡ qs = ground (arith, h₁) in
          subst (AreEntries operation minimum (u ∷ us)) it (record {
            each = (
              record {
                of = refl;
                peak = ground (arith, str_eq_refl u.0);
                there = ground (arith, str_eq_refl u.0);
                reserve = refl;
                sum = refl;
                bound = ground (arith, fits, small);
              },
              All-map rest (λ t i. IsEntry-behind u us t v.0 i) more.each,
            );
            keys = λ e. ground (arith, more.keys e);
          })
    ]

needs-insert :
    (e : Str) (q : DomainRequirement) (qs : List DomainRequirement)
    → needs e (insert requirement_before q qs) ≡ (str_eq q.domain_id e || needs e qs)
unfolding insert
needs-insert e q [] = refl
needs-insert e q (t ∷ qs) = ground (arith, needs-insert e q qs)

needs-sort :
    (e : Str) (qs : List DomainRequirement) → needs e (sort requirement_before qs) ≡ needs e qs
unfolding sort
needs-sort e [] = refl
needs-sort e (q ∷ qs) =
    needs-insert e q (sort requirement_before qs)
    ∙ ap (λ b. str_eq q.domain_id e || b) (needs-sort e qs)

-- A requirement of a plan, against the phases of the plan: its peak is the most that one phase takes
-- of its domain.
pub record IsRequirement (surfaces : List Surface) (plan : OperationPlan) (q : DomainRequirement)
    : Type 0 where
  pub of : q.operation_id ≡ plan.id
  pub peak : q.peak_bytes ≡ peak_over surfaces q.domain_id plan.phases
  pub reserve : q.minimum_free_bytes ≡ plan.minimum_free_bytes
  pub sum : q.required_available_bytes ≡ q.peak_bytes + q.minimum_free_bytes
  pub bound : q.required_available_bytes ≤ max_u64

pub record IsResolved (surfaces : List Surface) (r : ResolvedOperationPlan) : Type 0 where
  pub each : All (IsRequirement surfaces r.plan) r.requirements
  pub every : (e : Str) → needs e r.requirements ≡ in_phases surfaces e r.plan.phases

resolve_normalized-IsResolved :
    (plan : OperationPlan) (surfaces : List Surface) (domains : List CapacityDomain)
    {r : ResolvedOperationPlan}
    → plan.minimum_free_bytes ≤ max_u64
    → resolve_normalized plan surfaces domains ≡ ok r
    → IsResolved surfaces r
unfolding resolve_normalized
resolve_normalized-IsResolved plan surfaces domains {r} small h =
    let (t, done, h₁) = >>=-eq-ok (resolve_phases plan.id surfaces domains plan.phases []) _ h in
    let (qs, asked, h₂) = >>=-eq-ok (requirements_of plan.id plan.minimum_free_bytes t.1) _ h₁ in
    let peaks = resolve_phases-ArePeaks plan.id surfaces domains plan.phases done in
    let entries =
      requirements_of-AreEntries plan.id plan.minimum_free_bytes t.1 peaks.unique small asked in
    let same_plan : plan ≡ r.plan = ground (arith, h₂) in
    let same_list : sort requirement_before qs ≡ r.requirements = ground (arith, h₂) in
    let each : All (IsRequirement surfaces plan) (sort requirement_before qs) =
      All-sort requirement_before (IsRequirement surfaces plan) qs (
        All-map qs
          (λ q i. record {
            of = i.of;
            peak = i.peak ∙ peaks.tops q.domain_id;
            reserve = i.reserve;
            sum = i.sum;
            bound = i.bound;
          })
          entries.each) in
    record {
      each = subst₂ (λ p xs. All (IsRequirement surfaces p) xs) same_plan same_list each;
      every = λ e.
          subst₂ (λ p xs. needs e xs ≡ in_phases surfaces e p.phases) same_plan same_list
            (needs-sort e qs ∙ (entries.keys e ∙ peaks.keys e));
    }

pub minimum_of-small : (n : ℕ) → n ≤ max_u64 → minimum_of n ≤ max_u64
unfolding minimum_of
minimum_of-small n small = ground (arith, small)

normalize_operation_plan-minimum :
    (plan : OperationPlan) {p : OperationPlan}
    → plan.minimum_free_bytes ≤ max_u64
    → normalize_operation_plan plan ≡ ok p
    → p.minimum_free_bytes ≤ max_u64
unfolding normalize_operation_plan
normalize_operation_plan-minimum plan {p} small h =
    let e : p.minimum_free_bytes ≡ minimum_of plan.minimum_free_bytes = ground (arith, h) in
    rw e (minimum_of-small plan.minimum_free_bytes small)

-- Resolving a plan gives a requirement for exactly the domains that a phase of the normalized plan
-- takes bytes of; its peak is the most that one phase takes of the domain, the bytes of its
-- allocations there added up, and its required bytes are the peak and the plan's reserve together,
-- which fit an unsigned 64-bit integer, if the given reserve does.
pub resolve_operation_plan-IsResolved :
    (plan : OperationPlan) (surfaces : List Surface) (domains : List CapacityDomain)
    {t : List Surface × List CapacityDomain} {r : ResolvedOperationPlan}
    → plan.minimum_free_bytes ≤ max_u64
    → normalize_capacity_topology surfaces domains ≡ ok t
    → resolve_operation_plan plan surfaces domains ≡ ok r
    → IsResolved t.0 r
unfolding resolve_operation_plan
resolve_operation_plan-IsResolved plan surfaces domains {t} {r} small bound h =
    let (t', bound', h₁) = >>=-eq-ok (normalize_capacity_topology surfaces domains) _ h in
    let (p, normal, h₂) = >>=-eq-ok (normalize_operation_plan plan) _ h₁ in
    let it : t' ≡ t = ground (arith, bound, bound') in
    subst (λ x. IsResolved x.0 r) it
      (resolve_normalized-IsResolved p t'.0 t'.1
        (normalize_operation_plan-minimum plan small normal) h₂)
