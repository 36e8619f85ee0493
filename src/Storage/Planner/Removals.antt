-- ===== src/Storage/Planner/Removals.antt =====
-- internal/storage/planner.go: which decisions of a plan are removals.
use ephemeral_action_runner.Shared.{
  ℕ, Str, str_eq, str_eq→≡, true, false, ◌&&◌, ◌≡◌, ◌≢◌, ◌⊎◌, inl, inr, refl, sym, ap, subst, ◌∙◌,
  arith, some, List, [], ◌∷◌, map, All, is_some, Bool-cases, Option-cases, ok,
}
use ephemeral_action_runner.Storage.Types.{
  Artifact, Policy, Budget, Action, buildkit_cache, go_cache,
}
use ephemeral_action_runner.Storage.Planner.{
  member, automatic_kinds, classify_artifact, classify_unprotected, classify_owned,
}
use ephemeral_action_runner.Storage.Planner.Candidates.{
  IsExpendable, classify_artifact-IsExpendable,
}
use ephemeral_action_runner.Storage.Planner.Retention.{
  Classified, is_cache, check_budgets, normalize_policy, retain, apply_generation_count, eligible,
  evicted, evict, apply_budget, apply_cache_budgets, preview_decisions, total_of,
}

-- A decision that is a removal only as a candidate, which the classification of its artifact gave.
pub record IsRetained (now : ℕ) (policy : Policy) (p : Classified) : Type 0 where
  pub candidate : p.1 ≡ (classify_artifact now policy p.0.artifact).1
  pub chosen : p.0.action ≡ Action.remove → is_some p.1 ≡ true

classified-artifact :
    (now : ℕ) (policy : Policy) (a : Artifact) → (classify_artifact now policy a).0.artifact ≡ a
unfolding classify_artifact classify_unprotected classify_owned
classified-artifact now policy a = ground arith

classified-action :
    (now : ℕ) (policy : Policy) (a : Artifact)
    → (classify_artifact now policy a).0.action ≢ Action.remove
unfolding classify_artifact classify_unprotected classify_owned
classified-action now policy a h = ground arith

classified-automatic :
    (now : ℕ) (policy : Policy) (a : Artifact)
    → is_some (classify_artifact now policy a).1 ≡ true
    → member a.kind automatic_kinds ≡ true
unfolding classify_artifact classify_unprotected
classified-automatic now policy a h = ground arith

-- The kinds that have budgets are not automatic.
cache_not_automatic : (kind : Str) → is_cache kind ≡ true → member kind automatic_kinds ≡ false
unfolding str_eq automatic_kinds
cache_not_automatic kind h = elim (either kind h) [
  | inl e ↦ subst (λ k. member k automatic_kinds ≡ false) (sym e) refl
  | inr e ↦ subst (λ k. member k automatic_kinds ≡ false) (sym e) refl
]
  where
    either : (kind : Str) → is_cache kind ≡ true → (kind ≡ buildkit_cache) ⊎ (kind ≡ go_cache)
    either kind h = elim (Bool-cases (str_eq kind buildkit_cache)) [
      | inl e ↦ inl (str_eq→≡ kind buildkit_cache e)
      | inr n ↦ inr (str_eq→≡ kind go_cache (ground arith))
    ]

module _ (now : ℕ) (policy : Policy) where
  classified-IsRetained : (a : Artifact) → IsRetained now policy (classify_artifact now policy a)
  classified-IsRetained a = record {
    candidate =
        ap (λ b. (classify_artifact now policy b).1) (sym (classified-artifact now policy a));
    chosen = λ h. absurd (classified-action now policy a h);
  }

  All-IsRetained :
      (artifacts : List Artifact)
      → All (IsRetained now policy) (map (classify_artifact now policy) artifacts)
  All-IsRetained [] = tt
  All-IsRetained (a ∷ artifacts) = (classified-IsRetained a, All-IsRetained artifacts)

  retain-IsRetained :
      (ps : List Classified) (p : Classified)
      → IsRetained now policy p
      → IsRetained now policy (retain policy ps p)
  unfolding retain
  retain-IsRetained ps p r =
      let c = r.candidate in
      let h = r.chosen in record { candidate = ground arith; chosen = λ e. ground arith }

  IsRetained-All :
      (all ps : List Classified)
      → All (IsRetained now policy) ps
      → All (IsRetained now policy) (map (retain policy all) ps)
  IsRetained-All all [] r = tt
  IsRetained-All all (p ∷ ps) (r, rs) = (retain-IsRetained all p r, IsRetained-All all ps rs)

  IsRetained-kind :
      (kind : Str) (p : Classified)
      → is_cache kind ≡ true
      → IsRetained now policy p
      → (str_eq p.0.artifact.kind kind && is_some p.1) ≡ false
  IsRetained-kind kind p h r = elim (Bool-cases (str_eq p.0.artifact.kind kind && is_some p.1)) [
    | inr n ↦ n
    | inl y ↦
        let same : p.0.artifact.kind ≡ kind = str_eq→≡ p.0.artifact.kind kind (ground arith) in
        let cache : is_cache p.0.artifact.kind ≡ true = ap is_cache same ∙ h in
        let c = r.candidate in
        let auto = classified-automatic now policy p.0.artifact (ground arith) in
        let none_auto = cache_not_automatic p.0.artifact.kind cache in absurd (ground arith)
  ]

  eligible_none :
      (kind : Str) (ps : List Classified)
      → is_cache kind ≡ true
      → All (IsRetained now policy) ps
      → eligible kind ps ≡ []
  unfolding eligible
  eligible_none kind [] h r = refl
  eligible_none kind (p ∷ ps) h (r, rs) =
      rw (IsRetained-kind kind p h r, eligible_none kind ps h rs) refl

evict_none : (ps : List Classified) → map (evict []) ps ≡ ps
unfolding evict
evict_none [] = refl
evict_none (p ∷ ps) = ap (λ qs. p ∷ qs) (evict_none ps)

-- A budget of a kind that is not automatic changes nothing.
module _ (now : ℕ) (policy : Policy) where
  apply_budget_idle :
      (b : Budget) (ps : List Classified)
      → is_cache b.kind ≡ true
      → All (IsRetained now policy) ps
      → apply_budget b ps ≡ ps
  unfolding apply_budget evicted
  apply_budget_idle b ps h r = elim (Option-cases (total_of b.kind ps 0)) [
    | inl e ↦ rw (e, apply_budget) refl
    | inr (total, e) ↦
        rw (e, apply_budget, eligible_none now policy b.kind ps h r) (ground (arith, evict_none ps))
  ]

  budgets_idle :
      (seen : List Str) (bs : List Budget) (ps : List Classified)
      → check_budgets seen bs ≡ ok tt
      → All (IsRetained now policy) ps
      → apply_cache_budgets bs ps ≡ ps
  unfolding apply_cache_budgets check_budgets
  budgets_idle seen [] ps h r = refl
  budgets_idle seen (b ∷ bs) ps h r =
      rw (apply_budget_idle b ps (ground arith) r)
        (budgets_idle (b.kind ∷ seen) bs ps (ground arith) r)

normalized_budgets :
    (policy : Policy) {q : Policy}
    → normalize_policy policy ≡ ok q
    → check_budgets [] q.budgets ≡ ok tt
unfolding normalize_policy
normalized_budgets policy {q} h = ground arith

-- Under a normalized policy the budgets of the caches select nothing: the decisions are those that the
-- count of the generations left.
pub preview_decisions_unbudgeted :
    (now : ℕ) (given : Policy) (artifacts : List Artifact) {policy : Policy}
    → normalize_policy given ≡ ok policy
    → preview_decisions now policy artifacts
      ≡ apply_generation_count policy (map (classify_artifact now policy) artifacts)
unfolding preview_decisions apply_generation_count
preview_decisions_unbudgeted now given artifacts {policy} h =
    let first = map (classify_artifact now policy) artifacts in
    budgets_idle now policy [] policy.budgets (map (retain policy first) first)
      (normalized_budgets given h)
      (IsRetained-All now policy first first (All-IsRetained now policy artifacts))

chosen-IsExpendable :
    (now : ℕ) (policy : Policy) (ps : List Classified)
    → All (IsRetained now policy) ps
    → All
        (λ p.
          p.0.action ≡ Action.remove
          → (at : ℕ) × ((p.1 ≡ some at) × IsExpendable now policy p.0.artifact at))
        ps
chosen-IsExpendable now policy [] r = tt
chosen-IsExpendable now policy (p ∷ ps) (r, rs) = (
  λ e. elim (Option-cases p.1) [
    | inl n ↦ let s = r.chosen e in absurd (ground arith)
    | inr (at, c) ↦
        (at, (c, classify_artifact-IsExpendable now policy p.0.artifact (sym r.candidate ∙ c)))
  ],
  chosen-IsExpendable now policy ps rs,
)

-- Under a normalized policy every decision to remove an artifact is about one that may go: it was a
-- candidate since some time.
pub preview_decisions-IsExpendable :
    (now : ℕ) (given : Policy) (artifacts : List Artifact) {policy : Policy}
    → normalize_policy given ≡ ok policy
    → All
        (λ p.
          p.0.action ≡ Action.remove
          → (at : ℕ) × ((p.1 ≡ some at) × IsExpendable now policy p.0.artifact at))
        (preview_decisions now policy artifacts)
unfolding apply_generation_count
preview_decisions-IsExpendable now given artifacts {policy} h =
    let first = map (classify_artifact now policy) artifacts in
    rw (preview_decisions_unbudgeted now given artifacts h) (
      chosen-IsExpendable now policy (map (retain policy first) first)
        (IsRetained-All now policy first first (All-IsRetained now policy artifacts)))
