-- ===== src/Examples/Storage.antt =====
-- Two artifacts, the plan that removes one of them, and an executor whose world is the list of the
-- targets that exist.
use ephemeral_action_runner.Shared.{
  map, All, str_lt, ℕ, Str, Bool, true, false, not, none, some, List, [], ◌∷◌, Result, ok, codes,
  ◌≡◌, ◌≢◌, ◌⊎◌, inr, refl, arith, if◌then◌else◌, keep, str_eq, is_empty, trim_space,
}
use ephemeral_action_runner.Storage.Types.{Target, Artifact, Policy, Action, default_policy}
use ephemeral_action_runner.Storage.Planner.{
  classify_artifact, classify_unprotected, classify_owned, automatic_kinds, automatic_target_kind,
}
use ephemeral_action_runner.Storage.Planner.Candidates.{
  IsExpendable, classify_artifact-IsExpendable,
}
use ephemeral_action_runner.Storage.Planner.Retention.{
  normalize_policy, check_budgets, preview_decisions, apply_generation_count, retain, group_of,
  position, apply_cache_budgets, apply_budget, total_of,
}
use ephemeral_action_runner.Storage.Planner.Removals.{
  preview_decisions_unbudgeted, preview_decisions-IsExpendable,
}
use ephemeral_action_runner.Storage.Executor.{
  ExactExecutor, Plan, execute, validate_plan_hash, target_eq,
}
use ephemeral_action_runner.Storage.Executor.Journal.{planned, execute_unapproved}
use ephemeral_action_runner.Storage.Executor.Removals.{IsExecuted, execute-IsExecuted}

abbrev archive : Artifact
archive = record {
  id = codes "a1";
  provider = codes "docker-sandboxes";
  surface_id = codes "host";
  kind = codes "template-archive";
  retention_group = codes "catthehacker";
  target = record {
    kind = codes "file";
    locator = codes "/cache/a1.tar";
    identity = codes "dev1:ino7";
    fingerprint = codes "";
    matching = codes "exact";
  };
  ownership = record { kind = codes "exact"; owner_id = codes "epar"; evidence = codes "manifest" };
  size_bytes = 4096;
  created_at = 1;
  last_used_at = 2;
  superseded_at = some 3;
  current = false;
  active = false;
  lease = some (record { id = codes "l1"; expires_at = 4 });
  protections = [];
  backend_id = codes "";
  custody = codes "";
  lifecycle_state = codes "superseded";
  config_refs = [];
  cleanup_error = codes "";
}

archive_eligible : (classify_artifact 9 default_policy archive).1 ≡ some 3
unfolding classify_artifact classify_unprotected classify_owned automatic_kinds
    automatic_target_kind str_eq trim_space is_empty
archive_eligible = refl

classify_artifact-IsExpendable_example : IsExpendable 9 default_policy archive 3
classify_artifact-IsExpendable_example =
    classify_artifact-IsExpendable 9 default_policy archive archive_eligible

abbrev plan : Plan
plan = record {
  hash = codes "sha256:1";
  decisions =
      record { artifact = archive; action = Action.remove; reasons = [] }
      ∷ (record {
        artifact = record archive { id = codes "a2" };
        action = Action.keep;
        reasons = [];
      }
          ∷ []);
  content = codes "";
}

abbrev hash_of : Plan → Result Str Str
hash_of p = ok (codes "sha256:1")

any : List Target → Target → Bool
any [] t = false
any (s ∷ ss) t = let rest = any ss t in if target_eq s t then true else rest

abbrev host : ExactExecutor
host = record {
  World = List Target;
  observe_exact = λ w t. (w, ok (record { exists = any w t; target = t }));
  remove_exact = λ w r. (keep (λ t. not (target_eq t r.target)) w, ok tt);
}

approved : validate_plan_hash hash_of plan (codes "sha256:1") ≡ ok tt
unfolding validate_plan_hash str_eq trim_space is_empty
approved = refl

abbrev full_host : List Target
full_host = archive.target ∷ []

execute-IsExecuted_example :
    IsExecuted host full_host
      (planned plan.decisions)
      (execute hash_of host full_host plan (codes "sha256:1")).0
      (execute hash_of host full_host plan (codes "sha256:1")).1.1
execute-IsExecuted_example =
    execute-IsExecuted hash_of host full_host plan (codes "sha256:1") approved

other_approval : (hash_of plan ≢ ok (codes "sha256:2")) ⊎ (plan.hash ≢ codes "sha256:2")
other_approval = inr (λ p. ground arith)

execute_unapproved_example :
    ((execute hash_of host full_host plan (codes "sha256:2")).0 ≡ full_host)
    × (((execute hash_of host full_host plan (codes "sha256:2")).1.0.entries ≡ [])
        × ((execute hash_of host full_host plan (codes "sha256:2")).1.1 ≢ none))
execute_unapproved_example =
    execute_unapproved hash_of host full_host plan (codes "sha256:2") other_approval

abbrev cache_policy : Policy
unfolding default_policy
cache_policy = default_policy

default_normalizes : normalize_policy default_policy ≡ ok cache_policy
unfolding normalize_policy check_budgets default_policy str_eq str_lt cache_policy
default_normalizes = refl

preview_decisions_unbudgeted_example :
    preview_decisions 9 cache_policy (archive ∷ [])
    ≡ apply_generation_count cache_policy (map (classify_artifact 9 cache_policy) (archive ∷ []))
preview_decisions_unbudgeted_example =
    preview_decisions_unbudgeted 9 default_policy (archive ∷ []) default_normalizes

preview_decisions-IsExpendable_example :
    All
      (λ p.
        p.0.action ≡ Action.remove
        → (at : ℕ) × ((p.1 ≡ some at) × IsExpendable 9 cache_policy p.0.artifact at))
      (preview_decisions 9 cache_policy (archive ∷ []))
preview_decisions-IsExpendable_example =
    preview_decisions-IsExpendable 9 default_policy (archive ∷ []) default_normalizes

-- A run: the archive goes at once.
archive_goes :
    map (λ p. p.0.action) (preview_decisions 9 cache_policy (archive ∷ [])) ≡ Action.remove ∷ []
unfolding preview_decisions apply_generation_count retain group_of position apply_cache_budgets
    apply_budget total_of classify_artifact classify_unprotected classify_owned automatic_kinds
    automatic_target_kind str_eq str_lt trim_space is_empty cache_policy default_policy
archive_goes = refl
