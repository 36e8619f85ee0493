-- ===== src/Storage/Planner/Candidates.antt =====
-- internal/storage/planner.go: which artifacts the classification lets go.
use ephemeral_action_runner.Shared.{ℕ, ◌≤◌, ◌≤ℤ◌, sub_ℕ, str_eq, true, false, ◌≡◌, ◌≢◌, arith, some}
use ephemeral_action_runner.Storage.Types.{Artifact, Policy, match_exact, ownership_exact}
use ephemeral_action_runner.Storage.Planner.{
  automatic_target_kind, is_retired, is_nil, protects, classify_owned, classify_unprotected,
  classify_artifact,
}

-- What an artifact that may go is, at a time and under a policy.
pub record IsExpendable (now : ℕ) (policy : Policy) (a : Artifact) (at : ℕ) : Type 0 where
  pub not_current : a.current ≡ false
  pub not_active : a.active ≡ false
  pub bare : is_nil a.protections ≡ true
  pub lease_over : protects now a.lease ≡ false
  pub owned : str_eq a.ownership.kind ownership_exact ≡ true
  pub exact : str_eq a.target.matching match_exact ≡ true
  pub automatic : automatic_target_kind a.kind a.target.kind ≡ true
  pub superseded : a.superseded_at ≡ some at
  pub since : (at ≢ 0) × (at ≤ now)
  pub waited : is_retired a ≡ false → policy.grace_period ≤ℤ sub_ℕ now at

owned-since :
    (now : ℕ) (policy : Policy) (a : Artifact) {at : ℕ}
    → (classify_owned now policy a).1 ≡ some at
    → (a.superseded_at ≡ some at) × ((at ≢ 0) × (at ≤ now))
unfolding classify_owned
owned-since now policy a h = ground arith

owned-waited :
    (now : ℕ) (policy : Policy) (a : Artifact) {at : ℕ}
    → (classify_owned now policy a).1 ≡ some at
    → is_retired a ≡ false
    → policy.grace_period ≤ℤ sub_ℕ now at
unfolding classify_owned
owned-waited now policy a h r = ground arith

unprotected-owned :
    (now : ℕ) (policy : Policy) (a : Artifact) {at : ℕ}
    → (classify_unprotected now policy a).1 ≡ some at
    → (str_eq a.ownership.kind ownership_exact ≡ true)
      × ((str_eq a.target.matching match_exact ≡ true)
          × ((automatic_target_kind a.kind a.target.kind ≡ true)
              × ((classify_owned now policy a).1 ≡ some at)))
unfolding classify_unprotected
unprotected-owned now policy a h = ground arith

artifact-unprotected :
    (now : ℕ) (policy : Policy) (a : Artifact) {at : ℕ}
    → (classify_artifact now policy a).1 ≡ some at
    → ((a.current ≡ false) × (a.active ≡ false))
      × ((is_nil a.protections ≡ true)
          × ((protects now a.lease ≡ false) × ((classify_unprotected now policy a).1 ≡ some at)))
unfolding classify_artifact
artifact-unprotected now policy a h = ground arith

-- A candidate for removal is neither current nor active, has no protection and no lease that may still
-- hold, is exactly owned and exactly targeted by a target of a kind that its own kind allows, was
-- superseded at a time that is not in the future, and, unless its lifecycle state retired it, that long
-- ago as the grace period asks.
pub classify_artifact-IsExpendable :
    (now : ℕ) (policy : Policy) (a : Artifact) {at : ℕ}
    → (classify_artifact now policy a).1 ≡ some at
    → IsExpendable now policy a at
classify_artifact-IsExpendable now policy a h =
    let (kept, (bare, (lease, u))) = artifact-unprotected now policy a h in
    let (owner, (target, (automatic, o))) = unprotected-owned now policy a u in
    let (at, since) = owned-since now policy a o in
    record {
      not_current = kept.0;
      not_active = kept.1;
      bare = bare;
      lease_over = lease;
      owned = owner;
      exact = target;
      automatic = automatic;
      superseded = at;
      since = since;
      waited = owned-waited now policy a o;
    }
