-- ===== src/Storage/Planner.antt =====
-- internal/storage/planner.go: the classification of one artifact, and the policy that it reads. The
-- times are already in UTC.
pub mod Candidates
pub mod Retention
pub mod Removals
use ephemeral_action_runner.Shared.{
  ℕ, ◌==◌, ℤ, pos, sub_ℕ, ltb, ltb_ℤ, leb_ℤ, Str, codes, str_eq, is_empty, trim_space, Bool, true,
  false, not, ◌&&◌, ◌||◌, if◌then◌else◌, Option, none, some, List, [], ◌∷◌, ◌++◌, map, Result, err,
  ok,
}
use ephemeral_action_runner.Storage.Types.{
  Artifact, Protection, Lease, Policy, Budget, Action, Decision, match_exact, ownership_exact,
  buildkit_cache, go_cache, default_policy,
}

abbrev pub member : Str → List Str → Bool
member s [] = false
member s (t ∷ ts) = str_eq s t || member s ts

unfoldable pub automatic_kinds : List Str
automatic_kinds =
    codes "native-controller-revision"
    ∷ (codes "template-archive"
        ∷ (codes "docker-image"
            ∷ (codes "sandbox-template"
                ∷ (codes "docker-volume"
                    ∷ (codes "provider-image" ∷ (codes "provider-cache" ∷ (codes "other" ∷ [])))))))

unfoldable pub automatic_target_kind : Str → Str → Bool
automatic_target_kind kind target =
    if str_eq kind (codes "native-controller-revision")
    then member target (codes "directory" ∷ (codes "file" ∷ []))
    else if str_eq kind (codes "template-archive")
    then str_eq target (codes "file")
    else if str_eq kind (codes "docker-image")
    then str_eq target (codes "docker-image-tag")
    else if str_eq kind (codes "sandbox-template")
    then str_eq target (codes "sandbox-template")
    else if str_eq kind (codes "docker-volume")
    then str_eq target (codes "docker-volume")
    else if member kind (codes "provider-image" ∷ (codes "provider-cache" ∷ (codes "other" ∷ [])))
    then member target
        (codes "file" ∷ (codes "directory" ∷ (codes "external" ∷ (codes "buildkit-record" ∷ []))))
    else false

abbrev pub is_retired : Artifact → Bool
is_retired a =
    str_eq a.lifecycle_state (codes "superseded")
    || str_eq a.lifecycle_state (codes "cleanup-pending")

abbrev is_revision : Str → Bool
is_revision kind =
    member kind (codes "native-controller-revision" ∷ (codes "template-archive" ∷ []))

decide : Artifact → Action → List Str → Decision × Option ℕ
decide a action reasons = (record { artifact = a; action = action; reasons = reasons }, none)

candidate : Artifact → Str → ℕ → Decision × Option ℕ
candidate a reason at =
    (record { artifact = a; action = Action.keep; reasons = reason ∷ [] }, some at)

-- A time that is missing or zero.
abbrev pub is_unset : Option ℕ → Bool
is_unset none = true
is_unset (some t) = t == 0

abbrev stamp : Option ℕ → ℕ
stamp none = 0
stamp (some t) = t

-- The retention clock of an artifact that may go.
unfoldable pub classify_owned : ℕ → Policy → Artifact → Decision × Option ℕ
unfolding decide candidate
classify_owned now policy a =
    let at = stamp a.superseded_at in
    if is_retired a
    then if is_unset a.superseded_at
      then decide a Action.report_only (codes "superseded-state-uncertain" ∷ [])
      else if ltb now at
      then decide a Action.report_only (codes "retention-clock-skew" ∷ [])
      else candidate a (codes "eligible-immediately") at
    else if not (is_revision a.kind)
    then decide a Action.report_only (codes "explicit-cleanup-only" ∷ [])
    else if is_empty a.retention_group || is_unset a.superseded_at
    then decide a Action.report_only (codes "superseded-state-uncertain" ∷ [])
    else if ltb now at
    then decide a Action.report_only (codes "retention-clock-skew" ∷ [])
    else if ltb_ℤ (sub_ℕ now at) policy.grace_period
    then decide a Action.keep (codes "within-grace-period" ∷ [])
    else candidate a (codes "eligible") at

unfoldable pub classify_unprotected : ℕ → Policy → Artifact → Decision × Option ℕ
unfolding decide
classify_unprotected now policy a =
    if not (str_eq a.ownership.kind ownership_exact)
    then decide a Action.report_only ((codes "ownership-" ++ a.ownership.kind) ∷ [])
    else if not (str_eq a.target.matching match_exact)
    then decide a Action.report_only ((codes "target-" ++ a.target.matching) ∷ [])
    else if not (member a.kind automatic_kinds)
    then decide a Action.report_only (codes "explicit-cleanup-only" ∷ [])
    else if not (automatic_target_kind a.kind a.target.kind)
    then decide a Action.report_only (codes "target-kind-not-automatic" ∷ [])
    else classify_owned now policy a

abbrev pub protects : ℕ → Option Lease → Bool
protects now none = false
protects now (some l) =
    is_empty (trim_space l.id) || l.expires_at == 0 || not (ltb l.expires_at now)

lease_reason : Option Lease → Str
lease_reason none = codes ""
lease_reason (some l) =
    if is_empty (trim_space l.id) || l.expires_at == 0
    then codes "lease-uncertain"
    else codes "lease-active"

abbrev pub is_nil : List Protection → Bool
is_nil [] = true
is_nil (p ∷ ps) = false

unfoldable pub classify_artifact : ℕ → Policy → Artifact → Decision × Option ℕ
unfolding decide lease_reason
classify_artifact now policy a =
    if a.current
    then decide a Action.protected (codes "current" ∷ [])
    else if a.active
    then decide a Action.protected (codes "active" ∷ [])
    else if not (is_nil a.protections)
    then decide a Action.protected (map (λ p. codes "protected:" ++ p.kind) a.protections)
    else if protects now a.lease
    then decide a Action.protected (lease_reason a.lease ∷ [])
    else classify_unprotected now policy a
