-- ===== src/Pool/Cleanup/Driver.antt =====
-- internal/pool/lifecycle_cleanup.go, with the calls that it makes in lifecycle_state.go: the cleanup of
-- one record. Logging and the closing of transcripts are left out.
use ephemeral_action_runner.Shared.{
  ℕ, zero, suc, Str, is_empty, Bool, true, false, not, ◌&&◌, if◌then◌else◌, Option, none, some,
  List, Result, ok, err,
}
use ephemeral_action_runner.PoolState.Types.{Phase, Action, Lease, Record, ◌is◌}
use ephemeral_action_runner.Pool.Cleanup.Host.{
  RecordStore, Host, Settings, InventoryItem, Refusal, CleanupError, World, Run, M, ◌>>=◌, ◌>>◌,
  pure, fail, read, current_time, runner_by_name,
}
unfoldable pub use ephemeral_action_runner.Pool.Cleanup.Facts.{
  has_prefix, bare, no_identity_reason, github_identity_reason, is_uncertain_create,
  active_lifecycle_lease, zero_id, same_id, any_held, job, find_exact, any_of_id, observe_exact,
  usable_receipt, no_items, found_any, other_runner,
}
unfoldable pub use ephemeral_action_runner.Pool.Cleanup.Jobs.{
  move, discovery_of, report_all, mark_cleanup_pending, quarantine_lifecycle, holder_of,
  release_job, note_busy, note_idle, record_job_observation, record_remote_absence, reconciles,
  reconcile_answer, reconcile_job_lease,
}
unfoldable pub use ephemeral_action_runner.Pool.Cleanup.Removals.{
  delete_exact, delete_if_found, remove_exact_runner, recorded_instance, remove_found,
  remove_checked, remove_exact_instance,
}

-- What the loop does after one round: it goes on, knowing or not that the runner is gone from GitHub,
-- or it returns.
pub data Next : Type 0 where
  again : Bool → Next
  finished : Next

-- The loop's own error, when its fuel is out, and the errors of the code.
pub data LoopError : Type 0 where
  out_of_fuel : LoopError
  failed : CleanupError → LoopError

module _ (h : Host) (s : RecordStore) (k : Settings) where
  abbrev C : Type 0 → Type 0
  C A = M h s A

  abbrev refuse : {A : Type 0} → Refusal → C A
  refuse x = fail (CleanupError.refused x)

  -- A transition after which the loop goes on.
  abbrev pub advance : Str → Action → Bool → C Next
  advance n a known = move h s k n a >>= λ r. pure (Next.again known)

  -- A removal whose error sets the cleanup aside.
  unfoldable pub or_set_aside : Str → C (Unit {0}) → C (Unit {0})
  or_set_aside n m w = elim (m w).1 [
    | ok u ↦ m w
    | err e ↦ (mark_cleanup_pending h s k n >> fail e) (m w).0
  ]

  abbrev pub abandon : Str → C Next
  abandon n = move h s k n Action.abandon_create >>= λ r. pure Next.finished

  -- The phases of a creation that was interrupted.
  unfoldable pub act_on_create : Record → List InventoryItem → Bool → C Next
  act_on_create r same_name known_absent =
      if not (no_items same_name)
      then (report_all h s k same_name
          >> (quarantine_lifecycle h s k r.name no_identity_reason >> refuse Refusal.unidentified))
      else if is_uncertain_create r && not (known_absent && r.phase is Phase.creating)
      then refuse Refusal.uncertain_create
      else if not k.github
      then abandon r.name
      else runner_by_name h s r.git_hub.exact_name >>= λ found.
          if found_any found
          then (quarantine_lifecycle h s k r.name github_identity_reason
              >> refuse Refusal.runner_exists)
          else abandon r.name

  unfoldable pub act_on_unidentified : Record → List InventoryItem → C Next
  act_on_unidentified r same_name =
      if not (no_items same_name)
      then (report_all h s k same_name >> refuse Refusal.unidentified)
      else if is_uncertain_create r
      then refuse Refusal.uncertain_create
      else if not k.github
      then refuse Refusal.unverifiable
      else runner_by_name h s r.git_hub.exact_name >>= λ found.
          if found_any found then refuse Refusal.runner_exists else abandon r.name

  abbrev pub go_on_observed : Record → Bool → Result Refusal Bool → C Next
  go_on_observed r known (err e) = refuse e
  go_on_observed r known (ok false) = refuse Refusal.unobserved
  go_on_observed r known (ok true) = advance r.name Action.recovery_inventory_observed known

  unfoldable pub act_on_uncertain : Record → List InventoryItem → Bool → C Next
  act_on_uncertain r same_name known = go_on_observed r known (observe_exact r same_name false)

  unfoldable pub act_on_quarantined : Record → List InventoryItem → Bool → C Next
  act_on_quarantined r same_name known =
      if is_empty r.provider_id
      then act_on_unidentified r same_name
      else if r.recovery_inventory_uncertain
      then act_on_uncertain r same_name known
      else advance r.name Action.fence_intent known

  unfoldable pub act_on_live : Record → Bool → C Next
  act_on_live r known =
      if is_empty r.provider_id
      then refuse Refusal.no_identity
      else advance r.name Action.fence_intent known

  unfoldable pub act_on_remote : Record → Bool → C Next
  act_on_remote r known =
      (if not known then or_set_aside r.name (remove_exact_runner h s k r) else pure tt)
      >> advance r.name Action.remote_absent known

  unfoldable pub act_on_local : Record → List InventoryItem → Bool → C Next
  act_on_local r same_name known =
      or_set_aside r.name (remove_exact_instance h s k r same_name)
      >> advance r.name Action.local_absent known

  -- The switch on the phase.
  unfoldable pub act : Phase → Record → List InventoryItem → Bool → Bool → C Next
  act Phase.tombstoned r same_name known allow = pure Next.finished
  act Phase.reserved r same_name known allow = act_on_create r same_name allow
  act Phase.creating r same_name known allow = act_on_create r same_name allow
  act Phase.cleanup_pending r same_name known allow = advance r.name Action.resume_cleanup known
  act Phase.quarantined r same_name known allow = act_on_quarantined r same_name known
  act Phase.created r same_name known allow = act_on_live r known
  act Phase.validating r same_name known allow = act_on_live r known
  act Phase.standby r same_name known allow = act_on_live r known
  act Phase.registering r same_name known allow = act_on_live r known
  act Phase.ready r same_name known allow = act_on_live r known
  act Phase.busy r same_name known allow = act_on_live r known
  act Phase.draining r same_name known allow = act_on_live r known
  act Phase.fencing r same_name known allow = advance r.name Action.fenced known
  act Phase.fenced r same_name known allow = advance r.name Action.verify_remote_intent known
  act Phase.remote_reconciling r same_name known allow = act_on_remote r known
  act Phase.remote_absent r same_name known allow = advance r.name Action.remove_local_intent known
  act Phase.local_removing r same_name known allow = act_on_local r same_name known
  act Phase.local_absent r same_name known allow = advance r.name Action.tombstone known
  act Phase.unrecognized r same_name known allow = refuse Refusal.unsupported

  abbrev pub act_unleased : Record → List InventoryItem → Bool → Bool → Option Lease → C Next
  act_unleased r same_name known allow (some l) = refuse Refusal.leased
  act_unleased r same_name known allow none = act r.phase r same_name known allow

  -- The check of the leases, then the switch.
  unfoldable pub unless_leased : List InventoryItem → Bool → Bool → Record → C Next
  unless_leased same_name known allow r = current_time h s >>= λ now.
      act_unleased r same_name known allow (active_lifecycle_lease r.leases now)

  -- One round of the loop.
  unfoldable pub round : Str → List InventoryItem → Bool → Bool → C Next
  round n same_name allow true = read h s n >>= unless_leased same_name true allow
  round n same_name allow false = read h s n >>= λ r. reconcile_job_lease h s k r >>= λ absent.
      if absent
      then pure (Next.again true)
      else (read h s n >>= unless_leased same_name false allow)

  abbrev pub Loop : Type 0
  Loop = Run (World h s) LoopError (Unit {0})

  -- What follows a round that went through.
  abbrev pub go_on : (Bool → Loop) → Next → Loop
  go_on rest (Next.again known) = rest known
  go_on rest Next.finished = pure tt

  -- cleanupLifecycleRecordWithPolicy, with fuel for its loop.
  unfoldable pub cleanup_record : ℕ → Str → List InventoryItem → Bool → Bool → Loop
  cleanup_record zero n same_name allow known w = (w, err LoopError.out_of_fuel)
  cleanup_record (suc fuel) n same_name allow known w =
      let (w', r) = round n same_name allow known w in
      elim r [
        | err e ↦ (w', err (LoopError.failed e))
        | ok x ↦ go_on (cleanup_record fuel n same_name allow) x w'
      ]
