-- ===== src/PoolState/Transition.antt =====
-- internal/pool/state/store.go: applyTransition, the phase changes of one record.
pub mod Phases
pub mod Burial
pub mod Resume
pub mod History
use ephemeral_action_runner.Shared.{
  ℕ, pos, leb_ℤ, Bool, true, false, not, ◌&&◌, ◌||◌, ◌==◌, ltb, List, [], ◌∷◌, Option, none, some,
  Result, ok, err, is_empty, is_some, keep, length, if◌then◌else◌, codes,
}
use ephemeral_action_runner.PoolState.Types.{
  Phase, Action, Lease, Cleanup, Record, Transition, StoreError, ◌is◌, empty_receipt,
}
use ephemeral_action_runner.PoolState.Validate.{
  validate_name, validate_receipt, valid_name, is_object,
}

abbrev pub Outcome : Type 0
Outcome = Result StoreError Record

abbrev pub invalid : Outcome
invalid = err StoreError.invalid_transition

-- `if !allowed { return invalid(record, action) }`, and then the new record.
abbrev pub allow : Bool → Record → Outcome
allow true r = ok r
allow false r = invalid

pub move : Record → Phase → Phase → Outcome
move r from to = allow (r.phase is from) (record r { phase = to })

pub fence_allowed : Phase → Bool
fence_allowed Phase.created = true
fence_allowed Phase.validating = true
fence_allowed Phase.standby = true
fence_allowed Phase.registering = true
fence_allowed Phase.ready = true
fence_allowed Phase.busy = true
fence_allowed Phase.draining = true
fence_allowed Phase.quarantined = true
fence_allowed _ = false

pub quarantine_allowed : Phase → Bool
quarantine_allowed Phase.reserved = true
quarantine_allowed Phase.creating = true
quarantine_allowed Phase.created = true
quarantine_allowed Phase.validating = true
quarantine_allowed Phase.standby = true
quarantine_allowed Phase.registering = true
quarantine_allowed Phase.ready = true
quarantine_allowed Phase.busy = true
quarantine_allowed Phase.draining = true
quarantine_allowed _ = false

pub recovery_inventory_uncertainty_allowed : Phase → Bool
recovery_inventory_uncertainty_allowed Phase.created = true
recovery_inventory_uncertainty_allowed Phase.validating = true
recovery_inventory_uncertainty_allowed Phase.standby = true
recovery_inventory_uncertainty_allowed Phase.registering = true
recovery_inventory_uncertainty_allowed Phase.ready = true
recovery_inventory_uncertainty_allowed Phase.busy = true
recovery_inventory_uncertainty_allowed Phase.draining = true
recovery_inventory_uncertainty_allowed Phase.quarantined = true
recovery_inventory_uncertainty_allowed Phase.cleanup_pending = true
recovery_inventory_uncertainty_allowed Phase.fencing = true
recovery_inventory_uncertainty_allowed Phase.fenced = true
recovery_inventory_uncertainty_allowed Phase.remote_reconciling = true
recovery_inventory_uncertainty_allowed Phase.remote_absent = true
recovery_inventory_uncertainty_allowed Phase.local_removing = true
recovery_inventory_uncertainty_allowed _ = false

-- `ExpiresAt.After(now)`.
abbrev pub is_active : ℕ → Lease → Bool
is_active now l = ltb now l.expires_at

unfoldable pub active_leases : List Lease → ℕ → List Lease
active_leases leases now = keep (is_active now) leases

-- `len(activeLeases(…)) != 0`.
unfoldable pub leased : Record → ℕ → Bool
unfolding active_leases
leased r now = not (length (active_leases r.leases now) == 0)

abandonable : Record → ℕ → Bool
unfolding empty_receipt leased
abandonable r now =
    not (
      not (r.phase is Phase.reserved)
      && not (r.phase is Phase.creating)
      && not (r.phase is Phase.quarantined && is_empty r.provider_id && empty_receipt r.receipt))
    && not (not (is_empty r.provider_id) || not (empty_receipt r.receipt) || leased r now)

abandon : Record → ℕ → Record
abandon r now = record r {
  cleanup = record (r.cleanup) {
    remote_verify_at = some now;
    remote_absent_at = some now;
    local_remove_intent_at = some now;
    local_absent_at = some now;
  };
  phase = Phase.tombstoned;
  create_outcome_uncertain = false;
  tombstoned_at = some now;
}

abbrev passes {ℓ} : {E : Type ℓ} → Result E (Unit {0}) → Bool
passes (ok u) = true
passes (err e) = false

created : Record → Transition → Outcome
unfolding validate_name validate_receipt
created r t =
    allow
      (not (
        not (r.phase is Phase.creating)
        || not (passes (validate_name t.provider_id))
        || not (passes (validate_receipt t.receipt))))
      (record r {
        provider_id = t.provider_id;
        receipt = t.receipt;
        phase = Phase.created;
        create_outcome_uncertain = false;
        recovery_inventory_uncertain = false;
      })

registered : Record → Transition → Outcome
registered r t =
    allow (not (not (r.phase is Phase.registering) || leb_ℤ t.runner_id (pos 0)))
      (record r { git_hub = record (r.git_hub) { runner_id = t.runner_id }; phase = Phase.ready })

quarantine : Record → Transition → ℕ → Outcome
unfolding quarantine_allowed
quarantine r t now = allow (not (is_empty t.reason || not (quarantine_allowed r.phase))) (record r {
  phase = Phase.quarantined;
  quarantine = some (record { reason = t.reason; reported_at = now });
  create_outcome_uncertain = r.create_outcome_uncertain || r.phase is Phase.creating;
})

inventory_uncertain : Record → Transition → ℕ → Outcome
unfolding recovery_inventory_uncertainty_allowed
inventory_uncertain r t now =
    allow
      (not (
        is_empty t.reason
        || is_empty r.provider_id
        || not (recovery_inventory_uncertainty_allowed r.phase)))
      (record r {
        phase = Phase.quarantined;
        quarantine = some (record { reason = t.reason; reported_at = now });
        recovery_inventory_uncertain = true;
      })

-- The inner switch of the resume-cleanup case.
unfoldable pub resume_phase : Cleanup → Phase
resume_phase c =
    if is_some c.local_absent_at
    then Phase.local_absent
    else if is_some c.local_remove_intent_at
    then Phase.local_removing
    else if is_some c.remote_absent_at
    then Phase.remote_absent
    else if is_some c.remote_verify_at
    then Phase.remote_reconciling
    else Phase.fencing

tombstonable : Record → ℕ → Bool
unfolding leased
tombstonable r now = not (
    not (r.phase is Phase.local_absent)
    || not (is_some r.cleanup.remote_absent_at)
    || not (is_some r.cleanup.local_absent_at)
    || r.recovery_inventory_uncertain
    || leased r now)

-- The switch on the action.
pub dispatch : Action → Record → Transition → ℕ → Outcome
unfolding move fence_allowed abandonable abandon created registered quarantine inventory_uncertain
    resume_phase tombstonable
dispatch Action.create_intent r t now =
    allow (r.phase is Phase.reserved)
      (record r { phase = Phase.creating; create_outcome_uncertain = true })
dispatch Action.abandon_create r t now = allow (abandonable r now) (abandon r now)
dispatch Action.created r t now = created r t
dispatch Action.validate_intent r t now = move r Phase.created Phase.validating
dispatch Action.validated r t now = move r Phase.validating Phase.standby
dispatch Action.register_intent r t now = move r Phase.standby Phase.registering
dispatch Action.registered r t now = registered r t
dispatch Action.job_started r t now = move r Phase.ready Phase.busy
dispatch Action.job_finished r t now = move r Phase.busy Phase.draining
dispatch Action.quarantine r t now = quarantine r t now
dispatch Action.recovery_inventory_uncertain r t now = inventory_uncertain r t now
dispatch Action.recovery_inventory_observed r t now =
    allow (r.phase is Phase.quarantined && r.recovery_inventory_uncertain)
      (record r { recovery_inventory_uncertain = false })
dispatch Action.fence_intent r t now = allow (fence_allowed r.phase) (record r {
  phase = Phase.fencing;
  cleanup = record (r.cleanup) { fence_intent_at = some now };
})
dispatch Action.fenced r t now = move r Phase.fencing Phase.fenced
dispatch Action.verify_remote_intent r t now = allow (r.phase is Phase.fenced) (record r {
  phase = Phase.remote_reconciling;
  cleanup = record (r.cleanup) { remote_verify_at = some now };
})
dispatch Action.remote_absent r t now = allow (r.phase is Phase.remote_reconciling) (record r {
  phase = Phase.remote_absent;
  cleanup = record (r.cleanup) { remote_absent_at = some now };
})
dispatch Action.remove_local_intent r t now = allow (r.phase is Phase.remote_absent) (record r {
  phase = Phase.local_removing;
  cleanup = record (r.cleanup) { local_remove_intent_at = some now };
})
dispatch Action.local_absent r t now = allow (r.phase is Phase.local_removing) (record r {
  phase = Phase.local_absent;
  cleanup = record (r.cleanup) { local_absent_at = some now };
})
dispatch Action.cleanup_pending r t now =
    allow
      (r.phase is Phase.fencing
        || r.phase is Phase.remote_reconciling
        || r.phase is Phase.local_removing)
      (record r { phase = Phase.cleanup_pending })
dispatch Action.resume_cleanup r t now =
    allow (r.phase is Phase.cleanup_pending) (record r { phase = resume_phase r.cleanup })
dispatch Action.tombstone r t now =
    allow (tombstonable r now) (record r { phase = Phase.tombstoned; tombstoned_at = some now })
dispatch Action.unrecognized r t now = invalid

-- A tombstoned record accepts no action.
unfoldable pub apply_transition : Record → Transition → ℕ → Outcome
unfolding dispatch
apply_transition r t now =
    if r.phase is Phase.tombstoned then invalid else dispatch t.action r t now
