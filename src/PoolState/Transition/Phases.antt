-- ===== src/PoolState/Transition/Phases.antt =====
-- internal/pool/state/store.go: the phase diagram that applyTransition follows.
use ephemeral_action_runner.Shared.{ℕ, ◌≡◌, true, ok, err, arith}
use ephemeral_action_runner.PoolState.Types.{Phase, Action, Record, Transition, Cleanup, StoreError}
use ephemeral_action_runner.PoolState.Transition.{
  dispatch, apply_transition, resume_phase, fence_allowed, quarantine_allowed,
  recovery_inventory_uncertainty_allowed,
}

-- Before anything is removed.
pub data IsLive : Phase → Type 0 where
  created : IsLive Phase.created
  validating : IsLive Phase.validating
  standby : IsLive Phase.standby
  registering : IsLive Phase.registering
  ready : IsLive Phase.ready
  busy : IsLive Phase.busy
  draining : IsLive Phase.draining

-- From the first fence to the verified removal.
pub data IsCleaning : Phase → Type 0 where
  pending : IsCleaning Phase.cleanup_pending
  fencing : IsCleaning Phase.fencing
  fenced : IsCleaning Phase.fenced
  reconciling : IsCleaning Phase.remote_reconciling
  remote : IsCleaning Phase.remote_absent
  removing : IsCleaning Phase.local_removing

infix 40 ◌⟶◌
pub data ◌⟶◌ : Phase → Phase → Type 0 where
  create : Phase.reserved ⟶ Phase.creating
  give_up_reserved : Phase.reserved ⟶ Phase.tombstoned
  give_up_creating : Phase.creating ⟶ Phase.tombstoned
  give_up_quarantined : Phase.quarantined ⟶ Phase.tombstoned
  finish_create : Phase.creating ⟶ Phase.created
  validate : Phase.created ⟶ Phase.validating
  validated : Phase.validating ⟶ Phase.standby
  register : Phase.standby ⟶ Phase.registering
  registered : Phase.registering ⟶ Phase.ready
  start_job : Phase.ready ⟶ Phase.busy
  finish_job : Phase.busy ⟶ Phase.draining
  quarantine_reserved : Phase.reserved ⟶ Phase.quarantined
  quarantine_creating : Phase.creating ⟶ Phase.quarantined
  quarantine_live : {p : Phase} → IsLive p → p ⟶ Phase.quarantined
  quarantine_cleaning : {p : Phase} → IsCleaning p → p ⟶ Phase.quarantined
  stay_quarantined : Phase.quarantined ⟶ Phase.quarantined
  fence : {p : Phase} → IsLive p → p ⟶ Phase.fencing
  fence_quarantined : Phase.quarantined ⟶ Phase.fencing
  fenced : Phase.fencing ⟶ Phase.fenced
  verify : Phase.fenced ⟶ Phase.remote_reconciling
  remote_gone : Phase.remote_reconciling ⟶ Phase.remote_absent
  remove : Phase.remote_absent ⟶ Phase.local_removing
  local_gone : Phase.local_removing ⟶ Phase.local_absent
  interrupt_fencing : Phase.fencing ⟶ Phase.cleanup_pending
  interrupt_reconciling : Phase.remote_reconciling ⟶ Phase.cleanup_pending
  interrupt_removing : Phase.local_removing ⟶ Phase.cleanup_pending
  resume : (c : Cleanup) → Phase.cleanup_pending ⟶ resume_phase c
  bury : Phase.local_absent ⟶ Phase.tombstoned

ruleset edges = (
  create, give_up_reserved, give_up_creating, give_up_quarantined, finish_create, validate,
  ◌⟶◌.validated, register, ◌⟶◌.registered, start_job, finish_job, quarantine_reserved,
  quarantine_creating, stay_quarantined, fence_quarantined, ◌⟶◌.fenced, verify, remote_gone, remove,
  local_gone, interrupt_fencing, interrupt_reconciling, interrupt_removing, bury,
)

fence-⟶ : (p : Phase) → fence_allowed p ≡ true → p ⟶ Phase.fencing
unfolding fence_allowed
fence-⟶ Phase.created h = fence created
fence-⟶ Phase.validating h = fence validating
fence-⟶ Phase.standby h = fence standby
fence-⟶ Phase.registering h = fence registering
fence-⟶ Phase.ready h = fence ready
fence-⟶ Phase.busy h = fence busy
fence-⟶ Phase.draining h = fence draining
fence-⟶ Phase.quarantined h = fence_quarantined
fence-⟶ _ h = ground arith

quarantine-⟶ : (p : Phase) → quarantine_allowed p ≡ true → p ⟶ Phase.quarantined
unfolding quarantine_allowed
quarantine-⟶ Phase.reserved h = quarantine_reserved
quarantine-⟶ Phase.creating h = quarantine_creating
quarantine-⟶ Phase.created h = quarantine_live created
quarantine-⟶ Phase.validating h = quarantine_live validating
quarantine-⟶ Phase.standby h = quarantine_live standby
quarantine-⟶ Phase.registering h = quarantine_live registering
quarantine-⟶ Phase.ready h = quarantine_live ready
quarantine-⟶ Phase.busy h = quarantine_live busy
quarantine-⟶ Phase.draining h = quarantine_live draining
quarantine-⟶ _ h = ground arith

uncertain-⟶ : (p : Phase) → recovery_inventory_uncertainty_allowed p ≡ true → p ⟶ Phase.quarantined
unfolding recovery_inventory_uncertainty_allowed
uncertain-⟶ Phase.created h = quarantine_live created
uncertain-⟶ Phase.validating h = quarantine_live validating
uncertain-⟶ Phase.standby h = quarantine_live standby
uncertain-⟶ Phase.registering h = quarantine_live registering
uncertain-⟶ Phase.ready h = quarantine_live ready
uncertain-⟶ Phase.busy h = quarantine_live busy
uncertain-⟶ Phase.draining h = quarantine_live draining
uncertain-⟶ Phase.quarantined h = stay_quarantined
uncertain-⟶ Phase.cleanup_pending h = quarantine_cleaning pending
uncertain-⟶ Phase.fencing h = quarantine_cleaning fencing
uncertain-⟶ Phase.fenced h = quarantine_cleaning fenced
uncertain-⟶ Phase.remote_reconciling h = quarantine_cleaning reconciling
uncertain-⟶ Phase.remote_absent h = quarantine_cleaning remote
uncertain-⟶ Phase.local_removing h = quarantine_cleaning removing
uncertain-⟶ _ h = ground arith

dispatch-⟶ :
    (a : Action) (r : Record) (t : Transition) (now : ℕ) {s : Record}
    → dispatch a r t now ≡ ok s
    → r.phase ⟶ s.phase
unfolding dispatch
dispatch-⟶ Action.fence_intent r t now h = grind (arith, fence-⟶)
dispatch-⟶ Action.quarantine r t now h = grind (arith, quarantine-⟶)
dispatch-⟶ Action.recovery_inventory_uncertain r t now h = grind (arith, uncertain-⟶)
dispatch-⟶ Action.resume_cleanup r t now h = grind (arith, resume)
dispatch-⟶ Action.abandon_create r t now h = grind (arith, edges)
dispatch-⟶ Action.cleanup_pending r t now h = grind (arith, edges)
dispatch-⟶ _ r t now h = grind (arith, edges)

pub accepted :
    (r : Record) (t : Transition) (now : ℕ) {s : Record}
    → apply_transition r t now ≡ ok s
    → dispatch t.action r t now ≡ ok s
unfolding apply_transition
accepted r t now h = ground arith

-- Every accepted transition follows an edge of the diagram.
pub apply_transition-⟶ :
    (r : Record) (t : Transition) (now : ℕ) {s : Record}
    → apply_transition r t now ≡ ok s
    → r.phase ⟶ s.phase
apply_transition-⟶ r t now h = dispatch-⟶ t.action r t now (accepted r t now h)

-- A tombstoned record refuses every action.
pub tombstoned_absorbs :
    (r : Record) (t : Transition) (now : ℕ)
    → r.phase ≡ Phase.tombstoned
    → apply_transition r t now ≡ err StoreError.invalid_transition
unfolding apply_transition
tombstoned_absorbs r t now e = ground arith

dispatch-name :
    (a : Action) (r : Record) (t : Transition) (now : ℕ) {r' : Record}
    → dispatch a r t now ≡ ok r'
    → r'.name ≡ r.name
unfolding dispatch
dispatch-name Action.abandon_create r t now e = ground arith
dispatch-name _ r t now e = ground arith

pub apply_transition-name :
    (r : Record) (t : Transition) (now : ℕ) {s : Record}
    → apply_transition r t now ≡ ok s
    → s.name ≡ r.name
apply_transition-name r t now h = dispatch-name t.action r t now (accepted r t now h)
