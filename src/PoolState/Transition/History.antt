-- ===== src/PoolState/Transition/History.antt =====
-- internal/pool/state/store.go: what holds of a record after any history of accepted transitions.
use ephemeral_action_runner.Shared.{ℕ, pos, ◌<ℤ◌, ◌≡◌, true, ok, arith, ◌⊎◌, is_some}
use ephemeral_action_runner.PoolState.Types.{Phase, Action, Record, Transition}
use ephemeral_action_runner.PoolState.Transition.{dispatch, apply_transition}
use ephemeral_action_runner.PoolState.Transition.Phases.{accepted}

-- One accepted transition, at some time.
pub data Step (r s : Record) : Type 0 where
  step : (t : Transition) (now : ℕ) → apply_transition r t now ≡ ok s → Step r s

pub data Reach (r : Record) : Record → Type 0 where
  here : Reach r r
  next : {s u : Record} → Reach r s → Step s u → Reach r u

-- A stage of the cleanup is stamped only where the stage before it is, each phase of the cleanup has its
-- stamp, a tombstone has the stamps of the tombstone and of the local removal, a record that is being created is marked uncertain, and a runner that
-- serves jobs has an identity at GitHub.
pub record IsStamped (r : Record) : Type 0 where
  pub verified :
      is_some r.cleanup.remote_absent_at ≡ true → is_some r.cleanup.remote_verify_at ≡ true
  pub intended :
      is_some r.cleanup.local_remove_intent_at ≡ true → is_some r.cleanup.remote_absent_at ≡ true
  pub removed :
      is_some r.cleanup.local_absent_at ≡ true → is_some r.cleanup.local_remove_intent_at ≡ true
  pub reconciling : r.phase ≡ Phase.remote_reconciling → is_some r.cleanup.remote_verify_at ≡ true
  pub remote : r.phase ≡ Phase.remote_absent → is_some r.cleanup.remote_absent_at ≡ true
  pub removing : r.phase ≡ Phase.local_removing → is_some r.cleanup.local_remove_intent_at ≡ true
  pub gone : r.phase ≡ Phase.local_absent → is_some r.cleanup.local_absent_at ≡ true
  pub buried :
      r.phase ≡ Phase.tombstoned
      → (is_some r.tombstoned_at ≡ true) × (is_some r.cleanup.local_absent_at ≡ true)
  pub creating : r.phase ≡ Phase.creating → r.create_outcome_uncertain ≡ true
  pub serving :
      (r.phase ≡ Phase.ready) ⊎ ((r.phase ≡ Phase.busy) ⊎ (r.phase ≡ Phase.draining))
      → pos 0 <ℤ r.git_hub.runner_id

dispatch-IsStamped :
    (a : Action) (r : Record) (t : Transition) (now : ℕ) {s : Record}
    → dispatch a r t now ≡ ok s
    → IsStamped r
    → IsStamped s
unfolding dispatch
dispatch-IsStamped Action.abandon_create r t now h v = ground arith
dispatch-IsStamped _ r t now h v = ground arith

pub apply_transition-IsStamped :
    (r : Record) (t : Transition) (now : ℕ) {s : Record}
    → apply_transition r t now ≡ ok s
    → IsStamped r
    → IsStamped s
apply_transition-IsStamped r t now h v = dispatch-IsStamped t.action r t now (accepted r t now h) v

-- If of a record, (1) the absence of the runner is stamped only where its verification is, the intent
-- of the local removal only where the absence of the runner is, and the local absence only where that
-- intent is, (2) each of the four last phases of a cleanup has its stamp and a tombstone has the stamps
-- of the tombstone and of the local absence, (3) a creation in progress is marked as uncertain, and (4) a
-- runner that is ready, busy or draining has a positive ID at GitHub, then the same holds after every
-- history of accepted transitions. It is about which stamps stand, not about their times.
pub Reach-IsStamped : {r s : Record} → IsStamped r → Reach r s → IsStamped s
Reach-IsStamped v here = v
Reach-IsStamped v (next p (step t now h)) =
    apply_transition-IsStamped _ t now h (Reach-IsStamped v p)
