-- ===== src/PoolState/Transition/Burial.antt =====
-- internal/pool/state/store.go: when applyTransition buries a record.
use ephemeral_action_runner.Shared.{
  ℕ, ◌≡◌, true, false, ok, arith, ◌⊎◌, inl, inr, is_some, is_empty,
}
use ephemeral_action_runner.PoolState.Types.{Phase, Action, Record, Transition, empty_receipt}
use ephemeral_action_runner.PoolState.Transition.{dispatch, apply_transition, leased}
use ephemeral_action_runner.PoolState.Transition.Phases.{accepted, tombstoned_absorbs}

-- Both removals were verified, or the provider never had anything to remove.
abbrev pub MayBury : Record → ℕ → Type 0
MayBury r now =
    (leased r now ≡ false)
    × (((r.phase ≡ Phase.local_absent)
          × (is_some r.cleanup.remote_absent_at ≡ true)
          × (is_some r.cleanup.local_absent_at ≡ true)
          × (r.recovery_inventory_uncertain ≡ false))
        ⊎ ((is_empty r.provider_id ≡ true) × (empty_receipt r.receipt ≡ true)))

dispatch-MayBury :
    (a : Action) (r : Record) (t : Transition) (now : ℕ) {s : Record}
    → dispatch a r t now ≡ ok s
    → s.phase ≡ Phase.tombstoned
    → (r.phase ≡ Phase.tombstoned) ⊎ MayBury r now
unfolding dispatch
dispatch-MayBury Action.abandon_create r t now h e = ground arith
dispatch-MayBury Action.tombstone r t now h e = ground arith
dispatch-MayBury _ r t now h e = ground arith

-- A record becomes tombstoned only when both removals are verified, no lease is active and its
-- recovery inventory is not uncertain, or when it never had an identity at the provider.
pub apply_transition-MayBury :
    (r : Record) (t : Transition) (now : ℕ) {s : Record}
    → apply_transition r t now ≡ ok s
    → s.phase ≡ Phase.tombstoned
    → MayBury r now
apply_transition-MayBury r t now h e =
    elim (dispatch-MayBury t.action r t now (accepted r t now h) e) [
      | inl buried ↦ absurd (cc (tombstoned_absorbs r t now buried))
      | inr may ↦ may
    ]
