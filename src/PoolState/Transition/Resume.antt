-- ===== src/PoolState/Transition/Resume.antt =====
-- internal/pool/state/store.go: the cleanup-pending and resume-cleanup actions, which set a cleanup
-- aside and take it up again by the stamps of the record.
use ephemeral_action_runner.Shared.{
  ℕ, ◌≡◌, ◌≢◌, refl, true, false, ok, arith, ◌⊎◌, is_some, is_empty, ◌>>=◌, [], some, pos,
}
use ephemeral_action_runner.PoolState.Types.{
  Phase, Action, Record, Transition, Cleanup, no_receipt, no_cleanup,
}
use ephemeral_action_runner.PoolState.Transition.{Outcome, dispatch, apply_transition, resume_phase}
use ephemeral_action_runner.PoolState.Transition.Phases.{accepted}

abbrev pub bare : Action → Transition
bare a = record {
  action = a;
  provider_id = [];
  receipt = no_receipt;
  runner_id = pos 0;
  reason = [];
}

-- The latest stamp of the record is the one of its phase, when its cleanup runs for the first time.
abbrev pub IsAligned : Phase → Cleanup → Type 0
IsAligned Phase.fencing c = resume_phase c ≡ Phase.fencing
IsAligned Phase.remote_reconciling c = resume_phase c ≡ Phase.remote_reconciling
IsAligned Phase.local_removing c = resume_phase c ≡ Phase.local_removing
IsAligned Phase.cleanup_pending c =
    (resume_phase c ≢ Phase.local_absent) × (resume_phase c ≢ Phase.remote_absent)
IsAligned Phase.fenced c = resume_phase c ≡ Phase.fencing
IsAligned Phase.remote_absent c = resume_phase c ≡ Phase.remote_absent
IsAligned Phase.local_absent c = resume_phase c ≡ Phase.local_absent
IsAligned Phase.tombstoned c = resume_phase c ≡ Phase.local_absent
IsAligned _ c = resume_phase c ≡ Phase.fencing

dispatch-IsAligned :
    (a : Action) (r : Record) (t : Transition) (now : ℕ) {s : Record}
    → dispatch a r t now ≡ ok s
    → a ≢ Action.recovery_inventory_uncertain
    → IsAligned r.phase r.cleanup
    → IsAligned s.phase s.cleanup
unfolding dispatch
dispatch-IsAligned Action.recovery_inventory_uncertain r t now h n v = absurd (n refl)
dispatch-IsAligned Action.fence_intent r t now h n v = ground arith
dispatch-IsAligned _ r t now h n v = ground arith

-- Every action but recovery-inventory-uncertain keeps the latest stamp the one of the phase.
pub apply_transition-IsAligned :
    (r : Record) (t : Transition) (now : ℕ) {s : Record}
    → apply_transition r t now ≡ ok s
    → t.action ≢ Action.recovery_inventory_uncertain
    → IsAligned r.phase r.cleanup
    → IsAligned s.phase s.cleanup
apply_transition-IsAligned r t now h n v =
    dispatch-IsAligned t.action r t now (accepted r t now h) n v

pub set_aside : Record → ℕ → ℕ → Outcome
unfolding apply_transition
set_aside r now later = apply_transition r (bare Action.cleanup_pending) now >>= λ s.
    apply_transition s (bare Action.resume_cleanup) later

-- Accepted transitions, each at some time, none of which reports an uncertain inventory.
pub data History (r : Record) : Record → Type 0 where
  start : History r r
  then :
      {s u : Record}
      → History r s
      → (t : Transition) (now : ℕ) → t.action ≢ Action.recovery_inventory_uncertain
      → apply_transition s t now ≡ ok u
      → History r u

History-IsAligned :
    {r s : Record} → IsAligned r.phase r.cleanup → History r s → IsAligned s.phase s.cleanup
History-IsAligned v History.start = v
History-IsAligned v (History.then h t now n e) =
    apply_transition-IsAligned _ t now e n (History-IsAligned v h)

reserved-IsAligned :
    (r : Record) → r.phase ≡ Phase.reserved → r.cleanup ≡ no_cleanup → IsAligned r.phase r.cleanup
unfolding resume_phase
reserved-IsAligned r p c = rw (p, c) refl

aligned_round_trip :
    (r : Record) (now later : ℕ)
    → (r.phase ≡ Phase.fencing)
      ⊎ ((r.phase ≡ Phase.remote_reconciling) ⊎ (r.phase ≡ Phase.local_removing))
    → IsAligned r.phase r.cleanup
    → set_aside r now later ≡ ok r
unfolding set_aside
aligned_round_trip r now later h v = ground arith

-- When a record was reserved without stamps, and reached one of the three intent phases of its cleanup
-- by accepted transitions, none of which reported an uncertain inventory, then a cleanup that is set
-- aside there and taken up again comes back to the same record.
pub set_aside_round_trip :
    (r s : Record) (now later : ℕ)
    → r.phase ≡ Phase.reserved
    → r.cleanup ≡ no_cleanup
    → History r s
    → (s.phase ≡ Phase.fencing)
      ⊎ ((s.phase ≡ Phase.remote_reconciling) ⊎ (s.phase ≡ Phase.local_removing))
    → set_aside s now later ≡ ok s
set_aside_round_trip r s now later p c h i =
    aligned_round_trip s now later i (History-IsAligned (reserved-IsAligned r p c) h)

-- A record is quarantined because the inventory was uncertain, observed again, and its cleanup starts
-- anew up to the verification of GitHub's side.
pub clean_anew : Record → Transition → ℕ → Outcome
unfolding apply_transition
clean_anew r t now = apply_transition r t now >>= λ s.
    apply_transition s (bare Action.recovery_inventory_observed) now >>= λ u.
    apply_transition u (bare Action.fence_intent) now >>= λ v.
    apply_transition v (bare Action.fenced) now >>= λ w.
    apply_transition w (bare Action.verify_remote_intent) now

again : Record → Transition → ℕ → Record
again r t now = record r {
  phase = Phase.remote_reconciling;
  quarantine = some (record { reason = t.reason; reported_at = now });
  recovery_inventory_uncertain = false;
  cleanup = record (r.cleanup) { fence_intent_at = some now; remote_verify_at = some now };
}

-- When a record that had reached its local removal is quarantined because the inventory was uncertain
-- and its cleanup starts anew, then a verification of GitHub's side that is set aside is not taken up
-- again: the stale stamps send the record on to the local removal.
pub clean_anew_skips :
    (r : Record) (t : Transition) (now later : ℕ)
    → r.phase ≡ Phase.local_removing
    → is_some r.cleanup.local_remove_intent_at ≡ true
    → is_some r.cleanup.local_absent_at ≡ false
    → is_empty r.provider_id ≡ false
    → t.action ≡ Action.recovery_inventory_uncertain
    → is_empty t.reason ≡ false
    → (s : Record) × (u : Record) × (clean_anew r t now ≡ ok s)
      × (s.phase ≡ Phase.remote_reconciling)
      × (set_aside s now later ≡ ok u)
      × (u.phase ≡ Phase.local_removing)
unfolding set_aside clean_anew again
clean_anew_skips r t now later e i l n a m = (
  again r t now,
  record (again r t now) { phase = Phase.local_removing },
  ground arith,
  refl,
  ground arith,
  refl,
)
