-- ===== src/Pool/Cleanup/Rank.antt =====
-- How far a record is from the end of its cleanup, and what a transition of the cleanup does to that.
use ephemeral_action_runner.Shared.{ℕ, ◌≤◌, ◌<◌, Bool, true, false, ◌≡◌, arith, ok}
use ephemeral_action_runner.PoolState.Types.{Phase, Action, Record}
use ephemeral_action_runner.PoolState.Transition.{apply_transition, resume_phase}
use ephemeral_action_runner.Pool.Cleanup.Host.{SameLife}
use ephemeral_action_runner.Pool.Cleanup.Driver.{bare}

-- The transitions that are left; an uncertain inventory takes one more.
abbrev pub rank_of : Phase → Bool → ℕ
rank_of Phase.quarantined true = 8
rank_of Phase.quarantined false = 7
rank_of Phase.cleanup_pending u = 7
rank_of Phase.created u = 7
rank_of Phase.validating u = 7
rank_of Phase.standby u = 7
rank_of Phase.registering u = 7
rank_of Phase.ready u = 7
rank_of Phase.busy u = 7
rank_of Phase.draining u = 7
rank_of Phase.fencing u = 6
rank_of Phase.fenced u = 5
rank_of Phase.remote_reconciling u = 4
rank_of Phase.remote_absent u = 3
rank_of Phase.local_removing u = 2
rank_of Phase.local_absent u = 1
rank_of Phase.tombstoned u = 0
rank_of Phase.reserved u = 0
rank_of Phase.creating u = 0
rank_of Phase.unrecognized u = 0

abbrev pub rank : Record → ℕ
rank r = rank_of r.phase r.recovery_inventory_uncertain

pub rank_bound : (p : Phase) (u : Bool) → rank_of p u ≤ 8
rank_bound Phase.quarantined true = omega arith
rank_bound p u = ground arith

pub SameLife-rank : {r q : Record} → SameLife r q → rank q ≡ rank r
SameLife-rank l = ground (arith, l.phase, l.uncertain)

-- The transitions of the cleanup proper.
pub data IsForward : Action → Type 0 where
  observed : IsForward Action.recovery_inventory_observed
  fence : IsForward Action.fence_intent
  fenced : IsForward Action.fenced
  verify : IsForward Action.verify_remote_intent
  remote : IsForward Action.remote_absent
  intent : IsForward Action.remove_local_intent
  local : IsForward Action.local_absent
  resume : IsForward Action.resume_cleanup
  tombstone : IsForward Action.tombstone

-- Every accepted transition of the cleanup proper brings the record nearer to its end.
pub forward_falls :
    {a : Action}
    → IsForward a
    → (r : Record) (now : ℕ) {q : Record} → apply_transition r (bare a) now ≡ ok q
    → rank q < rank r
unfolding apply_transition resume_phase
forward_falls observed r now h = ground arith
forward_falls fence r now h = ground arith
forward_falls fenced r now h = ground arith
forward_falls verify r now h = ground arith
forward_falls remote r now h = ground arith
forward_falls intent r now h = ground arith
forward_falls local r now h = ground arith
forward_falls resume r now h = ground arith
forward_falls tombstone r now h = ground arith

-- The transitions by which a job is seen to start and to end.
pub data IsJob : Action → Type 0 where
  started : IsJob Action.job_started
  ended : IsJob Action.job_finished

-- They leave the record as far from its end as it was.
pub job_keeps :
    {a : Action}
    → IsJob a
    → (r : Record) (now : ℕ) {q : Record} → apply_transition r (bare a) now ≡ ok q
    → rank q ≡ rank r
unfolding apply_transition
job_keeps started r now h = ground arith
job_keeps ended r now h = ground arith

pub abandon_buries :
    (r : Record) (now : ℕ) {q : Record}
    → apply_transition r (bare Action.abandon_create) now ≡ ok q
    → q.phase ≡ Phase.tombstoned
unfolding apply_transition
abandon_buries r now h = ground arith
