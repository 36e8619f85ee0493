-- ===== src/Pool/Cleanup/Identity.antt =====
-- Which transitions leave the identities of a record as they are.
use ephemeral_action_runner.Shared.{ℕ, Bool, true, false, ◌≡◌, arith, ok}
use ephemeral_action_runner.PoolState.Types.{Action, Record, Transition}
use ephemeral_action_runner.PoolState.Transition.{apply_transition, resume_phase}

-- All but the two that record an identity.
abbrev pub is_inner : Action → Bool
is_inner Action.created = false
is_inner Action.registered = false
is_inner _ = true

pub record SameIdentity (r q : Record) : Type 0 where
  pub provider : q.provider_id ≡ r.provider_id
  pub runner : q.git_hub ≡ r.git_hub

pub inner_keeps :
    (a : Action) (r : Record) (t : Transition) (now : ℕ) {q : Record}
    → is_inner a ≡ true
    → apply_transition r (record t { action = a }) now ≡ ok q
    → SameIdentity r q
unfolding apply_transition resume_phase
inner_keeps Action.create_intent r t now i e = record {
  provider = ground (arith, e);
  runner = ground (arith, e);
}
inner_keeps Action.abandon_create r t now i e = record {
  provider = ground (arith, e);
  runner = ground (arith, e);
}
inner_keeps Action.created r t now i e = absurd (ground (arith, i))
inner_keeps Action.validate_intent r t now i e = record {
  provider = ground (arith, e);
  runner = ground (arith, e);
}
inner_keeps Action.validated r t now i e = record {
  provider = ground (arith, e);
  runner = ground (arith, e);
}
inner_keeps Action.register_intent r t now i e = record {
  provider = ground (arith, e);
  runner = ground (arith, e);
}
inner_keeps Action.registered r t now i e = absurd (ground (arith, i))
inner_keeps Action.job_started r t now i e = record {
  provider = ground (arith, e);
  runner = ground (arith, e);
}
inner_keeps Action.job_finished r t now i e = record {
  provider = ground (arith, e);
  runner = ground (arith, e);
}
inner_keeps Action.quarantine r t now i e = record {
  provider = ground (arith, e);
  runner = ground (arith, e);
}
inner_keeps Action.recovery_inventory_uncertain r t now i e = record {
  provider = ground (arith, e);
  runner = ground (arith, e);
}
inner_keeps Action.recovery_inventory_observed r t now i e = record {
  provider = ground (arith, e);
  runner = ground (arith, e);
}
inner_keeps Action.fence_intent r t now i e = record {
  provider = ground (arith, e);
  runner = ground (arith, e);
}
inner_keeps Action.fenced r t now i e = record {
  provider = ground (arith, e);
  runner = ground (arith, e);
}
inner_keeps Action.verify_remote_intent r t now i e = record {
  provider = ground (arith, e);
  runner = ground (arith, e);
}
inner_keeps Action.remote_absent r t now i e = record {
  provider = ground (arith, e);
  runner = ground (arith, e);
}
inner_keeps Action.remove_local_intent r t now i e = record {
  provider = ground (arith, e);
  runner = ground (arith, e);
}
inner_keeps Action.local_absent r t now i e = record {
  provider = ground (arith, e);
  runner = ground (arith, e);
}
inner_keeps Action.cleanup_pending r t now i e = record {
  provider = ground (arith, e);
  runner = ground (arith, e);
}
inner_keeps Action.resume_cleanup r t now i e = record {
  provider = ground (arith, e);
  runner = ground (arith, e);
}
inner_keeps Action.tombstone r t now i e = record {
  provider = ground (arith, e);
  runner = ground (arith, e);
}
inner_keeps Action.unrecognized r t now i e = absurd (ground (arith, e))
