-- ===== src/Examples/Supervisor.antt =====
-- One outage under a policy of an hour, through the calls of the supervisor.
use ephemeral_action_runner.Shared.{
  ◌+◌, ◌*◌, ℤ, pos, Str, true, false, some, ok, err, codes, ◌≡◌, ◌≢◌, refl, arith,
}
use ephemeral_action_runner.Dependency.Policy.{valid, deadline}
use ephemeral_action_runner.Dependency.Backoff.{
  normalize, default_backoff_settings, calculate_delay, clamp_delay_to_deadline, clamp_delay,
  apply_hint, nominal_delay, jitter_factor, second,
}
use ephemeral_action_runner.Dependency.Failure.{
  Error, is_typed_retryable, as_failure, hint_from_failure,
}
use ephemeral_action_runner.Dependency.Supervisor.{
  Supervisor, StateFile, SupervisorError, RetryDecision, Outcome, new_supervisor, no_incident,
  read_incident_state, schedule, scheduled, decide, opened, with_policy_deadline, mark_recovered,
  end_wait, Waiting, check_deadline,
}
use ephemeral_action_runner.Dependency.Supervisor.Decision.{
  IsScheduled, schedule-IsScheduled, schedule_terminal,
}
use ephemeral_action_runner.Dependency.Supervisor.Incident.{
  IsKept, scheduling, checking, running, on, done, after, due, ⟶-IsKept, new_supervisor-Calls,
  recovered_then_exhausted,
}
use ephemeral_action_runner.Examples.Dependency.{whole, an_hour, busy_server}

abbrev format : ℤ → Str
format d = codes "1h0m0s"

abbrev redact : Error → Str
redact e = codes "server busy"

abbrev outage : Error
outage = Error.bare_failure busy_server

abbrev fresh : Supervisor whole format redact
unfolding no_incident
fresh = record {
  policy = an_hour;
  backoff = normalize whole (default_backoff_settings whole);
  pid = 4;
  state = no_incident;
  file = StateFile.missing;
}

fresh_start :
    new_supervisor whole format redact an_hour
      (default_backoff_settings whole)
      true
      4
      100
      StateFile.missing
    ≡ ok fresh
unfolding new_supervisor valid read_incident_state no_incident with_policy_deadline
fresh_start = refl

abbrev retrying : Supervisor whole format redact
unfolding schedule
retrying = (schedule whole format redact true fresh 100 (codes "register") outage 1).0

plain_untyped : is_typed_retryable Error.plain ≡ false
unfolding is_typed_retryable as_failure
plain_untyped = refl

abbrev open_outage : Supervisor whole format redact
open_outage = record fresh {
  state = record (fresh.state) {
    active = true;
    outcome = Outcome.retrying;
    incident_started_at = 100;
    deadline = 100 + 3600 * second;
  };
}

schedule_terminal_example :
    schedule whole format redact true fresh 100 (codes "register") Error.plain 1
    ≡ (fresh, err (SupervisorError.terminal Error.plain))
schedule_terminal_example =
    schedule_terminal whole format redact true fresh 100 (codes "register") Error.plain 1
      plain_untyped

⟶-IsKept_example :
    IsKept whole format redact fresh
      (schedule whole format redact true fresh 100 (codes "register") outage 1).0
⟶-IsKept_example = ⟶-IsKept whole format redact (scheduling true 100 (codes "register") outage 1)

retrying_active :
    (schedule whole format redact true fresh 100 (codes "register") outage 1).0.state.active ≡ true
unfolding schedule scheduled decide opened with_policy_deadline is_typed_retryable as_failure
    deadline
retrying_active = refl

-- The incident is checked before its deadline, and runs on.
abbrev checked_once : Supervisor whole format redact
checked_once =
    (check_deadline whole format redact true
      (schedule whole format redact true fresh 100 (codes "register") outage 1).0 200).0

checked_active : checked_once.state.active ≡ true
unfolding check_deadline schedule scheduled decide opened with_policy_deadline is_typed_retryable
    as_failure deadline
checked_active = refl

new_supervisor-Calls_example :
    let v = (schedule whole format redact true fresh 100 (codes "register") outage 1).0 in
    (checked_once.state.incident_started_at ≡ v.state.incident_started_at)
    × (checked_once.state.deadline ≡ v.state.deadline)
    × (checked_once.state.deadline ≡ due an_hour v.state)
new_supervisor-Calls_example =
    new_supervisor-Calls whole format redact an_hour (default_backoff_settings whole) true 4 100
      StateFile.missing fresh_start (after done (scheduling true 100 (codes "register") outage 1))
      (on (running retrying_active) (checking true 200) checked_active)

abbrev decided : RetryDecision
decided = record {
  incident_started = true;
  attempt = 1;
  delay = pos (15 * second);
  next_retry_at = 100 + 15 * second;
  deadline = 100 + 3600 * second;
  retry_permitted = true;
}

retry_decided :
    schedule whole format redact true fresh 100 (codes "register") outage 1
    ≡ ((schedule whole format redact true fresh 100 (codes "register") outage 1).0, ok decided)
unfolding schedule scheduled decide opened with_policy_deadline is_typed_retryable as_failure
    deadline calculate_delay normalize default_backoff_settings clamp_delay_to_deadline clamp_delay
    apply_hint nominal_delay jitter_factor hint_from_failure
retry_decided = refl

schedule-IsScheduled_example :
    IsScheduled whole format redact fresh 100
      (schedule whole format redact true fresh 100 (codes "register") outage 1).0
      decided
schedule-IsScheduled_example =
    schedule-IsScheduled whole format redact true fresh 100 (codes "register") outage 1
      retry_decided

recovered_then_exhausted_example :
    ((mark_recovered whole format redact true open_outage 200).0.state.outcome ≡ Outcome.recovered)
    × ((end_wait whole format redact true
          (mark_recovered whole format redact true open_outage 200).0
          (Waiting.sleep (pos second) false)
          (some 300)).0.state.outcome
        ≡ Outcome.exhausted)
    × ((end_wait whole format redact true
          (mark_recovered whole format redact true open_outage 200).0
          (Waiting.sleep (pos second) false)
          (some 300)).1
        ≢ ok tt)
recovered_then_exhausted_example =
    recovered_then_exhausted whole format redact true true open_outage 200 300 (pos second) refl
      (λ p. ground arith) refl
