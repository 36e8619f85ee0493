-- ===== src/Dependency/Supervisor.antt =====
-- internal/dependency/supervisor.go: the supervisor of an external outage. Each call takes the time
-- that it reads and whether its write to the state file goes through. How a duration is printed and how
-- an error's text is redacted are parameters.
pub mod Decision
pub mod Incident
pub mod State
unfoldable pub use State.*
use ephemeral_action_runner.Shared.{
  ℕ, ◌+◌, ℤ, pos, sub_ℕ, add_ℤ, Str, Bool, true, false, not, ◌&&◌, ◌||◌, ◌==◌, ltb, if◌then◌else◌,
  Option, none, some, Result, ok, err, codes, trim_space, is_empty,
}
use ephemeral_action_runner.Dependency.Policy.{
  Policy, valid, is_off, is_continuous, is_bounded, deadline, policy_string,
}
use ephemeral_action_runner.Dependency.Backoff.{
  Float64, BackoffSettings, normalize, calculate_delay, clamp_delay_to_deadline,
}
use ephemeral_action_runner.Dependency.Failure.{
  Error, Failure, as_failure, is_typed_retryable, hint_from_failure, sanitize_request_id,
}

module _ (f : Float64) (format : ℤ → Str) (safe_error : Error → Str) where
  pub record Supervisor : Type 0 where
    pub policy : Policy
    pub backoff : BackoffSettings f
    pub pid : ℕ
    pub state : IncidentState
    pub file : StateFile

  unfoldable pub with_policy_deadline : Policy → IncidentState → IncidentState
  with_policy_deadline p s = record s {
    policy = policy_string format p;
    deadline = (if is_bounded p then deadline p s.incident_started_at else 0);
  }

  -- writeLocked, where the write goes through or not.
  abbrev write : Bool → Supervisor → Supervisor
  write saves v = record v { file = (if saves then StateFile.content v.state else v.file) }

  unfoldable pub exhausted_state : ℕ → ℕ → IncidentState → IncidentState
  exhausted_state pid now s = record s {
    active = false;
    outcome = Outcome.exhausted;
    next_retry_at = 0;
    retry_permitted = false;
    pid = pid;
    updated_at = now;
    exhausted_at = now;
  }

  unfoldable pub exhaust : Bool → ℕ → Supervisor → Supervisor × SupervisorError
  exhaust saves now v =
      let s = exhausted_state v.pid now v.state in
      (
        write saves (record v { state = s }),
        if saves then SupervisorError.out_of_time s else SupervisorError.out_of_time_unsaved s,
      )

  -- `path_given` is whether the options name a file, `pid` the process's if the options name none.
  unfoldable pub new_supervisor :
      Policy → BackoffSettings f → Bool → ℕ → ℕ → StateFile → Result SupervisorError Supervisor
  new_supervisor p b path_given pid now file =
      if not (valid p)
      then err SupervisorError.bad_policy
      else if not path_given
      then err SupervisorError.no_path
      else (elim (read_incident_state file) [
        | err e ↦ err e
        | ok s ↦
            let v : Supervisor = record {
              policy = p;
              backoff = normalize f b;
              pid = pid;
              state = s;
              file = file;
            } in
            let due = with_policy_deadline p s in
            if s.active
            then ok (record v { state = due })
            else if is_exhausted s.outcome && not (is_off p)
            then if is_continuous p || not (due.deadline == 0) && ltb now due.deadline
              then ok (record v {
                state = record due {
                  active = true;
                  outcome = Outcome.retrying;
                  next_retry_at = 0;
                  retry_permitted = true;
                };
              })
              else ok (record v { state = due })
            else ok v
      ])

  -- The time left of a cooldown, if one runs.
  unfoldable pub cooldown : Supervisor → ℕ → ℤ × Bool
  cooldown v now =
      let s = v.state in
      if not s.active || s.next_retry_at == 0 || not (ltb now s.next_retry_at)
      then (pos 0, false)
      else (sub_ℕ s.next_retry_at now, true)

  -- The deadline that a context for an attempt gets, if it gets one.
  unfoldable pub attempt_deadline : Supervisor → Option ℕ
  attempt_deadline v =
      if v.state.active && not (v.state.deadline == 0) then some v.state.deadline else none

  new_incident : Policy → ℕ → IncidentState
  unfolding no_incident
  new_incident p now = record no_incident {
    schema_version = state_schema;
    active = true;
    outcome = Outcome.retrying;
    policy = policy_string format p;
    incident_started_at = now;
  }

  -- The state of the incident as it is when the deadline is looked at.
  unfoldable pub opened : Supervisor → ℕ → IncidentState
  unfolding new_incident
  opened v now =
      with_policy_deadline v.policy (if v.state.active then v.state else new_incident v.policy now)

  dependency_of : Option Failure → Str
  dependency_of none = codes "external"
  dependency_of (some x) = if is_empty x.service then codes "external" else x.service

  request_of : Option Failure → Str
  request_of none = codes ""
  request_of (some x) = sanitize_request_id x.request_id

  unfoldable pub scheduled : Supervisor → IncidentState → ℕ → Str → Error → ℤ × Bool → IncidentState
  unfolding dependency_of request_of
  scheduled v s now stage e (delay, permitted) = record s {
    attempt = s.attempt + 1;
    stage = trim_space stage;
    dependency = dependency_of (as_failure e);
    request_id = request_of (as_failure e);
    next_retry_at = add_ℤ now delay;
    retry_permitted = permitted;
    pid = v.pid;
    updated_at = now;
    last_safe_error = safe_error e;
  }

  unfoldable pub decide : Supervisor → IncidentState → ℕ → Error → f.Float → ℤ × Bool
  decide v s now e sample =
      let delay = calculate_delay f v.backoff (pos s.attempt) (hint_from_failure e) now sample in
      if s.deadline == 0 then (delay, true) else clamp_delay_to_deadline delay now s.deadline

  unfoldable pub schedule :
      Bool
      → Supervisor
      → ℕ
      → Str
      → Error
      → f.Float
      → Supervisor × Result SupervisorError RetryDecision
  schedule saves v now stage e sample =
      let s = opened v now in
      let d = decide v s now e sample in
      let t = scheduled v s now stage e d in
      let out = exhaust saves now (record v { state = s }) in
      if not (is_typed_retryable e)
      then (v, err (SupervisorError.terminal e))
      else if not (s.deadline == 0) && not (ltb now s.deadline)
      then (out.0, err out.1)
      else (
        write saves (record v { state = t }),
        if saves
            then ok (record {
              incident_started = not v.state.active;
              attempt = t.attempt;
              delay = d.0;
              next_retry_at = t.next_retry_at;
              deadline = t.deadline;
              retry_permitted = d.1;
            })
            else err SupervisorError.unsaved,
      )

  -- WaitUntilReady up to the timer.
  unfoldable pub begin_wait : Bool → Supervisor → ℕ → Supervisor × Waiting
  begin_wait saves v now =
      let s = with_policy_deadline v.policy v.state in
      let out = exhaust saves now (record v { state = s }) in
      let at_deadline =
        not (s.deadline == 0) && (s.next_retry_at == 0 || ltb s.deadline s.next_retry_at) in
      let wake = if at_deadline then s.deadline else s.next_retry_at in
      let permitted = if at_deadline then false else s.retry_permitted in
      let t = record s { pid = v.pid; updated_at = now } in
      if is_exhausted v.state.outcome && not v.state.active && not (is_off v.policy)
      then (v, Waiting.fails (SupervisorError.out_of_time v.state))
      else if not v.state.active
      then (v, Waiting.ready)
      else if not (s.deadline == 0) && not (ltb now s.deadline)
      then (out.0, Waiting.fails out.1)
      else if wake == 0 || not (ltb now wake)
      then (record v { state = s }, Waiting.ready)
      else (
        write saves (record v { state = t }),
        if saves
            then Waiting.sleep (sub_ℕ wake now) permitted
            else Waiting.fails SupervisorError.unsaved,
      )

  -- The rest, after the timer fired at a time, or after the caller's context ended.
  unfoldable pub end_wait :
      Bool → Supervisor → Waiting → Option ℕ → Supervisor × Result SupervisorError (Unit {0})
  end_wait saves v Waiting.ready woken = (v, ok tt)
  end_wait saves v (Waiting.fails e) woken = (v, err e)
  end_wait saves v (Waiting.sleep delay permitted) none = (v, err SupervisorError.canceled)
  end_wait saves v (Waiting.sleep delay true) (some now) = (v, ok tt)
  end_wait saves v (Waiting.sleep delay false) (some now) =
      let (v', e) = exhaust saves now v in (v', err e)

  unfoldable pub check_deadline :
      Bool → Supervisor → ℕ → Supervisor × Result SupervisorError (Unit {0})
  check_deadline saves v now =
      let out = exhaust saves now v in
      if is_exhausted v.state.outcome && not v.state.active && not (is_off v.policy)
      then (v, err (SupervisorError.out_of_time v.state))
      else if not v.state.active || v.state.deadline == 0
      then (v, ok tt)
      else if ltb now v.state.deadline
      then (v, ok tt)
      else (out.0, err out.1)

  unfoldable pub mark_recovered :
      Bool → Supervisor → ℕ → Supervisor × Result SupervisorError (Unit {0})
  mark_recovered saves v now =
      let s = record (v.state) {
        active = false;
        outcome = Outcome.recovered;
        next_retry_at = 0;
        retry_permitted = false;
        pid = v.pid;
        updated_at = now;
        recovered_at = now;
      } in
      if v.state.incident_started_at == 0 || is_recovered v.state.outcome then (v, ok tt) else (
        write saves (record v { state = s }),
        if saves then ok tt else err SupervisorError.unsaved,
      )
