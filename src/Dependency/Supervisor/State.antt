-- ===== src/Dependency/Supervisor/State.antt =====
-- internal/dependency/supervisor.go: the state of an incident, its file, and what the calls answer.
use ephemeral_action_runner.Shared.{
  ℕ, ℤ, Str, Bool, true, false, ◌==◌, if◌then◌else◌, Result, ok, err, codes,
}
use ephemeral_action_runner.Dependency.Failure.{Error}

-- The strings of the field Outcome; the last stands for every other.
pub data Outcome : Type 0 where
  unset retrying exhausted recovered unknown : Outcome

abbrev pub is_exhausted : Outcome → Bool
is_exhausted Outcome.exhausted = true
is_exhausted _ = false

abbrev pub is_recovered : Outcome → Bool
is_recovered Outcome.recovered = true
is_recovered _ = false

pub record IncidentState : Type 0 where
  pub schema_version : ℕ
  pub active : Bool
  pub outcome : Outcome
  pub policy : Str
  pub incident_started_at : ℕ
  pub attempt : ℕ
  pub stage : Str
  pub dependency : Str
  pub next_retry_at : ℕ
  pub retry_permitted : Bool
  pub deadline : ℕ
  pub pid : ℕ
  pub updated_at : ℕ
  pub last_safe_error : Str
  pub request_id : Str
  pub recovered_at : ℕ
  pub exhausted_at : ℕ

unfoldable pub no_incident : IncidentState
no_incident = record {
  schema_version = 0;
  active = false;
  outcome = Outcome.unset;
  policy = codes "";
  incident_started_at = 0;
  attempt = 0;
  stage = codes "";
  dependency = codes "";
  next_retry_at = 0;
  retry_permitted = false;
  deadline = 0;
  pid = 0;
  updated_at = 0;
  last_safe_error = codes "";
  request_id = codes "";
  recovered_at = 0;
  exhausted_at = 0;
}

pub record RetryDecision : Type 0 where
  pub incident_started : Bool
  pub attempt : ℕ
  pub delay : ℤ
  pub next_retry_at : ℕ
  pub deadline : ℕ
  pub retry_permitted : Bool

-- The error of the caller handed back, an exhausted incident, the same with a failed write, a failed
-- write, or the caller's context at its end.
pub data SupervisorError : Type 0 where
  terminal : Error → SupervisorError
  out_of_time : IncidentState → SupervisorError
  out_of_time_unsaved : IncidentState → SupervisorError
  unsaved canceled bad_policy no_path bad_state : SupervisorError

-- What stands in the state file.
pub data StateFile : Type 0 where
  missing unreadable : StateFile
  content : IncidentState → StateFile

abbrev pub state_schema : ℕ
state_schema = 1

unfoldable pub read_incident_state : StateFile → Result SupervisorError IncidentState
unfolding no_incident
read_incident_state StateFile.missing = ok no_incident
read_incident_state StateFile.unreadable = err SupervisorError.bad_state
read_incident_state (StateFile.content s) =
    if s.schema_version == state_schema then ok s else err SupervisorError.bad_state

-- What waiting comes to before the timer: ready at once, an error, or a delay after which the next
-- attempt is permitted or not.
pub data Waiting : Type 0 where
  ready : Waiting
  fails : SupervisorError → Waiting
  sleep : ℤ → Bool → Waiting
