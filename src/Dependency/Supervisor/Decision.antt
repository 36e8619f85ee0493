-- ===== src/Dependency/Supervisor/Decision.antt =====
-- internal/dependency/supervisor.go: what one call of Schedule decides.
use ephemeral_action_runner.Shared.{
  ℕ, ◌+◌, ◌≤◌, ◌<◌, ℤ, pos, Str, Bool, true, false, ◌≡◌, ◌≢◌, arith, ok, err, ◌==◌, add_ℤ, sub_ℕ,
  ◌<ℤ◌,
}
use ephemeral_action_runner.Dependency.Policy.{deadline}
use ephemeral_action_runner.Dependency.Backoff.{Float64, calculate_delay}
use ephemeral_action_runner.Dependency.Backoff.Bounds.{clamp_delay_to_deadline_bounds}
use ephemeral_action_runner.Dependency.Failure.{Error, is_typed_retryable, hint_from_failure}
use ephemeral_action_runner.Dependency.Supervisor.{
  Supervisor, IncidentState, RetryDecision, SupervisorError, StateFile, opened, decide, scheduled,
  schedule, with_policy_deadline,
}

module _ (f : Float64) (format : ℤ → Str) (safe_error : Error → Str) where
  -- An error that is not a typed retryable failure is handed back, and the incident stays as it was.
  pub schedule_terminal :
      (saves : Bool) (v : Supervisor f format safe_error) (now : ℕ) (stage : Str) (e : Error)
      (sample : f.Float)
      → is_typed_retryable e ≡ false
      → schedule f format safe_error saves v now stage e sample
        ≡ (v, err (SupervisorError.terminal e))
  unfolding schedule
  schedule_terminal saves v now stage e sample h = ground arith

  -- What an accepted failure leaves behind, against the incident as it was opened.
  pub record IsScheduled (v : Supervisor f format safe_error) (now : ℕ)
      (v' : Supervisor f format safe_error) (d : RetryDecision) : Type 0 where
    pub saved : v'.file ≡ StateFile.content v'.state
    pub runs : v'.state.active ≡ true
    pub start :
        v'.state.incident_started_at ≡ (opened f format safe_error v now).incident_started_at
    pub until : v'.state.deadline ≡ (opened f format safe_error v now).deadline
    pub counted :
        (d.attempt ≡ v'.state.attempt)
        × (v'.state.attempt ≡ (opened f format safe_error v now).attempt + 1)
    pub stored :
        (d.next_retry_at ≡ v'.state.next_retry_at) × (d.retry_permitted ≡ v'.state.retry_permitted)
    pub within :
        v'.state.deadline ≢ 0 → (now < v'.state.deadline) × (d.next_retry_at ≤ v'.state.deadline)
    pub permitted :
        v'.state.deadline ≢ 0 → d.retry_permitted ≡ true → d.next_retry_at < v'.state.deadline

  fits :
      (now deadline : ℕ) (delay : ℤ)
      → now < deadline
      → delay <ℤ sub_ℕ deadline now
      → add_ℤ now delay < deadline
  fits now deadline delay h k = ground arith

  decide_within :
      (v : Supervisor f format safe_error) (s : IncidentState) (now : ℕ) (e : Error)
      (sample : f.Float)
      → s.deadline ≢ 0
      → now < s.deadline
      → let d = decide f format safe_error v s now e sample in
        (add_ℤ now d.0 ≤ s.deadline) × (d.1 ≡ true → add_ℤ now d.0 < s.deadline)
  unfolding decide
  decide_within v s now e sample n h =
      let delay = calculate_delay f v.backoff (pos s.attempt) (hint_from_failure e) now sample in
      let (upper, exact, same) = clamp_delay_to_deadline_bounds delay now s.deadline n in
      let open' : (s.deadline == 0) ≡ false = ground arith in
      rw open' (upper h, λ p. rw (same p) (fits now s.deadline delay h (exact.0 p).1))

  opened-active :
      (v : Supervisor f format safe_error) (now : ℕ)
      → (opened f format safe_error v now).active ≡ true
  unfolding opened with_policy_deadline
  opened-active v now = ground arith

  -- Every decision to retry was written to the state file, counts the attempt, keeps the start and the
  -- deadline that the incident opened with, is made before the deadline if there is one, never waits
  -- past it, and permits the attempt only if it begins before it.
  pub schedule-IsScheduled :
      (saves : Bool) (v : Supervisor f format safe_error) (now : ℕ) (stage : Str) (e : Error)
      (sample : f.Float) {v' : Supervisor f format safe_error} {d : RetryDecision}
      → schedule f format safe_error saves v now stage e sample ≡ (v', ok d)
      → IsScheduled v now v' d
  unfolding schedule scheduled
  schedule-IsScheduled saves v now stage e sample {v'} {d} h =
      let s = opened f format safe_error v now in
      let r = decide f format safe_error v s now e sample in
      let state : v'.state ≡ scheduled f format safe_error v s now stage e r = ground arith in
      let active : s.active ≡ true = opened-active v now in
      let before : s.deadline ≢ 0 → now < s.deadline = λ n. ground arith in
      let next : d.next_retry_at ≡ add_ℤ now r.0 = ground arith in
      let allowed : d.retry_permitted ≡ r.1 = ground arith in
      let due : v'.state.deadline ≡ s.deadline = ground arith in
      let saved' : v'.file ≡ StateFile.content v'.state = ground arith in
      let inside : v'.state.deadline ≢ 0
          → (add_ℤ now r.0 ≤ s.deadline) × (r.1 ≡ true → add_ℤ now r.0 < s.deadline) =
        λ n. decide_within v s now e sample (ground arith) (before (ground arith)) in
      record {
        saved = saved';
        runs = ground arith;
        start = ground arith;
        until = due;
        counted = ground arith;
        stored = ground arith;
        within = λ n. let k = inside n in ground arith;
        permitted = λ n p. let k = inside n in ground arith;
      }
