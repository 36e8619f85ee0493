-- ===== src/Dependency/Supervisor/Incident.antt =====
-- internal/dependency/supervisor.go: the incident that the supervisor keeps through its calls, as a step
-- relation whose steps are the calls, each at its own time and with its write saved or not.
use ephemeral_action_runner.Shared.{
  ℕ, ℤ, Str, Bool, true, false, ◌≡◌, ◌≢◌, refl, arith, Option, some, ok, if◌then◌else◌, ◌⊎◌, ◌∙◌,
  ap, sym,
}
use ephemeral_action_runner.Dependency.Policy.{Policy, is_bounded, deadline}
use ephemeral_action_runner.Dependency.Backoff.{Float64, BackoffSettings}
use ephemeral_action_runner.Dependency.Failure.{Error}
use ephemeral_action_runner.Dependency.Supervisor.{
  Supervisor, IncidentState, StateFile, Outcome, Waiting, opened, scheduled, schedule, exhaust,
  with_policy_deadline, exhausted_state, begin_wait, end_wait, check_deadline, mark_recovered,
  new_supervisor,
}

abbrev pub due : Policy → IncidentState → ℕ
due p s = if is_bounded p then deadline p s.incident_started_at else 0

module _ (f : Float64) (format : ℤ → Str) (safe_error : Error → Str) where
  -- While an incident runs, its deadline is the one that the policy gives from its start, none if the
  -- policy is not bounded.
  abbrev pub IsDue : Supervisor f format safe_error → Type 0
  IsDue v = v.state.active ≡ true → v.state.deadline ≡ due v.policy v.state

  -- One call of the supervisor, at some time, with its write saved or not.
  infixl 5 ◌⟶◌
  pub data ◌⟶◌ (v : Supervisor f format safe_error) : Supervisor f format safe_error → Type 0 where
    scheduling :
        (saves : Bool) (now : ℕ) (stage : Str) (e : Error) (sample : f.Float)
        → v ⟶ (schedule f format safe_error saves v now stage e sample).0
    waiting : (saves : Bool) (now : ℕ) → v ⟶ (begin_wait f format safe_error saves v now).0
    woken :
        (saves : Bool) (w : Waiting) (at : Option ℕ)
        → v ⟶ (end_wait f format safe_error saves v w at).0
    checking : (saves : Bool) (now : ℕ) → v ⟶ (check_deadline f format safe_error saves v now).0
    recovering : (saves : Bool) (now : ℕ) → v ⟶ (mark_recovered f format safe_error saves v now).0

  pub data Calls (v : Supervisor f format safe_error)
      : Supervisor f format safe_error → Type 0 where
    done : Calls v v
    after : {w u : Supervisor f format safe_error} → Calls v w → w ⟶ u → Calls v u

  -- One call keeps the policy, the deadline of an incident that goes on, and its start, and closes an
  -- incident as exhausted or as recovered only.
  pub record IsKept (v w : Supervisor f format safe_error) : Type 0 where
    pub policy : w.policy ≡ v.policy
    pub on_time : IsDue v → IsDue w
    pub start :
        v.state.active ≡ true
        → w.state.active ≡ true
        → w.state.incident_started_at ≡ v.state.incident_started_at
    pub closed :
        v.state.active ≡ true
        → w.state.active ≡ false
        → (w.state.outcome ≡ Outcome.exhausted) ⊎ (w.state.outcome ≡ Outcome.recovered)

  schedule-IsKept :
      (saves : Bool) (v : Supervisor f format safe_error) (now : ℕ) (stage : Str) (e : Error)
      (sample : f.Float)
      → IsKept v (schedule f format safe_error saves v now stage e sample).0
  unfolding schedule scheduled opened with_policy_deadline exhaust exhausted_state
  schedule-IsKept saves v now stage e sample = record {
    policy = ground arith;
    on_time = λ d a. ground arith;
    start = λ a n. ground arith;
    closed = λ a n. ground arith;
  }

  begin_wait-IsKept :
      (saves : Bool) (v : Supervisor f format safe_error) (now : ℕ)
      → IsKept v (begin_wait f format safe_error saves v now).0
  unfolding begin_wait with_policy_deadline exhaust exhausted_state
  begin_wait-IsKept saves v now = record {
    policy = ground arith;
    on_time = λ d a. ground arith;
    start = λ a n. ground arith;
    closed = λ a n. ground arith;
  }

  end_wait-IsKept :
      (saves : Bool) (v : Supervisor f format safe_error) (w : Waiting) (at : Option ℕ)
      → IsKept v (end_wait f format safe_error saves v w at).0
  unfolding end_wait exhaust exhausted_state
  end_wait-IsKept saves v w at = record {
    policy = ground arith;
    on_time = λ d a. ground arith;
    start = λ a n. ground arith;
    closed = λ a n. ground arith;
  }

  check_deadline-IsKept :
      (saves : Bool) (v : Supervisor f format safe_error) (now : ℕ)
      → IsKept v (check_deadline f format safe_error saves v now).0
  unfolding check_deadline exhaust exhausted_state
  check_deadline-IsKept saves v now = record {
    policy = ground arith;
    on_time = λ d a. ground arith;
    start = λ a n. ground arith;
    closed = λ a n. ground arith;
  }

  mark_recovered-IsKept :
      (saves : Bool) (v : Supervisor f format safe_error) (now : ℕ)
      → IsKept v (mark_recovered f format safe_error saves v now).0
  unfolding mark_recovered
  mark_recovered-IsKept saves v now = record {
    policy = ground arith;
    on_time = λ d a. ground arith;
    start = λ a n. ground arith;
    closed = λ a n. ground arith;
  }

  -- One call of the supervisor keeps the policy, keeps the start of an incident that goes on and its
  -- deadline at what the policy gives, and closes an incident as exhausted or as recovered only.
  pub ⟶-IsKept : {v w : Supervisor f format safe_error} → v ⟶ w → IsKept v w
  ⟶-IsKept (scheduling saves now stage e sample) = schedule-IsKept saves _ now stage e sample
  ⟶-IsKept (waiting saves now) = begin_wait-IsKept saves _ now
  ⟶-IsKept (woken saves w at) = end_wait-IsKept saves _ w at
  ⟶-IsKept (checking saves now) = check_deadline-IsKept saves _ now
  ⟶-IsKept (recovering saves now) = mark_recovered-IsKept saves _ now

  new_supervisor-IsDue :
      (p : Policy) (b : BackoffSettings f) (path_given : Bool) (pid now : ℕ) (file : StateFile)
      {v : Supervisor f format safe_error}
      → new_supervisor f format safe_error p b path_given pid now file ≡ ok v
      → (v.policy ≡ p) × IsDue v
  unfolding new_supervisor with_policy_deadline
  new_supervisor-IsDue p b path_given pid now file h = (ground arith, λ a. ground arith)

  Calls-kept :
      {v w : Supervisor f format safe_error} → Calls v w → IsDue v → (w.policy ≡ v.policy) × IsDue w
  Calls-kept done h = (refl, h)
  Calls-kept (after c s) h =
      let k = Calls-kept c h in let m = ⟶-IsKept s in (m.policy ∙ k.0, m.on_time k.1)

  -- Calls through all of which one incident runs.
  pub data Lasts (v : Supervisor f format safe_error)
      : Supervisor f format safe_error → Type 0 where
    running : v.state.active ≡ true → Lasts v v
    on :
        {w u : Supervisor f format safe_error}
        → Lasts v w
        → w ⟶ u
        → u.state.active ≡ true
        → Lasts v u

  Lasts-active : {v w : Supervisor f format safe_error} → Lasts v w → w.state.active ≡ true
  Lasts-active (Lasts.running a) = a
  Lasts-active (Lasts.on l s a) = a

  Lasts-start :
      {v w : Supervisor f format safe_error}
      → Lasts v w
      → w.state.incident_started_at ≡ v.state.incident_started_at
  Lasts-start (Lasts.running a) = refl
  Lasts-start (Lasts.on l s a) = (⟶-IsKept s).start (Lasts-active l) a ∙ Lasts-start l

  Lasts-Calls : {v u w : Supervisor f format safe_error} → Calls v u → Lasts u w → Calls v w
  Lasts-Calls c (Lasts.running a) = c
  Lasts-Calls c (Lasts.on l s a) = after (Lasts-Calls c l) s

  due-eq :
      (p : Policy) (s t : IncidentState)
      → s.incident_started_at ≡ t.incident_started_at
      → due p s ≡ due p t
  due-eq p s t e = rw e refl

  started : {v w : Supervisor f format safe_error} → Lasts v w → v.state.active ≡ true
  started (Lasts.running a) = a
  started (Lasts.on l s a) = started l

  running_due :
      (p : Policy) (b : BackoffSettings f) (path_given : Bool) (pid now : ℕ) (file : StateFile)
      {v w : Supervisor f format safe_error}
      → new_supervisor f format safe_error p b path_given pid now file ≡ ok v
      → Calls v w
      → w.state.active ≡ true
      → w.state.deadline ≡ due p w.state
  running_due p b path_given pid now file {v} {w} h c a =
      let (e, d) = new_supervisor-IsDue p b path_given pid now file h in
      let (k, m) = Calls-kept c d in m a ∙ ap (λ q. due q w.state) (k ∙ e)

  -- A supervisor is constructed, whatever its state file held, and called any number of times, to a
  -- point at which an incident runs; it is called further, and the incident runs after each of these
  -- calls. Then the incident has the start and the deadline that it had at that point, and the deadline
  -- is the one that the policy gives from that start, none if the policy is not bounded.
  pub new_supervisor-Calls :
      (p : Policy) (b : BackoffSettings f) (path_given : Bool) (pid now : ℕ) (file : StateFile)
      {v u w : Supervisor f format safe_error}
      → new_supervisor f format safe_error p b path_given pid now file ≡ ok v
      → Calls v u
      → Lasts u w
      → (w.state.incident_started_at ≡ u.state.incident_started_at)
        × (w.state.deadline ≡ u.state.deadline)
        × (w.state.deadline ≡ due p u.state)
  new_supervisor-Calls p b path_given pid now file {v} {u} {w} h c l =
      let first = running_due p b path_given pid now file h c (started l) in
      let last = running_due p b path_given pid now file h (Lasts-Calls c l) (Lasts-active l) in
      let same = due-eq p w.state u.state (Lasts-start l) in
      (Lasts-start l, last ∙ (same ∙ sym first), last ∙ same)

  -- If an incident is marked as recovered while a wait sleeps to the deadline, the end of that sleep
  -- turns the recovered incident into an exhausted one, and the wait returns an error.
  pub recovered_then_exhausted :
      (saves woken_saves : Bool) (v : Supervisor f format safe_error) (at later : ℕ) (delay : ℤ)
      → v.state.active ≡ true
      → v.state.incident_started_at ≢ 0
      → v.state.outcome ≡ Outcome.retrying
      → let w = (mark_recovered f format safe_error saves v at).0 in
        let r =
          end_wait f format safe_error woken_saves w (Waiting.sleep delay false) (some later) in
        (w.state.outcome ≡ Outcome.recovered)
        × (r.0.state.outcome ≡ Outcome.exhausted)
        × (r.1 ≢ ok tt)
  unfolding mark_recovered end_wait exhaust exhausted_state
  recovered_then_exhausted saves woken_saves v at later delay a n o =
      (ground arith, ground arith, λ q. ground arith)
