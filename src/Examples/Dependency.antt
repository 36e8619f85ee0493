-- ===== src/Examples/Dependency.antt =====
-- A policy, a delay and a failure of a response, at concrete values.
use ephemeral_action_runner.Shared.{
  ℕ, ◌+◌, ◌-◌, ◌*◌, ◌/◌, ◌^◌, ◌≤◌, ◌<◌, ℤ, pos, pos_part, ◌<ℤ◌, sub_ℕ, add_ℤ, Str, Bool, true,
  false, not, ◌==◌, ltb, Option, none, some, [], ◌∷◌, ok, codes, ◌≡◌, ◌≢◌, ◌⊎◌, ◌↔◌, refl, arith,
  trim_space, str_eq, negsuc,
}
use ephemeral_action_runner.Dependency.Policy.{
  Policy, PolicyKind, valid, is_bounded, deadline, effective_kind, parse_policy, policy_string,
  new_policy,
}
use ephemeral_action_runner.Dependency.Policy.Laws.{
  deadline_after_start, parse_policy-valid, TextLaws, parse_policy-policy_string,
}
use ephemeral_action_runner.Dependency.Backoff.{
  Float64, BackoffState, ServerHint, second, default_backoff_settings, normalize, calculate_delay,
  clamp_delay_to_deadline, schedule, is_active, reset,
}
use ephemeral_action_runner.Dependency.Backoff.Bounds.{
  Bounded, calculate_delay_bounds, schedule_defers, clamp_delay_to_deadline_bounds,
}
use ephemeral_action_runner.Dependency.Failure.{
  Failure, Error, HttpMetadata, has, is_canceled, is_retryable, is_typed_retryable, as_failure,
  new_http_failure,
}
use ephemeral_action_runner.Dependency.Failure.Laws.{
  Retryable, Limited, new_http_failure_retryable, typed_retryable, canceled_terminal,
  typed_not_stricter,
}

-- Whole numbers in the place of the floating-point ones.
abbrev pub whole : Float64
whole = record {
  Float = ℕ;
  of_int = pos_part;
  plus = λ a b. a + b;
  minus = λ a b. a - b;
  times = λ a b. a * b;
  over = λ a b. a / b;
  pow = λ a b. a ^ b;
  less = ltb;
  equal = λ a b. a == b;
  is_nan = λ a. false;
  is_inf = λ a. false;
  to_duration = pos;
  fifth = 0;
}

abbrev pub hour : ℤ
hour = pos (3600 * second)

abbrev pub an_hour : Policy
an_hour = record { kind = PolicyKind.bounded; mode = PolicyKind.bounded; duration = hour }

-- A run on fixed inputs.
an_hour-valid : valid an_hour ≡ true
unfolding valid
an_hour-valid = refl

deadline_after_start_example :
    ((is_bounded an_hour ≡ true) × (5 < deadline an_hour 5))
    ⊎ ((is_bounded an_hour ≡ false) × (deadline an_hour 5 ≡ 0))
deadline_after_start_example = deadline_after_start an_hour 5 an_hour-valid (λ p. ground arith)

-- A reader of durations that knows one text.
abbrev one_text : Str → Option ℤ
unfolding str_eq
one_text s = elim (str_eq s (codes "1h")) [ true ↦ some hour | false ↦ none ]

parse_one_hour : parse_policy (λ s. s) one_text (codes "1h") ≡ ok an_hour
unfolding parse_policy one_text trim_space str_eq new_policy
parse_one_hour = refl

parse_policy-valid_example :
    (valid an_hour ≡ true)
    × (is_bounded an_hour ≡ true → one_text (trim_space (codes "1h")) ≡ some hour)
parse_policy-valid_example = parse_policy-valid (λ s. s) one_text (codes "1h") parse_one_hour

abbrev pub retry_hint : ServerHint
retry_hint = record { retry_after = pos (30 * second); rate_limit_reset = 0 }

calculate_delay_bounds_example :
    Bounded
      (normalize whole (default_backoff_settings whole)).minimum
      (normalize whole (default_backoff_settings whole)).maximum
      retry_hint
      7
      (calculate_delay whole (default_backoff_settings whole) (pos 3) retry_hint 7 1)
calculate_delay_bounds_example =
    calculate_delay_bounds whole (default_backoff_settings whole) (pos 3) retry_hint 7 1

abbrev first_failure : BackoffState × ℤ
first_failure = schedule whole reset 7 (default_backoff_settings whole) retry_hint 1

schedule_defers_example :
    (first_failure.1
      ≡ calculate_delay whole (default_backoff_settings whole) (pos reset.attempt) retry_hint 7 1)
    × (first_failure.0.attempt ≡ reset.attempt + 1)
    × (first_failure.0.next_retry_at ≡ 7 + pos_part first_failure.1)
    × ((t : ℕ) → t < 7 + second → is_active first_failure.0 t ≡ true)
    × (reset.incident_started_at ≢ 0
        → first_failure.0.incident_started_at ≡ reset.incident_started_at)
schedule_defers_example =
    schedule_defers whole reset 7 (default_backoff_settings whole) retry_hint 1

abbrev clamped : ℤ × Bool
clamped = clamp_delay_to_deadline (pos 5) 10 20

clamp_delay_to_deadline_bounds_example :
    (10 < 20 → add_ℤ 10 clamped.0 ≤ 20)
    × ((clamped.1 ≡ true) ↔ ((10 < 20) × (pos 5 <ℤ sub_ℕ 20 10)))
    × (clamped.1 ≡ true → clamped.0 ≡ pos 5)
clamp_delay_to_deadline_bounds_example =
    clamp_delay_to_deadline_bounds (pos 5) 10 20 (λ p. ground arith)

abbrev pub busy_server : Failure
busy_server = record {
  service = codes "github";
  operation = codes "register";
  retryable = true;
  retry_after = pos 0;
  rate_limit_reset = 0;
  rate_limit_remain = pos 0;
  rate_limit_known = false;
  request_id = codes "";
  status_code = pos 503;
}

abbrev limited : HttpMetadata
limited = record {
  status_code = pos 403;
  retry_after = pos second;
  rate_limit_reset = 0;
  rate_limit_remain = pos 0;
  rate_limit_known = false;
  request_id = codes "";
  body = codes "";
}

new_http_failure_retryable_example :
    ((new_http_failure (λ s. s) (codes "github") (codes "list") limited 9).retryable ≡ true) ↔ (
      (Retryable false limited.status_code)
      ⊎ ((limited.status_code ≡ pos 403) × Limited (λ s. s) limited 9))
new_http_failure_retryable_example =
    new_http_failure_retryable (λ s. s) (codes "github") (codes "list") limited 9

typed_busy : is_typed_retryable (Error.bare_failure busy_server) ≡ true
unfolding is_typed_retryable as_failure
typed_busy = refl

typed_retryable_example :
    is_retryable (λ e. codes "") (some (Error.bare_failure busy_server))
    ≡ not (has is_canceled (Error.bare_failure busy_server))
typed_retryable_example =
    typed_retryable (λ e. codes "") (Error.bare_failure busy_server) typed_busy

canceled_cause : has is_canceled (Error.wrap Error.canceled) ≡ true
unfolding has
canceled_cause = refl

canceled_terminal_example : is_retryable (λ e. codes "") (some (Error.wrap Error.canceled)) ≡ false
canceled_terminal_example =
    canceled_terminal (λ e. codes "") (Error.wrap Error.canceled) canceled_cause

typed_not_stricter_example :
    (is_typed_retryable (Error.failure busy_server (Error.wrap Error.canceled)) ≡ true)
    × (is_retryable (λ e. codes "") (some (Error.failure busy_server (Error.wrap Error.canceled)))
        ≡ false)
typed_not_stricter_example =
    typed_not_stricter (λ e. codes "") busy_server (Error.wrap Error.canceled) refl canceled_cause

-- A text of one code point for each duration.
abbrev one_sign : ℤ → Str
one_sign d = (20000 + pos_part d) ∷ []

abbrev read_sign : Str → Option ℤ
read_sign [] = none
read_sign (c ∷ s) = some (pos (c - 20000))

sign-trim_space : (n : ℕ) → trim_space ((20000 + n) ∷ []) ≡ (20000 + n) ∷ []
unfolding trim_space
sign-trim_space n = ground arith

sign_reads : (d : ℤ) → pos 0 <ℤ d → read_sign (trim_space (one_sign d)) ≡ some d
sign_reads (pos n) h = rw (sign-trim_space n) (ground arith)
sign_reads (negsuc n) h = absurd (omega arith)

sign_laws : TextLaws (λ s. s) read_sign one_sign
unfolding str_eq
sign_laws = record {
  lower_off = refl;
  lower_continuous = refl;
  parses = sign_reads;
  no_keyword = λ d h. rw (sign-trim_space (pos_part d)) (ground arith, ground arith, ground arith);
}

parse_policy-policy_string_example :
    parse_policy (λ s. s) read_sign (policy_string one_sign an_hour)
    ≡ ok (record { kind = effective_kind an_hour; mode = effective_kind an_hour; duration = hour })
parse_policy-policy_string_example =
    parse_policy-policy_string (λ s. s) read_sign one_sign sign_laws an_hour an_hour-valid
