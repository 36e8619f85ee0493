-- ===== src/Dependency/Backoff.antt =====
-- internal/dependency/backoff.go: the delay before the next attempt. Go's float64 is the parameter
-- `Float64`: the operations and comparisons that the code calls, with no law about them.
pub mod Bounds
use ephemeral_action_runner.Shared.{
  ℕ, suc, ◌+◌, ◌-◌, ◌*◌, ◌/◌, ℤ, pos, sub_ℕ, add_ℤ, Bool, true, false, not, ◌&&◌, ◌||◌, ◌==◌, ltb,
  ltb_ℤ, leb_ℤ, pos_part, neg_part, if◌then◌else◌, Option, none, some,
}

pub record Float64 : Type 1 where
  pub Float : Type 0
  pub of_int : ℤ → Float
  pub plus : Float → Float → Float
  pub minus : Float → Float → Float
  pub times : Float → Float → Float
  pub over : Float → Float → Float
  pub pow : Float → Float → Float
  pub less : Float → Float → Bool
  pub equal : Float → Float → Bool
  pub is_nan : Float → Bool
  pub is_inf : Float → Bool
  pub to_duration : Float → ℤ
  pub fifth : Float  -- 0.20

abbrev pub second : ℕ
second = 1000000000

-- Hints of the server; a zero reset is none.
pub record ServerHint : Type 0 where
  pub retry_after : ℤ
  pub rate_limit_reset : ℕ

unfoldable pub no_hint : ServerHint
no_hint = record { retry_after = pos 0; rate_limit_reset = 0 }

-- The clamps of CalculateDelay on a computed delay.
unfoldable pub clamp_delay : ℤ → ℤ → ℤ → ℤ
clamp_delay minimum maximum delay =
    let floor = if ltb_ℤ minimum (pos second) then pos second else minimum in
    let raised = if ltb_ℤ delay floor then floor else delay in
    if ltb_ℤ maximum raised && leb_ℤ floor maximum then maximum else raised

unfoldable pub apply_hint : ServerHint → ℕ → ℤ → ℤ
apply_hint hint now delay =
    let first = if ltb_ℤ delay hint.retry_after then hint.retry_after else delay in
    let reset = sub_ℕ hint.rate_limit_reset now in
    if not (hint.rate_limit_reset == 0) && ltb now hint.rate_limit_reset && ltb_ℤ first reset
    then reset
    else first

-- The delay that still fits before the deadline, and whether the next attempt may begin.
unfoldable pub clamp_delay_to_deadline : ℤ → ℕ → ℕ → ℤ × Bool
clamp_delay_to_deadline delay now deadline =
    let remaining = sub_ℕ deadline now in
    if deadline == 0
    then (delay, true)
    else if leb_ℤ remaining (pos 0)
    then (pos 0, false)
    else if leb_ℤ remaining delay
    then (remaining, false)
    else (delay, true)

pub record BackoffState : Type 0 where
  pub attempt : ℕ
  pub incident_started_at : ℕ
  pub last_failure_at : ℕ
  pub next_retry_at : ℕ

unfoldable pub is_active : BackoffState → ℕ → Bool
is_active s now = not (s.next_retry_at == 0) && ltb now s.next_retry_at

-- `Round(time.Second)` of a positive duration: half a second goes up.
unfoldable pub remaining : BackoffState → ℕ → ℤ
unfolding is_active
remaining s now =
    if not (is_active s now)
    then pos 0
    else pos ((s.next_retry_at - now + second / 2) / second * second)

unfoldable pub reset : BackoffState
reset = record { attempt = 0; incident_started_at = 0; last_failure_at = 0; next_retry_at = 0 }

module _ (f : Float64) where
  open f use {
    Float, of_int, plus, minus, times, over, pow, less, equal, is_nan, is_inf, to_duration, fifth,
  }

  -- `random` is what the custom function answers, if there is one.
  pub record BackoffSettings : Type 0 where
    pub initial : ℤ
    pub maximum : ℤ
    pub multiplier : Float
    pub jitter : Float
    pub jitter_percent : Float
    pub minimum : ℤ
    pub random : Option Float

  abbrev zero : Float
  zero = of_int (pos 0)

  abbrev one : Float
  one = of_int (pos 1)

  abbrev hundred : Float
  hundred = of_int (pos 100)

  unfoldable pub default_backoff_settings : BackoffSettings
  default_backoff_settings = record {
    initial = pos (15 * second);
    maximum = pos (1800 * second);
    multiplier = of_int (pos 2);
    jitter = fifth;
    jitter_percent = of_int (pos 0);
    minimum = pos second;
    random = none;
  }

  normalize_multiplier : Float → Float
  normalize_multiplier m = if less m one || is_nan m || is_inf m then of_int (pos 2) else m

  normalize_jitter : Float → Float → Float
  normalize_jitter percent jitter =
      let given = if not (equal percent zero) then over percent hundred else jitter in
      let fraction = if less one given then over given hundred else given in
      if less fraction zero || is_nan fraction || is_inf fraction then zero else fraction

  unfoldable pub normalize : BackoffSettings → BackoffSettings
  unfolding normalize_multiplier normalize_jitter
  normalize s =
      let initial = if leb_ℤ s.initial (pos 0) then pos (15 * second) else s.initial in
      let maximum = if leb_ℤ s.maximum (pos 0) then pos (1800 * second) else s.maximum in
      record s {
        initial = initial;
        maximum = (if ltb_ℤ maximum initial then initial else maximum);
        multiplier = normalize_multiplier s.multiplier;
        jitter = normalize_jitter s.jitter_percent s.jitter;
        minimum = (if leb_ℤ s.minimum (pos 0) then pos second else s.minimum);
      }

  unfoldable pub new_backoff_settings : ℤ → ℤ → Float → ℤ → BackoffSettings
  unfolding normalize
  new_backoff_settings initial_seconds maximum_seconds multiplier jitter_percent =
      normalize (record {
        initial = scale initial_seconds;
        maximum = scale maximum_seconds;
        multiplier = multiplier;
        jitter = zero;
        jitter_percent = of_int jitter_percent;
        minimum = pos second;
        random = none;
      })
    where
      scale : ℤ → ℤ
      scale n = sub_ℕ (pos_part n * second) (neg_part n * second)

  -- The exponential delay, capped.
  unfoldable pub nominal_delay : BackoffSettings → ℕ → Float
  nominal_delay s attempt =
      let first = of_int s.initial in
      let grown =
        if ltb 0 attempt then times first (pow s.multiplier (of_int (pos attempt))) else first in
      if is_inf grown || less (of_int s.maximum) grown then of_int s.maximum else grown

  unfoldable pub jitter_factor : BackoffSettings → Float → Float
  jitter_factor s sample =
      let value : Float = elim s.random [ none ↦ sample | some r ↦ r ] in
      let fraction = if less value zero then zero else if less one value then one else value in
      if less zero s.jitter
      then plus one (times (minus (times fraction (of_int (pos 2))) one) s.jitter)
      else one

  -- `attempt` is the caller's, after negative ones were taken as 0; `sample` is what `rand.Float64`
  -- answers.
  unfoldable pub calculate_delay : BackoffSettings → ℤ → ServerHint → ℕ → Float → ℤ
  calculate_delay settings attempt hint now sample =
      let s = normalize settings in
      apply_hint hint now (
        clamp_delay s.minimum s.maximum
          (to_duration (times (nominal_delay s (pos_part attempt)) (jitter_factor s sample))))

  unfoldable pub schedule :
      BackoffState → ℕ → BackoffSettings → ServerHint → Float → BackoffState × ℤ
  schedule b now settings hint sample =
      let delay = calculate_delay settings (pos b.attempt) hint now sample in
      (
        record {
          attempt = b.attempt + 1;
          incident_started_at = (if b.incident_started_at == 0 then now else b.incident_started_at);
          last_failure_at = now;
          next_retry_at = add_ℤ now delay;
        },
        delay,
      )
