-- ===== src/Dependency/Backoff/Bounds.antt =====
-- internal/dependency/backoff.go: what bounds a delay, whatever the floating-point arithmetic yields.
use ephemeral_action_runner.Shared.{
  ℕ, ◌+◌, ◌≤◌, ◌<◌, ℤ, pos, negsuc, sub_ℕ, add_ℤ, true, ◌≤ℤ◌, ◌<ℤ◌, ltb_ℤ, ◌≡◌, ◌≢◌, ◌⊎◌, inl, inr,
  refl, arith, sym, subst, ◌↔◌, if◌then◌else◌, pos_part,
}
use ephemeral_action_runner.Dependency.Backoff.{
  Float64, BackoffSettings, BackoffState, ServerHint, second, normalize, clamp_delay, apply_hint,
  calculate_delay, clamp_delay_to_deadline, schedule, is_active,
}

-- Settings that are safe to use.
pub record IsSafe (f : Float64) (s : BackoffSettings f) : Type 0 where
  pub positive : pos 0 <ℤ s.initial
  pub ordered : s.initial ≤ℤ s.maximum
  pub floored : pos 0 <ℤ s.minimum

-- Whatever settings are handed in, the normalized ones have a positive first delay, a cap that is not
-- below it, and a positive floor.
pub normalize-IsSafe : (f : Float64) (s : BackoffSettings f) → IsSafe f (normalize f s)
unfolding normalize
normalize-IsSafe f s = record {
  positive = ground arith;
  ordered = ground arith;
  floored = ground arith;
}

abbrev floor : ℤ → ℤ
floor minimum = if ltb_ℤ minimum (pos second) then pos second else minimum

clamp_delay_bounds :
    (minimum maximum delay : ℤ)
    → (floor minimum ≤ℤ clamp_delay minimum maximum delay)
      × ((clamp_delay minimum maximum delay ≤ℤ maximum) ⊎ (maximum <ℤ floor minimum))
unfolding clamp_delay
clamp_delay_bounds minimum maximum delay = (ground arith, ground arith)

-- The hints only ever lengthen a delay, and no further than one of them asks.
apply_hint_bounds :
    (hint : ServerHint) (now : ℕ) (delay : ℤ)
    → (delay ≤ℤ apply_hint hint now delay)
      × (hint.retry_after ≤ℤ apply_hint hint now delay)
      × (now < hint.rate_limit_reset → sub_ℕ hint.rate_limit_reset now ≤ℤ apply_hint hint now delay)
      × ((apply_hint hint now delay ≡ delay)
          ⊎ ((apply_hint hint now delay ≡ hint.retry_after)
              ⊎ (apply_hint hint now delay ≡ sub_ℕ hint.rate_limit_reset now)))
unfolding apply_hint
apply_hint_bounds hint now delay = (ground arith, ground arith, λ h. ground arith, ground arith)

floor_bounds : (minimum : ℤ) → (pos second ≤ℤ floor minimum) × (minimum ≤ℤ floor minimum)
floor_bounds minimum = (ground arith, ground arith)

abbrev pub Bounded : ℤ → ℤ → ServerHint → ℕ → ℤ → Type 0
Bounded minimum maximum hint now delay =
    ((pos second ≤ℤ delay) × (minimum ≤ℤ delay))
    × (hint.retry_after ≤ℤ delay)
    × (now < hint.rate_limit_reset → sub_ℕ hint.rate_limit_reset now ≤ℤ delay)
    × ((delay ≤ℤ maximum)
        ⊎ ((maximum <ℤ floor minimum)
            ⊎ ((delay ≡ hint.retry_after) ⊎ (delay ≡ sub_ℕ hint.rate_limit_reset now))))

clamped_Bounded :
    (minimum maximum raw : ℤ) (hint : ServerHint) (now : ℕ)
    → Bounded minimum maximum hint now (apply_hint hint now (clamp_delay minimum maximum raw))
clamped_Bounded minimum maximum raw hint now =
    let y = clamp_delay minimum maximum raw in
    let (low, high) = clamp_delay_bounds minimum maximum raw in
    let (up, retry, reset, from) = apply_hint_bounds hint now y in
    let (second_floor, minimum_floor) = floor_bounds minimum in
    (
      (omega arith, omega arith),
      retry,
      reset,
      elim from [
        | inl same ↦ elim high [
          | inl capped ↦ inl (subst (λ (z : ℤ). z ≤ℤ maximum) (sym same) capped)
          | inr odd ↦ inr (inl odd)
        ]
        | inr hinted ↦ inr (inr hinted)
      ],
    )

-- Whatever the arithmetic yields, a delay is at least a second and at least the minimum, and at least
-- what each hint of the server asks for; and unless it is exactly what a hint asks for, or the cap lies
-- below a second or the minimum, it is at most the cap.
pub calculate_delay_bounds :
    (f : Float64) (settings : BackoffSettings f) (attempt : ℤ) (hint : ServerHint) (now : ℕ)
    (sample : f.Float)
    → Bounded
        (normalize f settings).minimum
        (normalize f settings).maximum
        hint
        now
        (calculate_delay f settings attempt hint now sample)
unfolding calculate_delay
calculate_delay_bounds f settings attempt hint now sample =
    clamped_Bounded (normalize f settings).minimum (normalize f settings).maximum _ hint now

add_long :
    (now : ℕ) (d : ℤ) → pos second ≤ℤ d → (add_ℤ now d ≡ now + pos_part d) × (second ≤ pos_part d)
add_long now (pos n) h = (omega arith, omega arith)
add_long now (negsuc n) h = absurd (omega arith)

-- A failed attempt that is scheduled is counted; the delay it answers with is the one calculated from the
-- attempts before it and the hint, the next attempt is deferred by that delay, so that none begins
-- within a second, and the start of an incident that had one is kept.
pub schedule_defers :
    (f : Float64) (b : BackoffState) (now : ℕ) (settings : BackoffSettings f) (hint : ServerHint)
    (sample : f.Float)
    → let r = schedule f b now settings hint sample in
      (r.1 ≡ calculate_delay f settings (pos b.attempt) hint now sample)
      × (r.0.attempt ≡ b.attempt + 1)
      × (r.0.next_retry_at ≡ now + pos_part r.1)
      × ((t : ℕ) → t < now + second → is_active r.0 t ≡ true)
      × (b.incident_started_at ≢ 0 → r.0.incident_started_at ≡ b.incident_started_at)
unfolding schedule is_active
schedule_defers f b now settings hint sample =
    let delay = calculate_delay f settings (pos b.attempt) hint now sample in
    let (low, _) = (calculate_delay_bounds f settings (pos b.attempt) hint now sample).0 in
    let (sum, long) = add_long now delay low in
    (refl, refl, sum, λ t h. later t (now + pos_part delay) sum (omega arith), λ n. ground arith)
  where
    later :
        (t u : ℕ)
        → add_ℤ now (calculate_delay f settings (pos b.attempt) hint now sample) ≡ u
        → t < u
        → is_active (schedule f b now settings hint sample).0 t ≡ true
    later t u e lt = rw (e, is_active) (ground arith)

-- Clamping a delay to a deadline that is not zero never waits past the deadline if it lies after now,
-- permits the next attempt exactly when the deadline lies after now and the delay ends before it, and
-- leaves the delay of a permitted attempt as it is.
pub clamp_delay_to_deadline_bounds :
    (delay : ℤ) (now deadline : ℕ)
    → deadline ≢ 0
    → let r = clamp_delay_to_deadline delay now deadline in
      (now < deadline → add_ℤ now r.0 ≤ deadline)
      × ((r.1 ≡ true) ↔ ((now < deadline) × (delay <ℤ sub_ℕ deadline now)))
      × (r.1 ≡ true → r.0 ≡ delay)
unfolding clamp_delay_to_deadline
clamp_delay_to_deadline_bounds delay now deadline n =
    (λ h. ground arith, (λ h. (ground arith, ground arith), λ h. ground arith), λ h. ground arith)
