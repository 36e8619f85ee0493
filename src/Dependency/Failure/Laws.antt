-- ===== src/Dependency/Failure/Laws.antt =====
-- internal/dependency/failure.go: which failures are retried, and what reaches a log.
use ephemeral_action_runner.Shared.{
  ℕ, ◌≤◌, ◌<◌, ℤ, pos, negsuc, ◌≤ℤ◌, ◌<ℤ◌, Str, Bool, true, false, not, some, [], codes, len,
  trim_space, ◌≡◌, ◌↔◌, ◌⊎◌, inl, inr, refl, arith, sym, ◌∙◌,
}
use ephemeral_action_runner.Dependency.Failure.{
  Failure, Error, HttpMetadata, has, is_canceled, as_failure, is_retryable, is_typed_retryable,
  classify_http_status, contains, printable, sanitize_request_id, rate_limit_evidence,
  new_http_failure,
}

-- The statuses that are worth a retry.
pub data Retryable (evidence : Bool) (status : ℤ) : Type 0 where
  timeout : status ≡ pos 408 → Retryable evidence status
  too_many : status ≡ pos 429 → Retryable evidence status
  server : pos 500 ≤ℤ status → status ≤ℤ pos 599 → Retryable evidence status
  limited : status ≡ pos 403 → evidence ≡ true → Retryable evidence status

classify-Retryable :
    (status : ℤ) (evidence : Bool)
    → classify_http_status status evidence ≡ true
    → Retryable evidence status
unfolding classify_http_status
classify-Retryable (negsuc n) evidence h = absurd (ground arith)
classify-Retryable (pos n) evidence h =
    grind (arith, Retryable.timeout, Retryable.too_many, Retryable.server, Retryable.limited)

Retryable-classify :
    (status : ℤ) (evidence : Bool)
    → Retryable evidence status
    → classify_http_status status evidence ≡ true
unfolding classify_http_status
Retryable-classify status evidence (Retryable.timeout e) = ground arith
Retryable-classify status evidence (Retryable.too_many e) = ground arith
Retryable-classify status evidence (Retryable.server a b) = ground arith
Retryable-classify status evidence (Retryable.limited e l) = ground arith

plain_or_limited :
    {status : ℤ} {evidence : Bool}
    → Retryable evidence status
    → Retryable false status ⊎ ((status ≡ pos 403) × (evidence ≡ true))
plain_or_limited (Retryable.timeout e) = inl (Retryable.timeout e)
plain_or_limited (Retryable.too_many e) = inl (Retryable.too_many e)
plain_or_limited (Retryable.server a b) = inl (Retryable.server a b)
plain_or_limited (Retryable.limited e l) = inr (e, l)

any_evidence : {status : ℤ} {evidence : Bool} → Retryable false status → Retryable evidence status
any_evidence (Retryable.timeout e) = Retryable.timeout e
any_evidence (Retryable.too_many e) = Retryable.too_many e
any_evidence (Retryable.server a b) = Retryable.server a b
any_evidence (Retryable.limited e l) = absurd (ground arith)

-- What shows that a response is a rate limit.
abbrev pub Limited : (Str → Str) → HttpMetadata → ℕ → Type 0
Limited to_lower m now =
    ((m.rate_limit_known ≡ true) × (m.rate_limit_remain ≤ℤ pos 0))
    ⊎ ((now < m.rate_limit_reset)
        ⊎ ((pos 0 <ℤ m.retry_after)
            ⊎ ((contains (to_lower m.body) (codes "rate limit") ≡ true)
                ⊎ (contains (to_lower m.body) (codes "secondary rate") ≡ true))))

module _ (to_lower : Str → Str) (service op : Str) (m : HttpMetadata) (now : ℕ) where
  evidence-Limited : (rate_limit_evidence to_lower m now ≡ true) ↔ Limited to_lower m now
  unfolding rate_limit_evidence
  evidence-Limited = (λ h. ground arith, λ h. ground arith)

  retryable_of :
      (new_http_failure to_lower service op m now).retryable
      ≡ classify_http_status m.status_code (rate_limit_evidence to_lower m now)
  unfolding new_http_failure
  retryable_of = ground arith

  -- The failure of a response is retryable exactly if its status is 408, 429 or 500 to 599, or if it is
  -- 403 and a rate limit shows: no requests remain, the limit resets later than now, the server names a
  -- delay, or the body speaks of one.
  pub new_http_failure_retryable :
      ((new_http_failure to_lower service op m now).retryable ≡ true)
      ↔ ((Retryable false m.status_code) ⊎ ((m.status_code ≡ pos 403) × Limited to_lower m now))
  new_http_failure_retryable = (
    λ h. elim (plain_or_limited (classify-Retryable _ _ (sym retryable_of ∙ h))) [
      | inl plain ↦ inl plain
      | inr (forbidden, shown) ↦ inr (forbidden, evidence-Limited.0 shown)
    ],
    λ h.
        retryable_of
        ∙ Retryable-classify m.status_code _ (elim h [
          | inl plain ↦ any_evidence plain
          | inr (forbidden, shown) ↦ Retryable.limited forbidden (evidence-Limited.1 shown)
        ]),
  )

-- A failure that says it is retryable is retried, unless the error is a cancellation too: then the one
-- test passes it and the other does not.
pub typed_retryable :
    (lower_text : Error → Str) (e : Error)
    → is_typed_retryable e ≡ true
    → is_retryable lower_text (some e) ≡ not (has is_canceled e)
unfolding is_typed_retryable is_retryable
typed_retryable lower_text e h = ground arith

-- An error that is a cancellation is never retried by the general test, whatever else it is.
pub canceled_terminal :
    (lower_text : Error → Str) (e : Error)
    → has is_canceled e ≡ true
    → is_retryable lower_text (some e) ≡ false
unfolding is_retryable
canceled_terminal lower_text e h = ground arith

-- A retryable failure whose cause is a cancellation passes the test that the supervisor uses, which is
-- called the stricter one, and not the general one.
pub typed_not_stricter :
    (lower_text : Error → Str) (f : Failure) (cause : Error)
    → f.retryable ≡ true
    → has is_canceled cause ≡ true
    → (is_typed_retryable (Error.failure f cause) ≡ true)
      × (is_retryable lower_text (some (Error.failure f cause)) ≡ false)
unfolding is_typed_retryable as_failure is_retryable has
typed_not_stricter lower_text f cause r h = (r, ground arith)

printable_nothing : printable [] ≡ true
unfolding printable
printable_nothing = refl

len_nothing : len [] ≡ 0
unfolding len
len_nothing = refl

-- A request identifier in a log is empty, or the given one without the spaces around it, of at most 128
-- bytes and of printable ASCII characters only.
sanitize_request_id_clean :
    (value : Str)
    → let id = sanitize_request_id value in
      (printable id ≡ true) × (len id ≤ 128) × ((id ≡ []) ⊎ (id ≡ trim_space value))
unfolding sanitize_request_id
sanitize_request_id_clean value =
    (ground (arith, printable_nothing), ground (arith, len_nothing), ground arith)
