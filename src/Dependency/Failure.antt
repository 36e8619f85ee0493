-- ===== src/Dependency/Failure.antt =====
-- internal/dependency/failure.go: typed failures, and which errors are worth a retry.
pub mod Laws
pub mod Errors
unfoldable pub use Errors.*
use ephemeral_action_runner.Shared.{
  ℕ, ℤ, pos, Str, Bool, true, false, not, ◌&&◌, ◌||◌, ◌==◌, ltb, leb, ltb_ℤ, leb_ℤ, if◌then◌else◌,
  Option, none, some, List, [], ◌∷◌, codes, len, is_empty, trim_space, str_eq, is_some,
}
use ephemeral_action_runner.Dependency.Backoff.{ServerHint, no_hint}

abbrev starts_with : Str → Str → Bool
starts_with s [] = true
starts_with [] (d ∷ t) = false
starts_with (c ∷ s) (d ∷ t) = c == d && starts_with s t

unfoldable pub contains : Str → Str → Bool
contains [] t = is_empty t
contains (c ∷ s) t = starts_with (c ∷ s) t || contains s t

abbrev any_marker : Str → List Str → Bool
any_marker text [] = false
any_marker text (m ∷ ms) = contains text m || any_marker text ms

abbrev markers : List Str
markers =
    codes "x509:"
    ∷ codes "tls:"
    ∷ codes "certificate verify failed"
    ∷ codes "unknown authority"
    ∷ codes "certificate is not valid"
    ∷ codes "invalid peer certificate"
    ∷ codes "tls: first record does not look like a tls handshake"
    ∷ codes "tls: bad record"
    ∷ codes "tls: unsupported"
    ∷ codes "tls: no renegotiation"
    ∷ []

-- `lower_text` is the error's message in lower case.
module _ (lower_text : Error → Str) where
  unfoldable pub terminal_tls_error : Error → Bool
  unfolding has contains
  terminal_tls_error e =
      if has is_certificate e
      then true
      else if contains (lower_text e) (codes "tls handshake timeout")
      then false
      else any_marker (lower_text e) markers

  -- What is asked of an error that carries no Failure. The last question of the source, for a
  -- `url.Error`, is not reached, since that is a `net.Error`.
  unfoldable pub bare_retryable : Error → Bool
  unfolding has terminal_tls_error find
  bare_retryable e =
      if has is_deadline e
      then true
      else if terminal_tls_error e
      then false
      else if has is_dns e || has is_operation e
      then true
      else (elim (find as_network e) [ none ↦ false | some b ↦ b ])

  unfoldable pub is_retryable : Option Error → Bool
  is_retryable none = false
  is_retryable (some e) =
      if has is_canceled e
      then false
      else (elim (as_failure e) [ none ↦ bare_retryable e | some f ↦ f.retryable ])

unfoldable pub is_typed_retryable : Error → Bool
is_typed_retryable e = elim (as_failure e) [ none ↦ false | some f ↦ f.retryable ]

unfoldable pub hint_from_failure : Error → ServerHint
unfolding no_hint
hint_from_failure e = elim (as_failure e) [
  | none ↦ no_hint
  | some f ↦ record { retry_after = f.retry_after; rate_limit_reset = f.rate_limit_reset }
]

unfoldable pub classify_http_status : ℤ → Bool → Bool
classify_http_status status evidence =
    if same 408 || same 429 || leb_ℤ (pos 500) status && leb_ℤ status (pos 599)
    then true
    else if same 403
    then evidence
    else false
  where
    same : ℕ → Bool
    same n = leb_ℤ status (pos n) && leb_ℤ (pos n) status

unfoldable pub printable : Str → Bool
printable [] = true
printable (r ∷ s) = not (ltb r 0x20 || r == 0x7f || ltb 0x7e r) && printable s

unfoldable pub sanitize_request_id : Str → Str
sanitize_request_id value =
    let id = trim_space value in
    if is_empty id || ltb 128 (len id) then codes "" else if printable id then id else codes ""

pub record HttpMetadata : Type 0 where
  pub status_code : ℤ
  pub retry_after : ℤ
  pub rate_limit_reset : ℕ
  pub rate_limit_remain : ℤ
  pub rate_limit_known : Bool
  pub request_id : Str
  pub body : Str

abbrev FailureOption : Type 0
FailureOption = Failure → Failure

with_retryable : Bool → FailureOption
with_retryable b f = record f { retryable = b }

with_retry_after : ℤ → FailureOption
with_retry_after delay f = if ltb_ℤ (pos 0) delay then record f { retry_after = delay } else f

with_rate_limit_reset : ℕ → FailureOption
with_rate_limit_reset reset f = record f { rate_limit_reset = reset }

with_request_id : Str → FailureOption
unfolding sanitize_request_id
with_request_id id f = record f { request_id = sanitize_request_id id }

with_status_code : ℤ → FailureOption
with_status_code status f = record f { status_code = status }

with_rate_limit_remaining_value : ℤ → Bool → FailureOption
with_rate_limit_remaining_value remaining known f = record f {
  rate_limit_remain = remaining;
  rate_limit_known = known;
}

apply_options : Failure → List FailureOption → Failure
apply_options f [] = f
apply_options f (o ∷ os) = apply_options (o f) os

-- The cause is kept beside the Failure.
unfoldable pub new_failure : Str → Str → List FailureOption → Failure
unfolding apply_options sanitize_request_id
new_failure service op options =
    let f =
      apply_options
        (record {
          service = trim_space service;
          operation = trim_space op;
          retryable = false;
          retry_after = pos 0;
          rate_limit_reset = 0;
          rate_limit_remain = pos 0;
          rate_limit_known = false;
          request_id = codes "";
          status_code = pos 0;
        })
        options in
    record f {
      request_id =
          (if is_empty f.request_id then f.request_id else sanitize_request_id f.request_id);
    }

module _ (to_lower : Str → Str) where
  unfoldable pub rate_limit_evidence : HttpMetadata → ℕ → Bool
  unfolding contains
  rate_limit_evidence m now =
      m.rate_limit_known && leb_ℤ m.rate_limit_remain (pos 0)
      || ltb now m.rate_limit_reset
      || ltb_ℤ (pos 0) m.retry_after
      || contains (to_lower m.body) (codes "rate limit")
      || contains (to_lower m.body) (codes "secondary rate")

  unfoldable pub new_http_failure : Str → Str → HttpMetadata → ℕ → Failure
  unfolding new_failure with_retryable with_status_code with_retry_after with_rate_limit_reset
      with_rate_limit_remaining_value with_request_id
  new_http_failure service op m now = new_failure service op (
      with_retryable (classify_http_status m.status_code (rate_limit_evidence m now))
      ∷ with_status_code m.status_code
      ∷ with_retry_after m.retry_after
      ∷ with_rate_limit_reset m.rate_limit_reset
      ∷ with_rate_limit_remaining_value m.rate_limit_remain m.rate_limit_known
      ∷ with_request_id m.request_id
      ∷ [])
