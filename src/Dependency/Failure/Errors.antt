-- ===== src/Dependency/Failure/Errors.antt =====
-- internal/dependency/failure.go: the trees of errors, and the search for a failure in one.
use ephemeral_action_runner.Shared.{ℕ, ℤ, Str, Bool, true, false, ◌||◌, Option, none, some, is_some}

-- A Failure without its cause, which stands beside it in `Error`.
pub record Failure : Type 0 where
  pub service : Str
  pub operation : Str
  pub retryable : Bool
  pub retry_after : ℤ
  pub rate_limit_reset : ℕ
  pub rate_limit_remain : ℤ
  pub rate_limit_known : Bool
  pub request_id : Str
  pub status_code : ℤ

-- The errors that the code tells apart: a Failure with and without a cause, a provider's error that may
-- carry a Failure, the sentinels of `context`, the certificate errors, a DNS error, an operation error
-- of `net` and what it wraps, another `net.Error` by its Timeout and Temporary, a `url.Error` by the
-- same and what it wraps, an error that wraps one or joins two, and any other.
pub data Error : Type 0 where
  failure : Failure → Error → Error
  bare_failure : Failure → Error
  carrier : Option Failure → Error
  canceled deadline_exceeded : Error
  certificate unknown_authority hostname insecure_algorithm : Error
  dns : Error
  operation : Error → Error
  network : Bool → Bool → Error
  url : Bool → Bool → Error → Error
  wrap : Error → Error
  join : Error → Error → Error
  plain : Error

-- The search of `errors.As`: an error itself, then what it wraps, the first of a join first.
module _ {ℓ} {A : Type ℓ} where
  abbrev pub or_else : Option A → Option A → Option A
  or_else none o = o
  or_else (some a) o = some a

  unfoldable pub find : (Error → Option A) → Error → Option A
  find p (Error.failure f e) = or_else (p (Error.failure f e)) (find p e)
  find p (Error.operation e) = or_else (p (Error.operation e)) (find p e)
  find p (Error.url t u e) = or_else (p (Error.url t u e)) (find p e)
  find p (Error.wrap e) = or_else (p (Error.wrap e)) (find p e)
  find p (Error.join e d) = or_else (p (Error.join e d)) (or_else (find p e) (find p d))
  find p (Error.bare_failure f) = p (Error.bare_failure f)
  find p (Error.carrier o) = p (Error.carrier o)
  find p Error.canceled = p Error.canceled
  find p Error.deadline_exceeded = p Error.deadline_exceeded
  find p Error.certificate = p Error.certificate
  find p Error.unknown_authority = p Error.unknown_authority
  find p Error.hostname = p Error.hostname
  find p Error.insecure_algorithm = p Error.insecure_algorithm
  find p Error.dns = p Error.dns
  find p (Error.network t u) = p (Error.network t u)
  find p Error.plain = p Error.plain

abbrev here : Bool → Option (Unit {0})
here true = some tt
here false = none

-- `errors.Is` for a sentinel, and `errors.As` where the value is not used.
unfoldable pub has : (Error → Bool) → Error → Bool
unfolding find
has p e = is_some (find (λ d. here (p d)) e)

abbrev own_failure : Error → Option Failure
own_failure (Error.failure f e) = some f
own_failure (Error.bare_failure f) = some f
own_failure _ = none

abbrev carried : Error → Option (Option Failure)
carried (Error.carrier o) = some o
carried _ = none

unfoldable pub as_failure : Error → Option Failure
unfolding find
as_failure e = or_else (find own_failure e) (elim (find carried e) [ none ↦ none | some o ↦ o ])

abbrev pub is_canceled : Error → Bool
is_canceled Error.canceled = true
is_canceled _ = false

abbrev pub is_deadline : Error → Bool
is_deadline Error.deadline_exceeded = true
is_deadline _ = false

abbrev pub is_certificate : Error → Bool
is_certificate Error.certificate = true
is_certificate Error.unknown_authority = true
is_certificate Error.hostname = true
is_certificate Error.insecure_algorithm = true
is_certificate _ = false

abbrev pub is_dns : Error → Bool
is_dns Error.dns = true
is_dns _ = false

abbrev pub is_operation : Error → Bool
is_operation (Error.operation e) = true
is_operation _ = false

-- Timeout and Temporary of the first error that is a `net.Error`; a `url.Error` is one.
abbrev pub as_network : Error → Option Bool
as_network (Error.network t u) = some (t || u)
as_network (Error.url t u e) = some (t || u)
as_network _ = none
