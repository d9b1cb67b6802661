-- ===== src/Core/Errors.antt =====
-- app/core/exceptions/taxonomy.py: the classes of the program's errors. A class is a constructor,
-- its class variables are functions of it. The cause that an error carries is left out.
use self_learning_trading_ag.Base.{
  ℕ, Bool, true, false, Option, List, [], ◌∷◌, Text, text, text_eq, if◌then◌else◌,
}

pub data ErrorClass : Type 0 where
  domain_error provider_unavailable rate_limited provider_timeout authentication : ErrorClass
  provider_validation malformed_data unsupported_capability idempotency_conflict : ErrorClass
  configuration risk_block not_found insufficient_data fatal_system : ErrorClass

pub record DomainError : Type 0 where
  pub class : ErrorClass
  pub message : Text
  pub provider : Option Text

-- `error_code`
unfoldable pub error_code : ErrorClass → Text
error_code domain_error = text "domain_error"
error_code provider_unavailable = text "provider_unavailable"
error_code rate_limited = text "rate_limited"
error_code provider_timeout = text "provider_timeout"
error_code authentication = text "authentication"
error_code provider_validation = text "provider_validation"
error_code malformed_data = text "malformed_data"
error_code unsupported_capability = text "unsupported_capability"
error_code idempotency_conflict = text "idempotency_conflict"
error_code configuration = text "configuration"
error_code risk_block = text "risk_block"
error_code not_found = text "not_found"
error_code insufficient_data = text "insufficient_data"
error_code fatal_system = text "fatal_system"

-- `retryable`
unfoldable pub retryable : ErrorClass → Bool
retryable domain_error = false
retryable provider_unavailable = true
retryable rate_limited = true
retryable provider_timeout = true
retryable authentication = false
retryable provider_validation = false
retryable malformed_data = false
retryable unsupported_capability = false
retryable idempotency_conflict = false
retryable configuration = false
retryable risk_block = true
retryable not_found = false
retryable insufficient_data = false
retryable fatal_system = false

-- `ERROR_HTTP_STATUS`
abbrev pub error_http_status : List (Text × ℕ)
error_http_status =
    (text "provider_unavailable", 502)
    ∷ (text "rate_limited", 429)
    ∷ (text "provider_timeout", 504)
    ∷ (text "authentication", 401)
    ∷ (text "provider_validation", 400)
    ∷ (text "malformed_data", 502)
    ∷ (text "unsupported_capability", 400)
    ∷ (text "idempotency_conflict", 409)
    ∷ (text "configuration", 500)
    ∷ (text "risk_block", 400)
    ∷ (text "not_found", 404)
    ∷ (text "insufficient_data", 422)
    ∷ (text "fatal_system", 500)
    ∷ (text "domain_error", 400)
    ∷ []

-- `dict.get(key, default)`
unfoldable pub get_or : Text → ℕ → List (Text × ℕ) → ℕ
get_or key default [] = default
get_or key default ((k, n) ∷ rest) = if text_eq k key then n else get_or key default rest

-- `http_status_for`
unfoldable pub http_status_for : DomainError → ℕ
http_status_for e = get_or (error_code e.class) 400 error_http_status
