-- ===== src/Errors/Envelope.antt =====
-- What every error response has in common.
use ledgerlock.Errors.Handlers.{
  error_response, handle_rate_limit_exceeded, handle_http_exception, handle_validation_error,
  handle_ledgerlock_error, handle_unexpected_error, code_text, ErrorResponse, code_by_status,
  handle, Raised,
}
use ledgerlock.Errors.{ErrorCode, code_of, status_code, LedgerlockError}
use ledgerlock.Base.{leb, Bool-cases, ◌≡◌, ◌<◌, ◌≢◌, ◌≤◌, ℕ, inr, inl, arith, refl}

abbrev pub IsErrorStatus : ℕ → Type 0
IsErrorStatus status = (400 ≤ status) × (status < 600)

-- The status of the response: an HTTP exception brings its own, which Starlette or FastAPI has chosen.
abbrev pub HasStatus : Raised → ℕ → Type 0
HasStatus (Raised.http_exception own detail) status = status ≡ own
HasStatus _ status = IsErrorStatus status

-- A deliberate rejection is the client's error, and it does not say INTERNAL_ERROR.
pub rejection_status :
    (e : LedgerlockError)
    → (400 ≤ status_code e) × (status_code e < 500) × (code_of e ≢ ErrorCode.internal_error)
unfolding status_code code_of
rejection_status LedgerlockError.base = ground arith
rejection_status _ = ground arith

code_by_status_lem : (status : ℕ) → code_by_status status ≢ ErrorCode.internal_error
unfolding code_by_status
code_by_status_lem status e = ground arith

-- The envelope: a code of the list, which is INTERNAL_ERROR exactly from 500 on.
abbrev pub IsEnvelope : ErrorResponse → Type 0
IsEnvelope response =
    (code : ErrorCode) × (response.code ≡ code_text code)
    × (500 ≤ response.status → code ≡ ErrorCode.internal_error)
    × (code ≡ ErrorCode.internal_error → 500 ≤ response.status)

-- The response to anything that a request raises has a code of the list, and the code is
-- INTERNAL_ERROR exactly if the status is 500 or more. The status is that of the exception for an HTTP
-- exception, whatever it is, and a status from 400 to 599 for everything else.
pub handle-IsEnvelope : (r : Raised) → HasStatus r (handle r).status × IsEnvelope (handle r)
unfolding handle handle_ledgerlock_error handle_validation_error handle_http_exception
    handle_rate_limit_exceeded handle_unexpected_error error_response
handle-IsEnvelope (Raised.deliberate e message) =
    let (low, high, client) = rejection_status e in
    (
      (low, omega arith),
      (code_of e, refl, λ server. absurd (omega arith), λ internal. absurd (client internal)),
    )
handle-IsEnvelope (Raised.request_validation problems) = (
  (omega arith, omega arith),
  (ErrorCode.malformed_request, refl, λ server. absurd (omega arith), λ e. absurd (cc)),
)
handle-IsEnvelope (Raised.http_exception status detail) = elim (Bool-cases (leb 500 status)) [
  | inl server ↦ (refl, (ErrorCode.internal_error, rw server, λ _. refl, λ _. ground arith))
  | inr client ↦ (
    refl,
    (
      code_by_status status,
      rw client,
      λ server. absurd (ground arith),
      λ e. absurd (code_by_status_lem status e),
    ),
  )
]
handle-IsEnvelope (Raised.rate_limit_exceeded expiry) = (
  (omega arith, omega arith),
  (ErrorCode.rate_limited, refl, λ server. absurd (omega arith), λ e. absurd (cc)),
)
handle-IsEnvelope (Raised.unexpected exception) =
    ((omega arith, omega arith), (ErrorCode.internal_error, refl, λ _. refl, λ _. omega arith))
