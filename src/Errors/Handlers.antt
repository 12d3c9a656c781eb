-- ===== src/Errors/Handlers.antt =====
-- app/core/errors.py: the handlers that turn whatever a request raises into a response, with the one
-- for the rate limit (app/core/rate_limit.py). What a handler only logs is left out.
use ledgerlock.Errors.{LedgerlockError, code_of, status_code, LedgerlockError, ErrorCode}
use ledgerlock.Base.{
  leb, ◌==◌, map, if◌then◌else◌, drop, ◌++◌, List, ℕ, codes, Option, some, none, ◌∷◌, [], Text,
}

-- `str(code)`
unfoldable pub code_text : ErrorCode → Text
code_text ErrorCode.malformed_request = codes "MALFORMED_REQUEST"
code_text ErrorCode.not_found = codes "NOT_FOUND"
code_text ErrorCode.method_not_allowed = codes "METHOD_NOT_ALLOWED"
code_text ErrorCode.rate_limited = codes "RATE_LIMITED"
code_text ErrorCode.internal_error = codes "INTERNAL_ERROR"
code_text ErrorCode.invalid_credentials = codes "INVALID_CREDENTIALS"
code_text ErrorCode.email_already_registered = codes "EMAIL_ALREADY_REGISTERED"
code_text ErrorCode.unauthenticated = codes "UNAUTHENTICATED"
code_text ErrorCode.token_revoked = codes "TOKEN_REVOKED"
code_text ErrorCode.token_expired = codes "TOKEN_EXPIRED"
code_text ErrorCode.forbidden = codes "FORBIDDEN"
code_text ErrorCode.account_not_found = codes "ACCOUNT_NOT_FOUND"
code_text ErrorCode.account_not_active = codes "ACCOUNT_NOT_ACTIVE"
code_text ErrorCode.unsupported_currency = codes "UNSUPPORTED_CURRENCY"
code_text ErrorCode.insufficient_funds = codes "INSUFFICIENT_FUNDS"
code_text ErrorCode.duplicate_submission = codes "DUPLICATE_SUBMISSION"
code_text ErrorCode.idempotency_key_required = codes "IDEMPOTENCY_KEY_REQUIRED"
code_text ErrorCode.malformed_idempotency_key = codes "MALFORMED_IDEMPOTENCY_KEY"
code_text ErrorCode.transaction_not_found = codes "TRANSACTION_NOT_FOUND"
code_text ErrorCode.currency_mismatch = codes "CURRENCY_MISMATCH"
code_text ErrorCode.same_account_transfer = codes "SAME_ACCOUNT_TRANSFER"
code_text ErrorCode.ledger_immutable = codes "LEDGER_IMMUTABLE"
code_text ErrorCode.write_conflict = codes "WRITE_CONFLICT"

-- The class attribute `message`.
unfoldable pub default_message : LedgerlockError → Text
default_message LedgerlockError.base = codes "Request could not be processed."
default_message LedgerlockError.invalid_credentials_error = codes "Email or password is incorrect."
default_message LedgerlockError.email_already_registered_error =
    codes "An account with this email already exists."
default_message LedgerlockError.unauthenticated_error = codes "Authentication required."
default_message LedgerlockError.token_revoked_error =
    codes "This token has been revoked. Log in again."
default_message LedgerlockError.token_expired_error = codes "This token has expired. Log in again."
default_message LedgerlockError.forbidden_error = codes "You do not have access to this resource."
default_message LedgerlockError.account_not_found_error = codes "Account not found."
default_message LedgerlockError.account_not_active_error =
    codes "Account is not ACTIVE and cannot take part in a transaction."
default_message LedgerlockError.unsupported_currency_error =
    codes "That currency is not supported by this deployment."
default_message LedgerlockError.insufficient_funds_error =
    codes "Source account has insufficient funds for this transfer."
default_message LedgerlockError.duplicate_submission_error =
    codes "This Idempotency-Key has already been used. The original "
default_message LedgerlockError.idempotency_key_required_error =
    codes "An Idempotency-Key header is required to create a transaction."
default_message LedgerlockError.malformed_idempotency_key_error =
    codes
      "Idempotency-Key must be 8-128 characters using only letters, digits, and the characters _ . : -"
default_message LedgerlockError.transaction_not_found_error = codes "Transaction not found."
default_message LedgerlockError.currency_mismatch_error =
    codes
      "Source and destination accounts hold different currencies. Cross-currency conversion is out of scope (see PRD.md)."
default_message LedgerlockError.same_account_transfer_error =
    codes "Source and destination accounts must be different."
default_message LedgerlockError.ledger_immutable_error =
    codes
      "Ledger entries are immutable. They cannot be updated or deleted. Record a compensating transaction instead."
default_message LedgerlockError.write_conflict_error =
    codes
      "The ledger was concurrently modified and this write could not be serialised after retrying. Retry with the same Idempotency-Key."

-- The `error` object of the envelope, with the header that a client waits by.
pub record ErrorResponse : Type 0 where
  pub status : ℕ
  pub code : Text
  pub message : Text
  pub retry_after : Option ℕ

unfoldable pub error_response : ℕ → ErrorCode → Text → ErrorResponse
unfolding code_text
error_response status code message = record {
  status = status;
  code = code_text code;
  message = message;
  retry_after = none;
}

-- `LedgerlockError.__init__`: a message of its own, unless it is missing or empty.
unfoldable pub message_of : LedgerlockError → Option Text → Text
message_of e none = default_message e
message_of e (some []) = default_message e
message_of e (some (c ∷ message)) = c ∷ message

unfoldable pub handle_ledgerlock_error : LedgerlockError → Option Text → ErrorResponse
unfolding message_of
handle_ledgerlock_error e message =
    error_response (status_code e) (code_of e) (message_of e message)

-- What the handler reads of one of pydantic's problems with a request: where, and what is wrong. `msg`
-- is the validator's own text, and some validators put something of the submitted value into it.
pub record Problem : Type 0 where
  pub loc : List Text
  pub msg : Text

-- `separator.join(parts)`
unfoldable pub join_with : Text → List Text → Text
join_with separator [] = []
join_with separator (part ∷ []) = part
join_with separator (part ∷ next ∷ parts) =
    part ++ (separator ++ join_with separator (next ∷ parts))

abbrev pub text_or : Text → Text → Text
text_or [] other = other
text_or (c ∷ t) other = c ∷ t

-- The field and what is wrong with it, without the `input` of the problem.
unfoldable pub problem_text : Problem → Text
unfolding join_with
problem_text p =
    text_or (join_with (codes ".") (drop 1 p.loc)) (codes "body") ++ (codes ": " ++ p.msg)

unfoldable pub handle_validation_error : List Problem → ErrorResponse
unfolding problem_text join_with error_response
handle_validation_error problems =
    error_response 422 ErrorCode.malformed_request
      (codes "Request validation failed. " ++ join_with (codes "; ") (map problem_text problems))

-- `code_by_status.get(status, MALFORMED_REQUEST)`
unfoldable pub code_by_status : ℕ → ErrorCode
code_by_status status =
    if status == 401
    then ErrorCode.unauthenticated
    else if status == 403
    then ErrorCode.forbidden
    else if status == 404
    then ErrorCode.not_found
    else if status == 405
    then ErrorCode.method_not_allowed
    else if status == 429
    then ErrorCode.rate_limited
    else ErrorCode.malformed_request

unfoldable pub handle_http_exception : ℕ → Text → ErrorResponse
unfolding code_by_status
handle_http_exception status detail =
    error_response status
      (if leb 500 status then ErrorCode.internal_error else code_by_status status) detail

-- `exception` is what the exception says of itself; it is logged and not returned.
unfoldable pub handle_unexpected_error : Text → ErrorResponse
handle_unexpected_error exception =
    error_response 500 ErrorCode.internal_error (codes "An internal error occurred.")

-- The window of the limit that was passed, or a minute where it cannot be told.
unfoldable pub handle_rate_limit_exceeded : Option ℕ → ErrorResponse
unfolding code_text
handle_rate_limit_exceeded expiry = record {
  status = 429;
  code = code_text ErrorCode.rate_limited;
  message =
      codes
        "Too many requests. Slow down and retry after the interval given in the Retry-After header.";
  retry_after = some (elim expiry [ none ↦ 60 | some seconds ↦ seconds ]);
}

-- What a request may raise, by the handler that takes it.
pub data Raised : Type 0 where
  deliberate : LedgerlockError → Option Text → Raised
  request_validation : List Problem → Raised
  http_exception : ℕ → Text → Raised
  rate_limit_exceeded : Option ℕ → Raised
  unexpected : Text → Raised

-- `register_exception_handlers` and `register_rate_limiting`
unfoldable pub handle : Raised → ErrorResponse
handle (deliberate e message) = handle_ledgerlock_error e message
handle (request_validation problems) = handle_validation_error problems
handle (http_exception status detail) = handle_http_exception status detail
handle (rate_limit_exceeded expiry) = handle_rate_limit_exceeded expiry
handle (unexpected exception) = handle_unexpected_error exception
