-- ===== src/App/Parameters.antt =====
-- The dependencies and the parameters of the routes, which FastAPI reads before the handler, and what
-- slowapi is asked.
use ledgerlock.App.{
  TransferPayload, Endpoint, Request, Call, Surroundings, or_bad_id, limit_of, caller_of_call,
  Program,
}
use ledgerlock.Accounts.{default_page_size}
use ledgerlock.Routes.Pages.{is_page}
use ledgerlock.Routes.{
  is_amount_request, require_idempotency_key, is_account_request, FundingCreateRequest,
}
use ledgerlock.RateLimit.{rate_limiting_is_disabled, LimitedRequest, rate_limit_key}
use ledgerlock.Security.{get_current_user, AuthenticatedUser, Crypto}
use ledgerlock.Config.{or_default}
use ledgerlock.Mongo.{Mongo}
use ledgerlock.Auth.Requests.{login_request, register_request}
use ledgerlock.Base.{not, if◌then◌else◌, ℤ, Option, Text, ℕ, pos, some, none}
use ledgerlock.Errors.{◌>>=◌, ◌>>◌, raise_if, validation_error, Result, ok}

module _ ⦃m : Mongo⦄ ⦃k : Crypto⦄ where
  -- The dependency of all routes but two.
  abbrev pub caller_of_request : Request → Surroundings → Result AuthenticatedUser
  caller_of_request request met = get_current_user request.authorization met.now met.seen_caller

  -- POST /accounts
  abbrev pub opening_parameters : Text → Text → Request → Surroundings → Result Call
  opening_parameters currency label request met = do
    caller ← caller_of_request request met
    raise_if (not (is_account_request currency label)) validation_error
    ok (Call.open_account caller currency label)

  -- GET /accounts
  abbrev pub page_parameters : Option ℤ → Option ℤ → Request → Surroundings → Result Call
  page_parameters given_limit given_offset request met = do
    caller ← caller_of_request request met
    let limit = or_default given_limit (pos default_page_size)
    let offset = or_default given_offset (pos 0)
    raise_if (not (is_page limit offset)) validation_error
    ok (Call.list_accounts caller limit offset)

  -- POST /accounts/{account_id}/funding
  abbrev pub funding_parameters : Text → FundingCreateRequest → Request → Surroundings → Result Call
  funding_parameters account_id payload request met = do
    key ← require_idempotency_key request.idempotency_key
    caller ← caller_of_request request met
    i ← or_bad_id (k.object_id account_id)
    raise_if (not (is_amount_request payload.amount_minor payload.currency payload.description))
        validation_error
    ok (Call.fund_account caller i key payload)

  -- POST /transactions
  abbrev pub transfer_parameters : TransferPayload → Request → Surroundings → Result Call
  transfer_parameters payload request met = do
    key ← require_idempotency_key request.idempotency_key
    caller ← caller_of_request request met
    source ← or_bad_id (k.object_id payload.source_account_id)
    destination ← or_bad_id (k.object_id payload.destination_account_id)
    raise_if (not (is_amount_request payload.amount_minor payload.currency payload.description))
        validation_error
    ok (
        Call.create_transaction caller key (record {
          source_account_id = source;
          destination_account_id = destination;
          amount_minor = payload.amount_minor;
          currency = payload.currency;
          description = payload.description;
        }))

  -- The dependencies and the parameters of each route, in FastAPI's order. Those above have guards.
  unfoldable pub prepare_endpoint : Program → Endpoint → Request → Surroundings → Result Call
  prepare_endpoint program (Endpoint.register email password) request met = do
    payload ← register_request program.unicode program.validate_email email password
    ok (Call.register payload)
  prepare_endpoint program (Endpoint.login email password) request met = do
    payload ← login_request program.unicode program.validate_email email password
    ok (Call.login payload)
  prepare_endpoint program Endpoint.logout request met = do
    caller ← caller_of_request request met
    ok (Call.logout caller)
  prepare_endpoint program Endpoint.read_current_user request met = do
    caller ← caller_of_request request met
    ok (Call.read_current_user caller)
  prepare_endpoint program Endpoint.read_reconciliation request met = do
    caller ← caller_of_request request met
    ok (Call.read_reconciliation caller)
  prepare_endpoint program (Endpoint.open_account currency label) request met =
      opening_parameters currency label request met
  prepare_endpoint program (Endpoint.list_accounts given_limit given_offset) request met =
      page_parameters given_limit given_offset request met
  prepare_endpoint program (Endpoint.read_account account_id) request met = do
    caller ← caller_of_request request met
    i ← or_bad_id (k.object_id account_id)
    ok (Call.read_account caller i)
  prepare_endpoint program (Endpoint.read_balance account_id) request met = do
    caller ← caller_of_request request met
    i ← or_bad_id (k.object_id account_id)
    ok (Call.read_balance caller i)
  prepare_endpoint program (Endpoint.read_transaction transaction_id) request met = do
    caller ← caller_of_request request met
    i ← or_bad_id (k.object_id transaction_id)
    ok (Call.read_transaction caller i)
  prepare_endpoint program (Endpoint.fund_account account_id payload) request met =
      funding_parameters account_id payload request met
  prepare_endpoint program (Endpoint.create_transaction payload) request met =
      transfer_parameters payload request met

  unfoldable pub prepare : Program → Request → Surroundings → Result Call
  unfolding prepare_endpoint
  prepare program request met = prepare_endpoint program request.endpoint request met

  -- `request.state.user_id`, as `get_current_user` leaves it.
  abbrev pub user_id_of : Option AuthenticatedUser → Option Text
  user_id_of none = none
  user_id_of (some u) = some (k.object_id_text u.id)

  -- What slowapi counts the call against.
  unfoldable pub limited_request : Request → Call → LimitedRequest
  unfolding caller_of_call
  limited_request request call = record {
    user_id = user_id_of (caller_of_call call);
    remote_address = request.remote_address;
  }

  -- `@limiter.limit(..., exempt_when=rate_limiting_is_disabled)`
  unfoldable pub over_limit : Program → Request → Surroundings → Call → Option (Option ℕ)
  unfolding limited_request limit_of rate_limit_key
  over_limit program request met call =
      if rate_limiting_is_disabled program.settings
      then none
      else met.exceeded (limit_of program.settings call)
          (rate_limit_key (limited_request request call))
