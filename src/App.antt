-- ===== src/App.antt =====
-- The application that app/main.py builds of its routers: what happens to a request from its parameters
-- to its response. FastAPI runs the dependencies of a handler in their order, then checks the path, the
-- query and the body; the decorator of the handler asks slowapi; then the body of the handler runs, and
-- the response model is built. Whatever is raised goes to the handlers of Errors/Handlers.
pub mod Parameters
pub mod Serve
pub mod Prepared
pub mod Guarded
pub mod Expected
pub mod Reads
pub mod Addresses
pub mod Answered
pub mod Settled
pub mod Traffic
pub mod Enrolled
pub mod Owned
pub mod Told
use ledgerlock.Auth
use ledgerlock.Routes
use ledgerlock.Routes.Pages
use ledgerlock.Reconciliation.{ReconciliationReport}
use ledgerlock.Accounts.{AccountDraw}
use ledgerlock.Routes.Pages.{PageMeta}
use ledgerlock.Routes.{TransferCreateRequest, FundingCreateRequest}
use ledgerlock.Responses.{TransactionPublic, BalanceResponse, AccountPublic}
use ledgerlock.RateLimit.{auth_limit, transaction_limit, default_limit}
use ledgerlock.Characters.{Unicode}
use ledgerlock.Ledger.Create.{Run}
use ledgerlock.Security.{Credentials, AuthenticatedUser}
use ledgerlock.Ledger.{Session, LedgerWriteResult}
use ledgerlock.Config.{Settings}
use ledgerlock.Database.{Database}
use ledgerlock.Auth.{RegisterDraw, TokenResponse}
use ledgerlock.Errors.Handlers.{unexpected, request_validation, deliberate, Raised, ErrorResponse}
use ledgerlock.Auth.Requests.{UserRequest}
use ledgerlock.Models.{ObjectId, Time}
use ledgerlock.Base.{if◌then◌else◌, List, ℤ, pos_part, Option, Text, ℕ, arith, some, none, []}
use ledgerlock.Errors.{◌>>=◌, ◌>>◌, validation_error, Result, err, ok, Exc}

-- The parameters of a transfer, before ids are read.
pub record TransferPayload : Type 0 where
  pub source_account_id : Text
  pub destination_account_id : Text
  pub amount_minor : ℤ
  pub currency : Text
  pub description : Text

-- The routes, with what a client sends to each.
pub data Endpoint : Type 0 where
  register login : Text → Text → Endpoint
  logout read_current_user read_reconciliation : Endpoint
  open_account : Text → Text → Endpoint
  list_accounts : Option ℤ → Option ℤ → Endpoint
  read_account read_balance read_transaction : Text → Endpoint
  fund_account : Text → FundingCreateRequest → Endpoint
  create_transaction : TransferPayload → Endpoint

pub record Request : Type 0 where
  pub endpoint : Endpoint
  pub authorization : Option Credentials
  pub idempotency_key : Option Text
  pub remote_address : Text

-- The body of a handler with its arguments.
pub data Call : Type 0 where
  register login : UserRequest → Call
  logout read_current_user read_reconciliation : AuthenticatedUser → Call
  open_account : AuthenticatedUser → Text → Text → Call
  list_accounts : AuthenticatedUser → ℤ → ℤ → Call
  read_account read_balance read_transaction : AuthenticatedUser → ObjectId → Call
  fund_account : AuthenticatedUser → ObjectId → Text → FundingCreateRequest → Call
  create_transaction : AuthenticatedUser → Text → TransferCreateRequest → Call

-- What a request meets: clocks, draws, the versions that its reads see, and slowapi's answer for a
-- limit and a key, which is the window of the limit if it is passed.
pub record Surroundings : Type 0 where
  pub now : Time
  pub seen_caller : Database
  pub seen : Database
  pub seen_later : Database
  pub first_run : Run
  pub more_runs : List Run
  pub registration : RegisterDraw
  pub account : AccountDraw
  pub revoked_at : Time
  pub answered_at : Time
  pub exceeded : Text → Text → Option (Option ℕ)

pub data Body : Type 0 where
  token : TokenResponse → Body
  revoked : Body
  own : ObjectId × Text × Time → Body
  account : AccountPublic → Body
  accounts : List AccountPublic → PageMeta → Body
  balance : BalanceResponse → Body
  transaction : TransactionPublic → Body
  report : ReconciliationReport → Body

-- A failure has the status and the code of the envelope.
pub data Reply : Type 0 where
  success : ℕ → Body → Reply
  failure : ℕ → Text → Reply

-- What a request leaves behind: a new version of the database, or a session to commit.
pub data Effect : Type 0 where
  nothing : Effect
  commit_database : Database → Effect
  commit_session : LedgerWriteResult × Session → Effect

abbrev pub failed : ErrorResponse → Reply
failed r = failure r.status r.code

-- What an exception is to the handlers, while the parameters are read: pydantic's is a
-- RequestValidationError.
abbrev pub raised_by_parameters : Exc → Raised
raised_by_parameters (Exc.rejected e) = deliberate e none
raised_by_parameters Exc.validation_error = request_validation []
raised_by_parameters e = unexpected []

-- The same in the body of a handler, where no one expects pydantic's.
abbrev pub raised_by_body : Exc → Raised
raised_by_body (Exc.rejected e) = deliberate e none
raised_by_body e = unexpected []

-- ObjectIdStr
abbrev pub or_bad_id : Option ObjectId → Result ObjectId
or_bad_id none = err validation_error
or_bad_id (some i) = ok i

-- A body that writes, if it does, and then builds its response.
unfoldable pub outcome :
    {A : Type 0} → Result A → (A → Effect) → (A → Result Body) → Effect × Result Body
outcome (err e) effect respond = (nothing, err e)
outcome (ok a) effect respond = (effect a, respond a)

-- `status_code` of the route.
unfoldable pub success_status : Call → ℕ
success_status (Call.register r) = 201
success_status (Call.open_account caller currency label) = 201
success_status (Call.fund_account caller i key payload) = 201
success_status (Call.create_transaction caller key payload) = 201
success_status call = 200

-- The limit in the decorator of the handler.
unfoldable pub limit_of : Settings → Call → Text
limit_of settings (Call.register r) = auth_limit settings
limit_of settings (Call.login r) = auth_limit settings
limit_of settings (Call.fund_account caller i key payload) = transaction_limit settings
limit_of settings (Call.create_transaction caller key payload) = transaction_limit settings
limit_of settings call = default_limit settings

-- Who makes the call, where authentication has told.
unfoldable pub caller_of_call : Call → Option AuthenticatedUser
caller_of_call (Call.register r) = none
caller_of_call (Call.login r) = none
caller_of_call (Call.logout caller) = some caller
caller_of_call (Call.read_current_user caller) = some caller
caller_of_call (Call.read_reconciliation caller) = some caller
caller_of_call (Call.open_account caller currency label) = some caller
caller_of_call (Call.list_accounts caller limit offset) = some caller
caller_of_call (Call.read_account caller i) = some caller
caller_of_call (Call.read_balance caller i) = some caller
caller_of_call (Call.read_transaction caller i) = some caller
caller_of_call (Call.fund_account caller i key payload) = some caller
caller_of_call (Call.create_transaction caller key payload) = some caller

-- What the program runs with: its settings, and pydantic's reading of an address.
pub record Program : Type 0 where
  pub settings : Settings
  pub unicode : Unicode
  pub validate_email : Text → Option Text

abbrev pub token_minutes : Program → ℕ
token_minutes program = pos_part program.settings.access_token_expire_minutes
