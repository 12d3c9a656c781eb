-- ===== src/Tests/Served.antt =====
-- Requests to the application at concrete inputs: a registration, the opening of an account and its
-- funding, from an empty database.
use ledgerlock.Balance.{compute_balance}
use ledgerlock.App.Parameters.{over_limit, prepare}
use ledgerlock.Errors.{code_of, status_code, ok}
use ledgerlock.Characters.{strip}
use ledgerlock.Ledger.Guards.{record_of, result_of, credit_of, debit_of}
use ledgerlock.Errors.Handlers.{error_response, handle_ledgerlock_error, handle}
use ledgerlock.Accounts.{get_system_account, create_account, get_owned_account_or_raise}
use ledgerlock.Ledger.{
  write, check_funds, validate_participants, apply_transfer, Session, header, LedgerWriteResult,
  Transfer,
}
use ledgerlock.Routes.{
  submit_funding, is_amount_request, is_account_request, require_idempotency_key,
}
use ledgerlock.Auth
use ledgerlock.Routes
use ledgerlock.Mongo.{distinct, insert_checked}
use ledgerlock.RateLimit.{rate_limiting_is_disabled}
use ledgerlock.Auth.Requests.{normalise_email, is_password, register_request}
use ledgerlock.App.Traffic.{Traffic, Admitted, After, Traffic-Reach}
use ledgerlock.App.Prepared.{ReadsAgain}
use ledgerlock.App.Told.{serve-Told}
use ledgerlock.App.Settled.{serve_settled}
use ledgerlock.App.Guarded.{serve-Authorised, Authorised}
use ledgerlock.App.Answered.{serve_answers}
use ledgerlock.App.Serve.{run_call, serve}
use ledgerlock.App.{
  success_status, outcome, Request, Endpoint, Surroundings, Program, Reply, Effect, Body, success,
  failure, nothing,
}
use ledgerlock.Security.{
  hash_password, user_by_id, is_token_revoked, decode_access_token, get_current_user, utf8_length,
  Credentials, create_access_token,
}
use ledgerlock.Auth.{RegisterDraw, TokenResponse, token_response}
use ledgerlock.Auth.Login.{registered}
use ledgerlock.System.{State, Reach, init, commit}
use ledgerlock.Database.{
  clash_transaction, account_by_id, transaction_by_key, clash_entry, ledger_entry_validator,
  clash_account, insert_many, transaction_validator, perform_all, perform, Database,
}
use ledgerlock.Models.{
  sign_must_match_direction, ledger_entry_document, signed_amount_for, create_entry, is_upper,
  is_key_char, is_idempotency_key, is_transaction_document, AccountStatus, AccountType,
  transaction_document, is_amount_minor, is_currency_code, User,
}
use ledgerlock.Ledger.Create.{callback, create_transfer}
use ledgerlock.Responses.{
  to_response, BalanceResponse, transaction_public, account_public, AccountPublic,
}
use ledgerlock.Tests.Setup.{
  provision_runs, deposit_draw, deposit, deposit_draw, server, driver, usd, provisioned, opened,
}
use ledgerlock.Tests.Crypto.{clear}
use ledgerlock.Tests.Service.{settings, latin}
use ledgerlock.Base.{
  ◌+ℤ◌, sum_by, ◌≤ℤ◌, all, ◌<◌, ap, inl, neg, same_text, first, any, codes, Option, ◌≡◌, pos, refl,
  some, none, ◌∷◌, [],
}

abbrev program : Program
program = record { settings = settings; unicode = latin; validate_email = λ t. some t }

abbrev draw : RegisterDraw
draw = record {
  salt = codes "s";
  user_id = 10;
  created_at = 50_000;
  jti = codes "j1";
  issued_at = 50_500;
}

abbrev met : Database → Surroundings
met seen = record {
  now = 70_000;
  seen_caller = seen;
  seen = seen;
  seen_later = seen;
  first_run = record { snapshot = seen; draw = deposit_draw; fault = none };
  more_runs = [];
  registration = draw;
  account = record { account_id = 2; created_at = 101; updated_at = 101 };
  revoked_at = 70_001;
  answered_at = 70_002;
  exceeded = λ limit key. none;
}

abbrev ada : User
ada = registered (codes "a@b.cd") (codes "correct-horse") draw

abbrev issued : TokenResponse
issued = token_response (create_access_token 10 (codes "j1") 50_500 60) ada

abbrev by_ada : Option Credentials
by_ada = some (record { scheme = codes "Bearer"; credentials = issued.access_token })

abbrev sent : Option Credentials → Endpoint → Request
sent who endpoint = record {
  endpoint = endpoint;
  authorization = who;
  idempotency_key = some (codes "deposit-1");
  remote_address = codes "10.0.0.1";
}

abbrev joining : Request
joining = sent none (Endpoint.register (codes " A@b.cd") (codes "correct-horse"))

abbrev joined : Database
joined = record provisioned { users = ada ∷ [] }

register_runs :
    serve program joining (met provisioned) provisioned
    ≡ (success 201 (Body.token issued), Effect.commit_database joined)
unfolding serve prepare register_request is_password utf8_length over_limit
    rate_limiting_is_disabled run_call outcome ledgerlock.Auth.register hash_password perform server
    insert_checked any success_status normalise_email strip
register_runs = refl

abbrev opening_wallet : Request
opening_wallet = sent by_ada (Endpoint.open_account usd (codes "wallet"))

abbrev with_wallet : Database
with_wallet = record opened { users = ada ∷ [] }

abbrev shown_wallet : AccountPublic
shown_wallet = record {
  id = 2 ∷ [];
  owner_id = some (10 ∷ []);
  currency = usd;
  status = AccountStatus.active;
  account_type = AccountType.user;
  label = codes "wallet";
  created_at = 101;
}

open_runs :
    serve program opening_wallet (met joined) joined
    ≡ (success 201 (Body.account shown_wallet), Effect.commit_database with_wallet)
unfolding serve prepare over_limit rate_limiting_is_disabled run_call outcome server clear
    get_current_user decode_access_token is_token_revoked first user_by_id same_text
    create_access_token perform insert_checked any is_account_request is_currency_code
    ledgerlock.Routes.open_account create_account clash_account account_public success_status
open_runs = refl

abbrev depositing : Request
depositing = sent by_ada (
    Endpoint.fund_account (2 ∷ [])
      (record { amount_minor = pos 500; currency = usd; description = [] }))

abbrev funding : Transfer
funding = record deposit { submitted_by = some 10 }

abbrev with_deposit : Database
with_deposit = record with_wallet {
  transactions = header funding deposit_draw ∷ [];
  ledger_entries = debit_of funding deposit_draw ∷ credit_of funding deposit_draw ∷ [];
}

abbrev deposit_out : LedgerWriteResult × Session
deposit_out = (
  result_of 1 funding deposit_draw,
  record { view = with_deposit; writes = record_of funding deposit_draw },
)

deposit_served :
    (serve program depositing (met with_wallet) with_wallet).1 ≡ Effect.commit_session deposit_out
unfolding serve prepare over_limit rate_limiting_is_disabled run_call outcome server clear
    get_current_user decode_access_token is_token_revoked first user_by_id same_text
    create_access_token require_idempotency_key is_amount_request is_amount_minor is_currency_code
    submit_funding get_owned_account_or_raise get_system_account create_transfer driver callback
    apply_transfer transaction_by_key validate_participants account_by_id check_funds
    transaction_document is_transaction_document is_idempotency_key is_key_char is_upper all write
    perform insert_checked transaction_validator clash_transaction any create_entry
    signed_amount_for ledger_entry_document sign_must_match_direction insert_many
    ledger_entry_validator clash_entry neg transaction_public success_status
deposit_served = refl

deposit_commits : perform_all (record_of funding deposit_draw) with_wallet ≡ ok with_deposit
unfolding perform_all perform server insert_checked transaction_validator is_currency_code any
    insert_many ledger_entry_validator neg clash_entry
deposit_commits = refl

abbrev elsewhere : Request
elsewhere = sent by_ada (Endpoint.open_account (codes "EUR") (codes "wallet"))

elsewhere_fails :
    (serve program elsewhere (met joined) joined).0 ≡ failure 422 (codes "UNSUPPORTED_CURRENCY")
unfolding serve prepare over_limit rate_limiting_is_disabled run_call outcome server clear
    get_current_user decode_access_token is_token_revoked first user_by_id same_text
    create_access_token any is_account_request is_currency_code ledgerlock.Routes.open_account
    handle handle_ledgerlock_error error_response status_code code_of
elsewhere_fails = refl

abbrev unknown : Request
unknown = sent by_ada (Endpoint.read_account (7 ∷ []))

unknown_fails :
    (serve program unknown (met joined) joined).0 ≡ failure 404 (codes "ACCOUNT_NOT_FOUND")
unfolding serve prepare over_limit rate_limiting_is_disabled run_call outcome server clear
    get_current_user decode_access_token is_token_revoked first user_by_id same_text
    create_access_token ledgerlock.Routes.read_account get_owned_account_or_raise handle
    handle_ledgerlock_error error_response status_code code_of
unknown_fails = refl

abbrev start : State
start = commit provisioned init

abbrev with_deposit_state : State
with_deposit_state = commit with_deposit (commit with_wallet (commit joined start))

Traffic-joined : Traffic program (commit joined start)
Traffic-joined =
    Traffic.served
      (Traffic.provision Traffic.opening usd
        (record { account_id = 1; created_at = 100; updated_at = 100 }) 1 provisioned provision_runs
        refl)
      joining (met provisioned) (rw register_runs (After.written joined refl))

Traffic-opened : Traffic program (commit with_wallet (commit joined start))
Traffic-opened =
    Traffic.served Traffic-joined opening_wallet (met joined)
      (rw open_runs (After.written with_wallet refl))

deposit-Admitted :
    Admitted deposit_out (met with_wallet) (commit with_wallet (commit joined start)) with_deposit
deposit-Admitted = record {
  position = 0;
  run = record { snapshot = with_wallet; draw = deposit_draw; fault = none };
  counted = refl;
  scheduled = refl;
  old = inl refl;
  same = tt;
  done = deposit_commits;
}

Traffic-deposited : Traffic program with_deposit_state
Traffic-deposited =
    Traffic.served Traffic-opened depositing (met with_wallet)
      (rw deposit_served (After.committed deposit_out with_deposit deposit-Admitted refl))

program-ReadsAgain : ReadsAgain program
program-ReadsAgain given address accepted = (_, refl)

Traffic-Reach_example : Reach with_deposit_state
Traffic-Reach_example = Traffic-Reach program Traffic-deposited

serve_settled_example : (serve program elsewhere (met joined) joined).1 ≡ nothing
serve_settled_example =
    serve_settled program elsewhere (met joined) joined 422 (codes "UNSUPPORTED_CURRENCY")
      program-ReadsAgain elsewhere_fails

serve-Authorised_example :
    Authorised program opening_wallet (met joined) joined (Body.account shown_wallet)
serve-Authorised_example =
    serve-Authorised program opening_wallet (met joined) joined 201 (Body.account shown_wallet) refl
      (ap (λ (r : Reply × Effect). r.0) open_runs)

serve_answers_example : 404 < 500
serve_answers_example =
    serve_answers program program-ReadsAgain Traffic-joined unknown (met joined) 404
      (codes "ACCOUNT_NOT_FOUND") (inl refl) (inl refl) refl unknown_fails

abbrev asking : Request
asking = sent by_ada (Endpoint.read_balance (2 ∷ []))

abbrev shown_balance : BalanceResponse
shown_balance = record {
  account_id = 2 ∷ [];
  currency = usd;
  balance_minor = pos 500;
  total_credited_minor = pos 500;
  total_debited_minor = pos 0;
  entry_count = 1;
  computed_at = 70_002;
}

balance_served :
    (serve program asking (met with_deposit) with_deposit).0
    ≡ success 200 (Body.balance shown_balance)
unfolding serve prepare over_limit rate_limiting_is_disabled run_call outcome server clear
    get_current_user decode_access_token is_token_revoked first user_by_id same_text
    create_access_token ledgerlock.Routes.read_balance get_owned_account_or_raise to_response
    is_currency_code compute_balance distinct sum_by ◌+ℤ◌ success_status
balance_served = refl

serve-Told_example : pos 0 ≤ℤ pos 500
serve-Told_example =
    serve-Told program Traffic-deposited asking (met with_deposit) 200 (Body.balance shown_balance)
      (inl refl) (inl refl) balance_served
