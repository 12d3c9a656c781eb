-- ===== src/App/Serve.antt =====
-- A call and a request, from the parameters to the reply and to what is left behind.
use ledgerlock.App.Parameters.{prepare, over_limit}
use ledgerlock.App.{
  Request, Call, Surroundings, Body, Reply, Effect, nothing, commit_database, commit_session,
  success, token, revoked, own, accounts, balance, report, failed, raised_by_parameters,
  raised_by_body, outcome, success_status, Program, token_minutes,
}
use ledgerlock.Auth
use ledgerlock.Routes
use ledgerlock.Routes.Pages
use ledgerlock.Routes.Pages.{list_page}
use ledgerlock.Routes.{submit_transfer, submit_funding}
use ledgerlock.Responses.{user_shown, token_shown, each, account_public, transaction_public}
use ledgerlock.Ledger.Create.{Transactions}
use ledgerlock.Security.{revoke_token, Crypto}
use ledgerlock.Ledger.{Session, LedgerWriteResult}
use ledgerlock.Database.{Database}
use ledgerlock.Auth.{own_record}
use ledgerlock.Errors.Handlers.{rate_limit_exceeded, handle}
use ledgerlock.Mongo.{Mongo}
use ledgerlock.Base.{Option, ℕ, some, none}
use ledgerlock.Errors.{◌>>=◌, Result, err, ok}

-- The reply to a body's response or exception.
abbrev pub reply_of : Call → Result Body → Reply
reply_of call (ok body) = success (success_status call) body
reply_of call (err e) = failed (handle (raised_by_body e))

abbrev pub answered : Call → Effect × Result Body → Reply × Effect
answered call done = (reply_of call done.1, done.0)

-- The call, unless slowapi refuses it.
abbrev pub limited : Option (Option ℕ) → Reply × Effect → Reply × Effect
limited none done = done
limited (some window) done = (failed (handle (rate_limit_exceeded window)), nothing)

module _ ⦃m : Mongo⦄ ⦃t : Transactions⦄ ⦃k : Crypto⦄ where
  abbrev pub transfer_outcome : Result (LedgerWriteResult × Session) → Effect × Result Body
  transfer_outcome r =
      outcome r commit_session (λ out. do
        shown ← transaction_public out.0.transaction_document
        ok (Body.transaction shown))

  -- The body of the handler, on the current database where it writes without a session.
  unfoldable pub run_call : Program → Call → Surroundings → Database → Effect × Result Body
  run_call program (Call.register r) met current =
      outcome (Auth.register r.email r.password met.registration (token_minutes program) current)
        (λ done. commit_database done.1)
        (λ done. do shown ← token_shown program.validate_email done.0; ok (token shown))
  run_call program (Call.login r) met current =
      outcome
        (Auth.login r.email r.password met.registration.jti met.registration.issued_at
          (token_minutes program) met.seen)
        (λ _. nothing)
        (λ response. do shown ← token_shown program.validate_email response; ok (token shown))
  run_call program (Call.logout caller) met current = (
    commit_database
        (revoke_token caller.jti caller.id caller.token_expires_at met.revoked_at current),
    ok revoked,
  )
  run_call program (Call.read_current_user caller) met current =
      outcome (own_record caller met.seen) (λ _. nothing)
        (λ public. do shown ← user_shown program.validate_email public; ok (own shown))
  run_call program (Call.read_reconciliation caller) met current =
      (nothing, ok (report (Pages.read_reconciliation caller met.seen met.answered_at)))
  run_call program (Call.open_account caller currency label) met current =
      outcome
        (Routes.open_account program.settings.supported_currencies currency label caller met.account
          current)
        (λ done. commit_database done.1)
        (λ done. do shown ← account_public done.0; ok (Body.account shown))
  run_call program (Call.list_accounts caller limit offset) met current = (
    nothing,
    do
      page ← list_page limit offset caller met.seen
      shown ← each account_public page.accounts
      ok (accounts shown page.page),
  )
  run_call program (Call.read_account caller i) met current =
      outcome (Routes.read_account i caller met.seen) (λ _. nothing)
        (λ shown. ok (Body.account shown))
  run_call program (Call.read_balance caller i) met current =
      outcome (Routes.read_balance i caller met.seen met.seen_later met.answered_at) (λ _. nothing)
        (λ shown. ok (balance shown))
  run_call program (Call.read_transaction caller i) met current =
      outcome (Routes.read_transaction i caller met.seen met.seen_later) (λ _. nothing)
        (λ found. do shown ← transaction_public found; ok (Body.transaction shown))
  run_call program (Call.fund_account caller i key payload) met current =
      transfer_outcome
        (submit_funding i key payload caller met.seen met.seen_later met.first_run met.more_runs)
  run_call program (Call.create_transaction caller key payload) met current =
      transfer_outcome
        (submit_transfer key payload caller met.seen met.seen_later met.first_run met.more_runs)

  abbrev pub serve_call : Program → Request → Surroundings → Database → Result Call → Reply × Effect
  serve_call program request met current (err e) =
      (failed (handle (raised_by_parameters e)), nothing)
  serve_call program request met current (ok call) =
      limited (over_limit program request met call)
        (answered call (run_call program call met current))

  unfoldable pub serve : Program → Request → Surroundings → Database → Reply × Effect
  serve program request met current =
      serve_call program request met current (prepare program request met)
