-- ===== src/App/Settled.antt =====
-- An error leaves nothing behind: what a write has done is kept only under a success.
use ledgerlock.App.Parameters.{over_limit, prepare}
use ledgerlock.App.Prepared.{ReadsAgain, IsRead, reread, Prepared-ok}
use ledgerlock.App.Addresses.{registered_shown}
use ledgerlock.System.Typed.{create_account-HasCode, code_of_document}
use ledgerlock.Routes.Submitted.{transfer_created, funding_created}
use ledgerlock.Responses.Built.{account_public_built, transaction_public_built}
use ledgerlock.Accounts.{AccountDraw}
use ledgerlock.Routes
use ledgerlock.Ledger.Retry.{create_transfer_ok}
use ledgerlock.Ledger.Applied.{apply_transfer_ok}
use ledgerlock.Ledger.{header, open_session, Transfer, Session, LedgerWriteResult}
use ledgerlock.Ledger.Create.{Run, Transactions, create_transfer}
use ledgerlock.Responses.{transaction_public, account_public}
use ledgerlock.Security.{AuthenticatedUser, Crypto}
use ledgerlock.Mongo.{Mongo}
use ledgerlock.Database.{Database}
use ledgerlock.Models.{Account, is_currency_code}
use ledgerlock.App.{
  some, Request, Call, Surroundings, Body, Effect, nothing, outcome, Program, failure,
}
use ledgerlock.App.Serve.{run_call, serve, reply_of, answered, limited, serve_call}
use ledgerlock.Errors.{unsupported_currency_error, rejected, on_passed, Result, Exc, ok, err, ◌>>=◌}
use ledgerlock.Base.{
  none, some, same_text, any, Option, ℕ, Text, ◌≡◌, refl, sym, ap, ◌∙◌, not, List,
}

-- The response of a write can be built, so its failure comes before the write.
outcome_settled :
    {A : Type 0} (r : Result A) (effect : A → Effect) (respond : A → Result Body) (e : Exc)
    → ((a : A) → r ≡ ok a → (b : Body) × (respond a ≡ ok b))
    → (outcome r effect respond).1 ≡ err e
    → (outcome r effect respond).0 ≡ nothing
unfolding outcome
outcome_settled (ok a) effect respond e built h =
    let (b, made) = built a refl in absurd (cc (sym made ∙ h))
outcome_settled (err x) effect respond e built h = refl

outcome_nothing :
    {A : Type 0} (r : Result A) (respond : A → Result Body)
    → (outcome r (λ _. nothing) respond).0 ≡ nothing
unfolding outcome
outcome_nothing (ok a) respond = refl
outcome_nothing (err x) respond = refl

module _ ⦃m : Mongo⦄ ⦃t : Transactions⦄ ⦃k : Crypto⦄ where
  transfer_shown :
      (r : Transfer) (run : Run) (rest : List Run) (out : LedgerWriteResult × Session)
      → create_transfer r run rest ≡ ok out
      → (b : Body) × ((transaction_public out.0.transaction_document >>= λ shown.
            ok (Body.transaction shown))
          ≡ ok b)
  transfer_shown r run rest out h =
      let c = create_transfer_ok r run rest out h in
      let a =
        apply_transfer_ok _ r c.committed.draw (open_session c.committed.snapshot) out c.applied in
      let (public, built) = transaction_public_built out.0.transaction_document (
        ap (λ (x : LedgerWriteResult). is_currency_code x.transaction_document.currency) a.result
        ∙ code_of_document (header r c.committed.draw) a.well_formed) in
      (Body.transaction public, rw built refl)

  opened_shown :
      (supported : List Text) (currency label : Text) (caller : AuthenticatedUser) (d : AccountDraw)
      (db : Database) (done : Account × Database)
      → Routes.open_account supported currency label caller d db ≡ ok done
      → (b : Body) × ((account_public done.0 >>= λ shown. ok (Body.account shown)) ≡ ok b)
  unfolding Routes.open_account
  opened_shown supported currency label caller d db done h =
      on_passed (not (any (same_text currency) supported)) (rejected unsupported_currency_error) _ h
        λ _ opened.
          let (public, built) =
            account_public_built done.0
              (create_account-HasCode caller.id currency label d db done opened) in
          (Body.account public, rw built refl)

  shown_of :
      (done : Result (LedgerWriteResult × Session)) (met : Surroundings)
      → ((out : LedgerWriteResult × Session)
          → done ≡ ok out
          → (r : Transfer) × (create_transfer r met.first_run met.more_runs ≡ ok out))
      → (out : LedgerWriteResult × Session) → done ≡ ok out
      → (b : Body) × ((transaction_public out.0.transaction_document >>= λ shown.
            ok (Body.transaction shown))
          ≡ ok b)
  shown_of done met from out is_ok =
      let (r, made) = from out is_ok in transfer_shown r met.first_run met.more_runs out made

  call_settled :
      (program : Program) (call : Call) (met : Surroundings) (current : Database) (e : Exc)
      → ReadsAgain program
      → IsRead program call
      → (run_call program call met current).1 ≡ err e
      → (run_call program call met current).0 ≡ nothing
  unfolding run_call
  call_settled program (Call.register r) met current e again read h =
      outcome_settled _ _ _ e
        (λ done. registered_shown program r met current done (reread program r.email again read.1))
        h
  call_settled program (Call.login r) met current e again read h = outcome_nothing _ _
  call_settled program (Call.logout caller) met current e again read h = absurd (cc)
  call_settled program (Call.read_current_user caller) met current e again read h =
      outcome_nothing _ _
  call_settled program (Call.read_reconciliation caller) met current e again read h = refl
  call_settled program (Call.open_account caller currency label) met current e again read h =
      outcome_settled _ _ _ e
        (opened_shown program.settings.supported_currencies currency label caller met.account
          current)
        h
  call_settled program (Call.list_accounts caller limit offset) met current e again read h = refl
  call_settled program (Call.read_account caller i) met current e again read h = outcome_nothing _ _
  call_settled program (Call.read_balance caller i) met current e again read h = outcome_nothing _ _
  call_settled program (Call.read_transaction caller i) met current e again read h =
      outcome_nothing _ _
  call_settled program (Call.fund_account caller i key payload) met current e again read h =
      outcome_settled _ _ _ e
        (shown_of _ met (
          funding_created i key payload caller met.seen met.seen_later met.first_run met.more_runs))
        h
  call_settled program (Call.create_transaction caller key payload) met current e again read h =
      outcome_settled _ _ _ e
        (shown_of _ met
          (transfer_created key payload caller met.seen met.seen_later met.first_run met.more_runs))
        h

reply_failure :
    (call : Call) (r : Result Body) (status : ℕ) (code : Text)
    → reply_of call r ≡ failure status code
    → (e : Exc) × (r ≡ err e)
reply_failure call (ok b) status code h = absurd (cc)
reply_failure call (err e) status code h = (e, refl)

module _ ⦃m : Mongo⦄ ⦃t : Transactions⦄ ⦃k : Crypto⦄ where
  limited_settled :
      (program : Program) (call : Call) (met : Surroundings) (current : Database)
      (window : Option (Option ℕ)) (status : ℕ) (code : Text)
      → ReadsAgain program
      → IsRead program call
      → (limited window (answered call (run_call program call met current))).0 ≡ failure status code
      → (limited window (answered call (run_call program call met current))).1 ≡ nothing
  limited_settled program call met current (some w) status code again read h = refl
  limited_settled program call met current none status code again read h =
      let (e, raised) = reply_failure call (run_call program call met current).1 status code h in
      call_settled program call met current e again read raised

  serve_call_settled :
      (program : Program) (request : Request) (met : Surroundings) (current : Database)
      (ready : Result Call) (status : ℕ) (code : Text)
      → ReadsAgain program
      → prepare program request met ≡ ready
      → (serve_call program request met current ready).0 ≡ failure status code
      → (serve_call program request met current ready).1 ≡ nothing
  unfolding prepare
  serve_call_settled program request met current (err e) status code again same h = refl
  serve_call_settled program request met current (ok call) status code again same h =
      limited_settled program call met current (over_limit program request met call) status code
        again (Prepared-ok program request.endpoint request met call same).read h

  -- If an address that is accepted is accepted again in lower case, a request that is answered with an
  -- error leaves nothing behind: no new version of the database and no session to commit. No handler
  -- writes and then fails on its response.
  pub serve_settled :
      (program : Program) (request : Request) (met : Surroundings) (current : Database) (status : ℕ)
      (code : Text)
      → ReadsAgain program
      → (serve program request met current).0 ≡ failure status code
      → (serve program request met current).1 ≡ nothing
  unfolding serve
  serve_settled program request met current status code again h =
      serve_call_settled program request met current (prepare program request met) status code again
        refl h
