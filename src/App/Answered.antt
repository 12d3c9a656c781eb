-- ===== src/App/Answered.antt =====
-- A request is answered: what the parameters and the bodies raise is no internal error.
use ledgerlock.Accounts.{bson_limit}
use ledgerlock.App.Parameters.{prepare, over_limit}
use ledgerlock.App.Addresses.{
  Addressed, registered_shown, login-shown, own_shown, login-only, register-only, own_record-only,
}
use ledgerlock.App.Enrolled.{Traffic-Addressed}
use ledgerlock.App.Traffic.{Traffic, Traffic-Reach}
use ledgerlock.App.Reads.{
  read_account-only, read_balance-only, transaction_code, read_transaction-only, list_page-built,
}
use ledgerlock.Errors.Envelope.{rejection_status}
use ledgerlock.Errors.Handlers.{
  deliberate, request_validation, rate_limit_exceeded, error_response, handle_rate_limit_exceeded,
  handle_validation_error, handle_ledgerlock_error, handle, ErrorResponse,
}
use ledgerlock.App.Expected.{only, only-outcome, is_rejection, is_expected, prepare_endpoint-only}
use ledgerlock.App.Prepared.{
  Route, route_of, route_of_call, ReadsAgain, IsRead, reread, Prepared-ok,
}
use ledgerlock.App.{
  Request, Call, Surroundings, Program, Body, failure, failed, raised_by_parameters, token_minutes,
}
use ledgerlock.App.Serve.{run_call, serve, serve_call, limited, answered, reply_of}
use ledgerlock.Responses.Built.{transaction_public_built}
use ledgerlock.System.Typed.{Typed, Reach-Typed, Reach-version}
use ledgerlock.System.{State, Reach, Elem}
use ledgerlock.Mongo.{Mongo}
use ledgerlock.Security.{Crypto}
use ledgerlock.Ledger.Create.{Transactions}
use ledgerlock.Database.{Database}
use ledgerlock.Errors.{LedgerlockError, Result, Exc, ok, err}
use ledgerlock.Base.{
  pos_part, leb, Bool, true, false, Option, some, none, ◌≡◌, ◌<◌, refl, ap, ◌∙◌, subst, [], ◌∷◌,
  Text, ℕ, arith,
}

-- The routes whose writes draw a new id in a collection that tells no other clash from it, and a list
-- from an offset that no BSON integer holds.
abbrev pub may_fail : Route → Bool
may_fail Route.open_account = true
may_fail Route.fund_account = true
may_fail Route.create_transaction = true
may_fail (Route.list_accounts offset) = leb bson_limit (pos_part offset)
may_fail _ = false

module _ ⦃m : Mongo⦄ ⦃t : Transactions⦄ ⦃k : Crypto⦄ where
  call-only :
      (program : Program) (call : Call) (met : Surroundings) (current : Database)
      → Typed met.seen
      → Typed met.seen_later
      → ReadsAgain program
      → Addressed program met.seen
      → IsRead program call
      → may_fail (route_of_call call) ≡ false
      → only is_rejection (run_call program call met current).1 ≡ true
  unfolding run_call
  call-only program (Call.register r) met current typed typed' again addressed read quiet =
      only-outcome is_rejection _ _ _
        (register-only r.email r.password met.registration (token_minutes program) current read.0)
        λ done is_ok.
          let (_, built) =
            registered_shown program r met current done (reread program r.email again read.1)
              is_ok in
          rw built refl
  call-only program (Call.login r) met current typed typed' again addressed read quiet =
      only-outcome is_rejection _ _ _ (login-only r.email r.password _ _ _ met.seen)
        λ response is_ok.
          let (_, built) =
            login-shown program r.email r.password _ _ _ met.seen response addressed is_ok in
          rw built refl
  call-only program (Call.logout caller) met current typed typed' again addressed read quiet = refl
  call-only program (Call.read_current_user caller) met current typed typed' again addressed read
        quiet =
      only-outcome is_rejection _ _ _ (own_record-only caller met.seen) λ public is_ok.
        let (_, built) = own_shown program caller met.seen public addressed is_ok in rw built refl
  call-only program (Call.read_reconciliation caller) met current typed typed' again addressed read
        quiet =
      refl
  call-only program (Call.open_account caller currency label) met current typed typed' again
        addressed read quiet =
      absurd (cc)
  call-only program (Call.list_accounts caller limit offset) met current typed typed' again
        addressed read quiet =
      let (_, _, listed, built) = list_page-built limit offset caller met.seen typed quiet in
      rw (listed, built) refl
  call-only program (Call.read_account caller i) met current typed typed' again addressed read
        quiet =
      only-outcome is_rejection _ _ _ (read_account-only i caller met.seen typed) λ _ _. refl
  call-only program (Call.read_balance caller i) met current typed typed' again addressed read
        quiet =
      only-outcome is_rejection _ _ _
        (read_balance-only i caller met.seen met.seen_later met.answered_at typed typed')
        λ _ _. refl
  call-only program (Call.read_transaction caller i) met current typed typed' again addressed read
        quiet =
      only-outcome is_rejection _ _ _ (read_transaction-only i caller met.seen met.seen_later)
        λ x found.
          let (_, built) =
            transaction_public_built x
              (transaction_code i caller met.seen met.seen_later x typed found) in
          rw built refl
  call-only program (Call.fund_account caller i key payload) met current typed typed' again
        addressed read quiet =
      absurd (cc)
  call-only program (Call.create_transaction caller key payload) met current typed typed' again
        addressed read quiet =
      absurd (cc)

failed_status :
    (r : ErrorResponse) (status : ℕ) (code : Text)
    → failed r ≡ failure status code
    → r.status ≡ status
failed_status r status code h = cc

rejection_below :
    (e : LedgerlockError) (status : ℕ) (code : Text)
    → failed (handle (deliberate e none)) ≡ failure status code
    → status < 500
unfolding handle handle_ledgerlock_error error_response
rejection_below e status code h =
    let (_, low, _) = rejection_status e in
    subst (λ (n : ℕ). n < 500) (failed_status (handle (deliberate e none)) status code h) low

parameters_below :
    (e : Exc) (status : ℕ) (code : Text)
    → is_expected e ≡ true
    → failed (handle (raised_by_parameters e)) ≡ failure status code
    → status < 500
unfolding handle handle_validation_error error_response
parameters_below (Exc.rejected e) status code expected h = rejection_below e status code h
parameters_below Exc.validation_error status code expected h =
    subst (λ (n : ℕ). n < 500) (failed_status (handle (request_validation [])) status code h)
      (omega arith)
parameters_below Exc.value_error status code expected h = absurd (cc)
parameters_below Exc.duplicate_key status code expected h = absurd (cc)
parameters_below Exc.runtime_error status code expected h = absurd (cc)
parameters_below Exc.overflow_error status code expected h = absurd (cc)
parameters_below (Exc.connection_failure b) status code expected h = absurd (cc)
parameters_below (Exc.operation_failure b) status code expected h = absurd (cc)

body_below :
    (call : Call) (r : Result Body) (status : ℕ) (code : Text)
    → only is_rejection r ≡ true
    → reply_of call r ≡ failure status code
    → status < 500
body_below call (ok b) status code rejections h = absurd (cc)
body_below call (err (Exc.rejected e)) status code rejections h = rejection_below e status code h
body_below call (err Exc.validation_error) status code rejections h = absurd (cc)
body_below call (err Exc.value_error) status code rejections h = absurd (cc)
body_below call (err Exc.duplicate_key) status code rejections h = absurd (cc)
body_below call (err Exc.runtime_error) status code rejections h = absurd (cc)
body_below call (err Exc.overflow_error) status code rejections h = absurd (cc)
body_below call (err (Exc.connection_failure b)) status code rejections h = absurd (cc)
body_below call (err (Exc.operation_failure b)) status code rejections h = absurd (cc)

limit_below :
    (window : Option ℕ) (status : ℕ) (code : Text)
    → failed (handle (rate_limit_exceeded window)) ≡ failure status code
    → status < 500
unfolding handle handle_rate_limit_exceeded
limit_below window status code h =
    subst (λ (n : ℕ). n < 500) (failed_status (handle (rate_limit_exceeded window)) status code h)
      (omega arith)

module _ ⦃m : Mongo⦄ where
  pub version-Typed :
      {s : State} (v : Database) → Reach s → Elem v (s.current ∷ s.history) → Typed v
  version-Typed v reached old =
      let (u, before, same) = Reach-version v reached old in subst Typed same (Reach-Typed before)

module _ ⦃m : Mongo⦄ ⦃t : Transactions⦄ ⦃k : Crypto⦄ where
  limited_below :
      (program : Program) (call : Call) (met : Surroundings) (current : Database)
      (window : Option (Option ℕ)) (status : ℕ) (code : Text)
      → only is_rejection (run_call program call met current).1 ≡ true
      → (limited window (answered call (run_call program call met current))).0 ≡ failure status code
      → status < 500
  limited_below program call met current (some w) status code rejections h =
      limit_below w status code h
  limited_below program call met current none status code rejections h =
      body_below call (run_call program call met current).1 status code rejections h

  served_below :
      (program : Program) (request : Request) (met : Surroundings) (current : Database)
      (ready : Result Call) (status : ℕ) (code : Text)
      → Typed met.seen
      → Typed met.seen_later
      → ReadsAgain program
      → Addressed program met.seen
      → may_fail (route_of request.endpoint) ≡ false
      → prepare program request met ≡ ready
      → (serve_call program request met current ready).0 ≡ failure status code
      → status < 500
  unfolding prepare
  served_below program request met current (err e) status code typed typed' again addressed quiet
        same h =
      parameters_below e status code
        (subst (λ (r : Result Call). only is_expected r ≡ true) same
          (prepare_endpoint-only program request.endpoint request met))
        h
  served_below program request met current (ok call) status code typed typed' again addressed quiet
        same h =
      let p = Prepared-ok program request.endpoint request met call same in
      limited_below program call met current (over_limit program request met call) status code
        (call-only program call met current typed typed' again addressed p.read
          (ap may_fail p.same_route ∙ quiet))
        h

  -- After any traffic, and if an address that is accepted is accepted again in lower case: no request
  -- is answered with an internal error, whichever committed versions its reads see, unless its route is
  -- one of the three that draw an id for an account or a transaction, or it lists accounts from an
  -- offset of 2 ^ 63 or more. All failures have a status below 500; so the response models accept every
  -- user, account, balance and transaction that is read.
  pub serve_answers :
      (program : Program) {s : State}
      → ReadsAgain program
      → Traffic program s
      → (request : Request) (met : Surroundings) (status : ℕ) (code : Text)
      → Elem met.seen (s.current ∷ s.history)
      → Elem met.seen_later (s.current ∷ s.history)
      → may_fail (route_of request.endpoint) ≡ false
      → (serve program request met s.current).0 ≡ failure status code
      → status < 500
  unfolding serve
  serve_answers program {s} again traffic request met status code old old' quiet h =
      let reached = Traffic-Reach program traffic in
      served_below program request met s.current (prepare program request met) status code
        (version-Typed met.seen reached old) (version-Typed met.seen_later reached old') again
        (Traffic-Addressed program met.seen again traffic old) quiet refl h
