-- ===== src/App/Traffic.antt =====
-- What any traffic of requests can do to the database: the steps of the system, and no others.
use ledgerlock.App.Parameters.{prepare, over_limit}
use ledgerlock.Auth.{TokenResponse}
use ledgerlock.Auth.Requests.{UserRequest}
use ledgerlock.Routes
use ledgerlock.Auth
use ledgerlock.Routes.Submitted.{funding_created, transfer_created}
use ledgerlock.System.{State, Step, Reach, Elem, Unchanged, commit, init}
use ledgerlock.System.Transfers.{create_transfer-Step}
use ledgerlock.Ledger.Retry.{nth_run}
use ledgerlock.Ledger.Create.{Run, Transactions, create_transfer}
use ledgerlock.Ledger.{Transfer, Session, LedgerWriteResult}
use ledgerlock.Accounts.{ensure_system_account, AccountDraw}
use ledgerlock.Auth.Login.{register_ok}
use ledgerlock.Database.{Database, perform_all}
use ledgerlock.Security.{revoke_token, AuthenticatedUser, Crypto}
use ledgerlock.Mongo.{Mongo}
use ledgerlock.Models.{Account, ObjectId, RevokedToken}
use ledgerlock.App.{
  token_minutes, Request, Call, Surroundings, Body, Effect, nothing, outcome, Program,
  commit_session, commit_database,
}
use ledgerlock.App.Serve.{transfer_outcome, run_call, serve, limited, serve_call, answered}
use ledgerlock.Errors.{unsupported_currency_error, rejected, Result, ok, err, on_passed}
use ledgerlock.Base.{
  none, same_text, any, not, ◌∷◌, ℕ, ◌+◌, Text, Option, List, ◌≡◌, ◌⊎◌, inl, inr, refl, sym, ap,
  ◌∙◌, subst, some,
}

module _ ⦃m : Mongo⦄ where
  -- A commit that the server admits: some run of the schedule returned, it had read a committed version,
  -- no document that it updated has changed since, and the indexes and validators accept the writes.
  pub record Admitted (out : LedgerWriteResult × Session) (met : Surroundings) (s : State)
      (db : Database) : Type 0 where
    pub position : ℕ
    pub run : Run
    pub counted : out.0.attempts ≡ position + 1
    pub scheduled : nth_run met.first_run met.more_runs position ≡ some run
    pub old : Elem run.snapshot (s.current ∷ s.history)
    pub same : Unchanged out.1.writes run.snapshot s.current
    pub done : perform_all out.1.writes s.current ≡ ok db

  -- The state after an effect.
  pub data After (met : Surroundings) (s t : State) : Effect → Type 0 where
    unchanged : t ≡ s → After met s t nothing
    written : (db : Database) → t ≡ commit db s → After met s t (commit_database db)
    committed :
        (out : LedgerWriteResult × Session) (db : Database)
        → Admitted out met s db
        → t ≡ commit db s
        → After met s t (commit_session out)

  After-nothing : {met : Surroundings} {s t : State} → After met s t nothing → t ≡ s
  After-nothing (unchanged same) = same

module _ ⦃m : Mongo⦄ ⦃t : Transactions⦄ ⦃k : Crypto⦄ (program : Program) where
  -- What the service does over time: SYSTEM accounts are provisioned, requests are served in any
  -- circumstances, and the server removes revocations that have expired.
  pub data Traffic : State → Type 0 where
    opening : Traffic init
    provision :
        {s u : State}
        → Traffic s
        → (currency : Text) (d : AccountDraw) (i : ObjectId) (db : Database)
        → ensure_system_account currency d (λ x. x) s.current ≡ ok (i, db)
        → u ≡ commit db s
        → Traffic u
    served :
        {s u : State}
        → Traffic s
        → (request : Request) (met : Surroundings)
        → After met s u (serve program request met s.current).1
        → Traffic u
    expire :
        {s u : State}
        → Traffic s
        → (rs : List RevokedToken) → u ≡ commit (record s.current { revoked_tokens = rs }) s
        → Traffic u

module _ ⦃m : Mongo⦄ ⦃t : Transactions⦄ ⦃k : Crypto⦄ where
  abbrev Moved : State → State → Type 0
  Moved s u = (u ≡ s) ⊎ Step s u

  outcome-Moved :
      {A : Type 0} (r : Result A) (effect : A → Effect) (respond : A → Result Body)
      (met : Surroundings) (s u : State)
      → ((a : A) → r ≡ ok a → After met s u (effect a) → Moved s u)
      → After met s u (outcome r effect respond).0
      → Moved s u
  unfolding outcome
  outcome-Moved (ok a) effect respond met s u moved h = moved a refl h
  outcome-Moved (err e) effect respond met s u moved h = inl (After-nothing h)

  session-Moved :
      (r : Transfer) (met : Surroundings) (s u : State) (out : LedgerWriteResult × Session)
      → create_transfer r met.first_run met.more_runs ≡ ok out
      → After met s u (commit_session out)
      → Moved s u
  session-Moved r met s u out h (committed _ db a e) = inr (
      subst (Step s) (sym e) (
        create_transfer-Step s r met.first_run met.more_runs out a.position a.run db h a.counted
          a.scheduled a.old a.same a.done))

  database-Moved :
      {db : Database} (met : Surroundings) (s u : State)
      → After met s u (commit_database db)
      → (commit db s ≡ u → Moved s u)
      → Moved s u
  database-Moved met s u (written _ e) moved = moved (sym e)

  transfer-Moved :
      (r : Result (LedgerWriteResult × Session)) (met : Surroundings) (s u : State)
      → ((out : LedgerWriteResult × Session)
          → r ≡ ok out
          → (x : Transfer) × (create_transfer x met.first_run met.more_runs ≡ ok out))
      → After met s u (transfer_outcome r).0
      → Moved s u
  transfer-Moved r met s u from h =
      outcome-Moved r commit_session _ met s u
        (λ out is_ok a. let (x, created) = from out is_ok in session-Moved x met s u out created a)
        h

  registered_step :
      (minutes : ℕ) (r : UserRequest) (met : Surroundings) (s u : State) (response : TokenResponse)
      (after : Database)
      → Auth.register r.email r.password met.registration minutes s.current ≡ ok (response, after)
      → commit after s ≡ u
      → Moved s u
  registered_step minutes r met s u response after h e =
      let (_, same, _) =
        register_ok r.email r.password met.registration minutes s.current after response h in
      inr (
        Step.authenticate _ s.current.revoked_tokens
          (sym e ∙ ap (λ (db : Database). commit db s) same))

  opened_step :
      (program : Program) (caller : AuthenticatedUser) (currency label : Text) (met : Surroundings)
      (s u : State) (a : Account) (db : Database)
      → Routes.open_account program.settings.supported_currencies currency label caller met.account
          s.current
        ≡ ok (a, db)
      → commit db s ≡ u
      → Moved s u
  unfolding Routes.open_account
  opened_step program caller currency label met s u a db h e =
      on_passed (not (any (same_text currency) program.settings.supported_currencies))
        (rejected unsupported_currency_error) _ h
        λ _ opened. inr (Step.open_account caller.id currency label met.account a db opened (sym e))

  call-Moved :
      (program : Program) (call : Call) (met : Surroundings) (s u : State)
      → After met s u (run_call program call met s.current).0
      → Moved s u
  unfolding run_call revoke_token
  call-Moved program (Call.register r) met s u h =
      outcome-Moved _ _ _ met s u
        (λ done is_ok a.
          database-Moved met s u a
            (registered_step (token_minutes program) r met s u done.0 done.1 is_ok))
        h
  call-Moved program (Call.login r) met s u h =
      outcome-Moved _ _ _ met s u (λ _ _ a. inl (After-nothing a)) h
  call-Moved program (Call.logout caller) met s u h =
      database-Moved met s u h (λ e. inr (Step.authenticate s.current.users _ (sym e)))
  call-Moved program (Call.read_current_user caller) met s u h =
      outcome-Moved _ _ _ met s u (λ _ _ a. inl (After-nothing a)) h
  call-Moved program (Call.read_reconciliation caller) met s u h = inl (After-nothing h)
  call-Moved program (Call.open_account caller currency label) met s u h =
      outcome-Moved _ _ _ met s u
        (λ done is_ok a.
          database-Moved met s u a
            (opened_step program caller currency label met s u done.0 done.1 is_ok))
        h
  call-Moved program (Call.list_accounts caller limit offset) met s u h = inl (After-nothing h)
  call-Moved program (Call.read_account caller i) met s u h =
      outcome-Moved _ _ _ met s u (λ _ _ a. inl (After-nothing a)) h
  call-Moved program (Call.read_balance caller i) met s u h =
      outcome-Moved _ _ _ met s u (λ _ _ a. inl (After-nothing a)) h
  call-Moved program (Call.read_transaction caller i) met s u h =
      outcome-Moved _ _ _ met s u (λ _ _ a. inl (After-nothing a)) h
  call-Moved program (Call.fund_account caller i key payload) met s u h =
      transfer-Moved _ met s u
        (funding_created i key payload caller met.seen met.seen_later met.first_run met.more_runs) h
  call-Moved program (Call.create_transaction caller key payload) met s u h =
      transfer-Moved _ met s u
        (transfer_created key payload caller met.seen met.seen_later met.first_run met.more_runs) h

  limited-Moved :
      (program : Program) (call : Call) (met : Surroundings) (s u : State)
      (window : Option (Option ℕ))
      → After met s u (limited window (answered call (run_call program call met s.current))).1
      → Moved s u
  limited-Moved program call met s u (some w) h = inl (After-nothing h)
  limited-Moved program call met s u none h = call-Moved program call met s u h

  served_call-Moved :
      (program : Program) (request : Request) (met : Surroundings) (s u : State)
      (prepared : Result Call)
      → After met s u (serve_call program request met s.current prepared).1
      → Moved s u
  served_call-Moved program request met s u (err e) h = inl (After-nothing h)
  served_call-Moved program request met s u (ok call) h =
      limited-Moved program call met s u (over_limit program request met call) h

  serve-Moved :
      (program : Program) (request : Request) (met : Surroundings) (s u : State)
      → After met s u (serve program request met s.current).1
      → Moved s u
  unfolding serve
  serve-Moved program request met s u h =
      served_call-Moved program request met s u (prepare program request met) h

  -- Whatever requests are served, in any order and any circumstances, and as long as the server admits
  -- the commits of transfers as in snapshot isolation, the database goes only through states that the
  -- system reaches by its steps.
  pub Traffic-Reach : (program : Program) {s : State} → Traffic program s → Reach s
  Traffic-Reach program Traffic.opening = Reach.start
  Traffic-Reach program (Traffic.provision before currency d i db run e) =
      Reach.later (Traffic-Reach program before) (Step.provision currency d i db run e)
  Traffic-Reach program (Traffic.served {s} {u} before request met h) =
      elim (serve-Moved program request met s u h) [
        | inl same ↦ subst Reach (sym same) (Traffic-Reach program before)
        | inr step ↦ Reach.later (Traffic-Reach program before) step
      ]
  Traffic-Reach program (Traffic.expire {s} before rs e) =
      Reach.later (Traffic-Reach program before) (Step.authenticate s.current.users rs e)
