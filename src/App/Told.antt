-- ===== src/App/Told.antt =====
-- What a client is told of the ledger.
use ledgerlock.App.Owned.{owned_user, owned_nonneg}
use ledgerlock.Routes.Pages.{list_page}
use ledgerlock.App.Parameters.{prepare, over_limit}
use ledgerlock.Balance.{compute_balance}
use ledgerlock.Reconciliation.Healthy.{gather_report-Reach}
use ledgerlock.App.Traffic.{Traffic-Reach, Traffic}
use ledgerlock.App.Serve.{answered, serve_call, limited, serve, run_call}
use ledgerlock.Security.{AuthenticatedUser, Crypto}
use ledgerlock.Ledger.Create.{Transactions}
use ledgerlock.Responses.{is_balance_response, BalanceResponse, to_response}
use ledgerlock.Reconciliation.{gather_report, reconcile}
use ledgerlock.Balance.Laws.{balance-compute_balance}
use ledgerlock.Database.{Database}
use ledgerlock.Accounts.{get_owned_account_or_raise}
use ledgerlock.System.{Elem, Reach, State}
use ledgerlock.App.{
  token, own, accounts, success, Surroundings, Call, Request, Program, Effect, outcome, Body,
}
use ledgerlock.Mongo.{Mongo}
use ledgerlock.Models.{Time, ObjectId}
use ledgerlock.Errors.{validation_error, on_passed, ok_injective, on_ok, Result, ◌>>=◌, err, ok}
use ledgerlock.Base.{ℤ, ℕ, not, subst, sym, ◌≤ℤ◌, ◌≡◌, Option, pos, refl, true, some, none, ◌∷◌}
use ledgerlock.Routes
use ledgerlock.Routes.Pages
use ledgerlock.App.Guarded.{reply_success}
use ledgerlock.App.Answered.{version-Typed}
use ledgerlock.System.Typed.{Reach-version}
use ledgerlock.System.Invariant.{Reach-Inv}
use ledgerlock.System.Sound.{Sound}

-- A report is healthy, and a balance is at zero or above.
abbrev pub Told : Body → Type 0
Told (Body.report r) = r.healthy ≡ true
Told (Body.balance b) = pos 0 ≤ℤ b.balance_minor
Told _ = Unit

module _ ⦃m : Mongo⦄ where
  version-Sound : {s : State} (v : Database) → Reach s → Elem v (s.current ∷ s.history) → Sound v
  version-Sound v reached old =
      let (u, before, same) = Reach-version v reached old in
      subst Sound same (Reach-Inv before).sound

module _ ⦃m : Mongo⦄ ⦃k : Crypto⦄ where
  balance_told :
      {s : State} (i : ObjectId) (caller : AuthenticatedUser) (seen later : Database) (now : Time)
      (b : BalanceResponse)
      → Reach s
      → Elem seen (s.current ∷ s.history)
      → Elem later (s.current ∷ s.history)
      → Routes.read_balance i caller seen later now ≡ ok b
      → pos 0 ≤ℤ b.balance_minor
  unfolding Routes.read_balance to_response
  balance_told i caller seen later now b reached old old' h =
      on_ok (get_owned_account_or_raise i caller.id seen) _ h λ a found h1.
        on_passed (not (is_balance_response a.currency (compute_balance a.id later.ledger_entries)))
          validation_error _ h1
          λ _ done.
            let (of_user, there) =
              owned_user i caller.id seen a (version-Typed seen reached old)
                (version-Sound seen reached old) found in
            subst (λ (x : BalanceResponse). pos 0 ≤ℤ x.balance_minor) (ok_injective done)
              (subst (λ (x : ℤ). pos 0 ≤ℤ x)
                (sym (balance-compute_balance a.id later.ledger_entries))
                (owned_nonneg a.id seen later a reached old old' of_user there
                  (version-Sound later reached old')))

  report_told :
      {s : State} (caller : AuthenticatedUser) (seen : Database) (now : Time)
      → Reach s
      → Elem seen (s.current ∷ s.history)
      → (Pages.read_reconciliation caller seen now).healthy ≡ true
  unfolding Pages.read_reconciliation reconcile
  report_told caller seen now reached old =
      let (u, before, same) = Reach-version seen reached old in
      subst (λ (db : Database). (gather_report db now).healthy ≡ true) same
        (gather_report-Reach before now).0

outcome-Told :
    {A : Type 0} (r : Result A) (effect : A → Effect) (respond : A → Result Body) (body : Body)
    → ((a : A) → r ≡ ok a → respond a ≡ ok body → Told body)
    → (outcome r effect respond).1 ≡ ok body
    → Told body
unfolding outcome
outcome-Told (ok a) effect respond body told h = told a refl h
outcome-Told (err e) effect respond body told h = absurd (cc)

shown-Told :
    {A : Type 0} (r : Result A) (make : A → Body) (body : Body)
    → ((a : A) → r ≡ ok a → Told (make a))
    → (r >>= λ a. ok (make a)) ≡ ok body
    → Told body
shown-Told r make body told h =
    on_ok r _ h λ a is_ok done. subst Told (ok_injective done) (told a is_ok)

module _ ⦃m : Mongo⦄ ⦃t : Transactions⦄ ⦃k : Crypto⦄ where
  call-Told :
      {s : State} (program : Program) (call : Call) (met : Surroundings) (current : Database)
      (body : Body)
      → Reach s
      → Elem met.seen (s.current ∷ s.history)
      → Elem met.seen_later (s.current ∷ s.history)
      → (run_call program call met current).1 ≡ ok body
      → Told body
  unfolding run_call
  call-Told program (Call.register r) met current body reached old old' h =
      outcome-Told _ _ _ body (λ done _. shown-Told _ token body (λ _ _. tt)) h
  call-Told program (Call.login r) met current body reached old old' h =
      outcome-Told _ _ _ body (λ done _. shown-Told _ token body (λ _ _. tt)) h
  call-Told program (Call.logout caller) met current body reached old old' h =
      subst Told (ok_injective h) tt
  call-Told program (Call.read_current_user caller) met current body reached old old' h =
      outcome-Told _ _ _ body (λ done _. shown-Told _ own body (λ _ _. tt)) h
  call-Told program (Call.read_reconciliation caller) met current body reached old old' h =
      subst Told (ok_injective h) (report_told caller met.seen met.answered_at reached old)
  call-Told program (Call.open_account caller currency label) met current body reached old old' h =
      outcome-Told _ _ _ body (λ done _. shown-Told _ Body.account body (λ _ _. tt)) h
  call-Told program (Call.list_accounts caller limit offset) met current body reached old old' h =
      on_ok (list_page limit offset caller met.seen) _ h
        λ page _ h1. shown-Told _ (λ shown. accounts shown page.page) body (λ _ _. tt) h1
  call-Told program (Call.read_account caller i) met current body reached old old' h =
      outcome-Told _ _ _ body (λ shown _ done. subst Told (ok_injective done) tt) h
  call-Told program (Call.read_balance caller i) met current body reached old old' h =
      outcome-Told _ _ _ body
        (λ shown is_ok done. subst Told (ok_injective done) (
          balance_told i caller met.seen met.seen_later met.answered_at shown reached old old'
            is_ok))
        h
  call-Told program (Call.read_transaction caller i) met current body reached old old' h =
      outcome-Told _ _ _ body (λ found _. shown-Told _ Body.transaction body (λ _ _. tt)) h
  call-Told program (Call.fund_account caller i key payload) met current body reached old old' h =
      outcome-Told _ _ _ body (λ out _. shown-Told _ Body.transaction body (λ _ _. tt)) h
  call-Told program (Call.create_transaction caller key payload) met current body reached old old'
        h =
      outcome-Told _ _ _ body (λ out _. shown-Told _ Body.transaction body (λ _ _. tt)) h

  within_limit :
      (program : Program) (call : Call) (met : Surroundings) (current : Database) (status : ℕ)
      (body : Body) (window : Option (Option ℕ))
      → (limited window (answered call (run_call program call met current))).0 ≡ success status body
      → (run_call program call met current).1 ≡ ok body
  within_limit program call met current status body none h =
      reply_success call (run_call program call met current).1 status body h
  within_limit program call met current status body (some w) h = absurd (cc)

  answer_of :
      (program : Program) (request : Request) (met : Surroundings) (current : Database) (status : ℕ)
      (body : Body) (ready : Result Call)
      → (serve_call program request met current ready).0 ≡ success status body
      → (call : Call) × ((run_call program call met current).1 ≡ ok body)
  answer_of program request met current status body (err e) h = absurd (cc)
  answer_of program request met current status body (ok call) h = (
    call,
    within_limit program call met current status body (over_limit program request met call) h,
  )

  -- After any traffic, whichever committed versions the reads of a request see: a report that is
  -- served is healthy, and a balance that is served is at zero or above.
  pub serve-Told :
      (program : Program) {s : State}
      → Traffic program s
      → (request : Request) (met : Surroundings) (status : ℕ) (body : Body)
      → Elem met.seen (s.current ∷ s.history)
      → Elem met.seen_later (s.current ∷ s.history)
      → (serve program request met s.current).0 ≡ success status body
      → Told body
  unfolding serve
  serve-Told program {s} traffic request met status body old old' h =
      let (call, answer) =
        answer_of program request met s.current status body (prepare program request met) h in
      call-Told program call met s.current body (Traffic-Reach program traffic) old old' answer
