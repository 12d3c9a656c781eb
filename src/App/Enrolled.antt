-- ===== src/App/Enrolled.antt =====
-- The stored addresses under any traffic: EmailStr accepts each of them when it is read again.
use ledgerlock.App.Parameters.{over_limit, prepare}
use ledgerlock.App.{Effect}
use ledgerlock.Ledger.Effects.{perform_all-transfer}
use ledgerlock.Ledger.Applied.{apply_transfer_ok}
use ledgerlock.Ledger.Retry.{create_transfer_ok}
use ledgerlock.Auth.Login.{registered, register_ok}
use ledgerlock.Routes.Submitted.{transfer_created, funding_created}
use ledgerlock.Auth.{TokenResponse}
use ledgerlock.Ledger.{open_session, Transfer, Session, LedgerWriteResult}
use ledgerlock.Auth.Requests.{UserRequest}
use ledgerlock.Accounts.Laws.{create_account_ok, ensure_system_account_ok}
use ledgerlock.App.Serve.{transfer_outcome, answered, limited, serve_call, run_call, serve}
use ledgerlock.Security.{revoke_token, AuthenticatedUser, Crypto}
use ledgerlock.Ledger.Create.{create_transfer, Transactions}
use ledgerlock.Database.{Write, perform_all, Database}
use ledgerlock.Mongo.{Mongo}
use ledgerlock.App.{
  token_minutes, Request, commit_session, Call, Body, commit_database, outcome, Effect,
  Surroundings, Program,
}
use ledgerlock.Models.{Account, User}
use ledgerlock.Errors.{unsupported_currency_error, rejected, on_passed, Result, err, ok}
use ledgerlock.Base.{
  same_text, any, All-append, not, ℕ, ap, Text, Option, sym, subst, ◌≡◌, All, List, inr, inl, refl,
  some, none, ◌∷◌, [],
}
use ledgerlock.Auth
use ledgerlock.Routes
use ledgerlock.App.Addresses.{Addressed}
use ledgerlock.App.Prepared.{Reread, ReadsAgain, IsRead, reread, Prepared-ok}
use ledgerlock.App.Traffic.{Traffic, After}
use ledgerlock.System.{State, commit, Elem}

-- All committed versions.
abbrev Versions : Program → State → Type 0
Versions program s = All (Addressed program) (s.current ∷ s.history)

All-Elem : (P : Database → Type 0) (a : Database) (l : List Database) → Elem a l → All P l → P a
All-Elem P a [] e h = absurd e
All-Elem P a (b ∷ l) e h = elim e [
  | inl same ↦ subst P (sym same) h.0
  | inr later ↦ All-Elem P a l later h.1
]

module _ ⦃m : Mongo⦄ where
  -- An effect that keeps the addresses in order.
  abbrev Fine : Program → State → Effect → Type 0
  Fine program s Effect.nothing = Unit
  Fine program s (Effect.commit_database db) = Addressed program db
  Fine program s (Effect.commit_session out) =
      (db : Database) → perform_all out.1.writes s.current ≡ ok db → db.users ≡ s.current.users

  committed-Versions :
      (program : Program) (s u : State) (db : Database)
      → Addressed program db
      → Versions program s
      → u ≡ commit db s
      → Versions program u
  committed-Versions program s u db fine before same =
      subst (Versions program) (sym same) (fine, before)

  kept-Versions :
      (program : Program) (s u : State) (db : Database)
      → db.users ≡ s.current.users
      → Versions program s
      → u ≡ commit db s
      → Versions program u
  kept-Versions program s u db kept before same =
      committed-Versions program s u db
        (subst (All (λ (x : User). Reread program x.email)) (sym kept) before.0) before same

  After-Versions :
      (program : Program) {met : Surroundings} {s u : State} (effect : Effect)
      → Fine program s effect
      → Versions program s
      → After met s u effect
      → Versions program u
  After-Versions program Effect.nothing fine before (After.unchanged same) =
      subst (Versions program) (sym same) before
  After-Versions program {met} {s} {u} (commit_database db) fine before (After.written _ same) =
      committed-Versions program s u db fine before same
  After-Versions program {met} {s} {u} (commit_session out) fine before
        (After.committed _ db a same) =
      kept-Versions program s u db (fine db a.done) before same

  outcome-Fine :
      {A : Type 0} (program : Program) (s : State) (r : Result A) (effect : A → Effect)
      (respond : A → Result Body)
      → ((a : A) → r ≡ ok a → Fine program s (effect a))
      → Fine program s (outcome r effect respond).0
  unfolding outcome
  outcome-Fine program s (ok a) effect respond h = h a refl
  outcome-Fine program s (err e) effect respond h = tt

module _ ⦃m : Mongo⦄ ⦃t : Transactions⦄ ⦃k : Crypto⦄ where
  transfer-Fine :
      (program : Program) (met : Surroundings) (s : State)
      (done : Result (LedgerWriteResult × Session))
      → ((out : LedgerWriteResult × Session)
          → done ≡ ok out
          → (r : Transfer) × (create_transfer r met.first_run met.more_runs ≡ ok out))
      → Fine program s (transfer_outcome done).0
  transfer-Fine program met s done from =
      outcome-Fine program s done commit_session _ λ out is_ok db performed.
        let (r, made) = from out is_ok in
        let c = create_transfer_ok r met.first_run met.more_runs out made in
        let a =
          apply_transfer_ok _ r c.committed.draw (open_session c.committed.snapshot) out
            c.applied in
        ap (λ (x : Database). x.users)
          (perform_all-transfer r c.committed.draw a.source s.current db
            (subst (λ (ws : List Write). perform_all ws s.current ≡ ok db) a.written performed)).1

  registered-Addressed :
      (program : Program) (r : UserRequest) (met : Surroundings) (s : State)
      (done : TokenResponse × Database)
      → Reread program r.email
      → Addressed program s.current
      → Auth.register r.email r.password met.registration (token_minutes program) s.current
        ≡ ok done
      → Addressed program done.1
  registered-Addressed program r met s done again before h =
      let (_, same, _) =
        register_ok r.email r.password met.registration (token_minutes program) s.current done.1
          done.0 h in
      subst (Addressed program) (sym same) (
        All-append _ s.current.users (registered r.email r.password met.registration ∷ []) before
          (again, tt))

  opened-Addressed :
      (program : Program) (caller : AuthenticatedUser) (currency label : Text) (met : Surroundings)
      (s : State) (done : Account × Database)
      → Addressed program s.current
      → Routes.open_account program.settings.supported_currencies currency label caller met.account
          s.current
        ≡ ok done
      → Addressed program done.1
  unfolding Routes.open_account
  opened-Addressed program caller currency label met s done before h =
      on_passed (not (any (same_text currency) program.settings.supported_currencies))
        (rejected unsupported_currency_error) _ h
        λ _ opened.
          let (_, _, same) =
            create_account_ok caller.id currency label met.account s.current done.0 done.1 opened in
          subst (Addressed program) (sym same) before

  call-Fine :
      (program : Program) (call : Call) (met : Surroundings) (s : State)
      → ReadsAgain program
      → IsRead program call
      → Addressed program s.current
      → Fine program s (run_call program call met s.current).0
  unfolding run_call revoke_token
  call-Fine program (Call.register r) met s again read before =
      outcome-Fine program s _ _ _ λ done is_ok.
        registered-Addressed program r met s done (reread program r.email again read.1) before is_ok
  call-Fine program (Call.login r) met s again read before = outcome-Fine program s _ _ _ λ _ _. tt
  call-Fine program (Call.logout caller) met s again read before = before
  call-Fine program (Call.read_current_user caller) met s again read before =
      outcome-Fine program s _ _ _ λ _ _. tt
  call-Fine program (Call.read_reconciliation caller) met s again read before = tt
  call-Fine program (Call.open_account caller currency label) met s again read before =
      outcome-Fine program s _ _ _
        λ done is_ok. opened-Addressed program caller currency label met s done before is_ok
  call-Fine program (Call.list_accounts caller limit offset) met s again read before = tt
  call-Fine program (Call.read_account caller i) met s again read before =
      outcome-Fine program s _ _ _ λ _ _. tt
  call-Fine program (Call.read_balance caller i) met s again read before =
      outcome-Fine program s _ _ _ λ _ _. tt
  call-Fine program (Call.read_transaction caller i) met s again read before =
      outcome-Fine program s _ _ _ λ _ _. tt
  call-Fine program (Call.fund_account caller i key payload) met s again read before =
      transfer-Fine program met s _
        (funding_created i key payload caller met.seen met.seen_later met.first_run met.more_runs)
  call-Fine program (Call.create_transaction caller key payload) met s again read before =
      transfer-Fine program met s _
        (transfer_created key payload caller met.seen met.seen_later met.first_run met.more_runs)

  limited-Fine :
      (program : Program) (call : Call) (met : Surroundings) (s : State)
      (window : Option (Option ℕ))
      → Fine program s (run_call program call met s.current).0
      → Fine program s (limited window (answered call (run_call program call met s.current))).1
  limited-Fine program call met s none fine = fine
  limited-Fine program call met s (some w) fine = tt

  served_call-Fine :
      (program : Program) (request : Request) (met : Surroundings) (s : State) (ready : Result Call)
      → ReadsAgain program
      → prepare program request met ≡ ready
      → Addressed program s.current
      → Fine program s (serve_call program request met s.current ready).1
  unfolding prepare
  served_call-Fine program request met s (err e) again same before = tt
  served_call-Fine program request met s (ok call) again same before =
      limited-Fine program call met s (over_limit program request met call) (
        call-Fine program call met s again
          (Prepared-ok program request.endpoint request met call same).read before)

  serve-Fine :
      (program : Program) (request : Request) (met : Surroundings) (s : State)
      → ReadsAgain program
      → Addressed program s.current
      → Fine program s (serve program request met s.current).1
  unfolding serve
  serve-Fine program request met s again before =
      served_call-Fine program request met s (prepare program request met) again refl before

  Traffic-Versions :
      (program : Program) {s : State} → ReadsAgain program → Traffic program s → Versions program s
  Traffic-Versions program again Traffic.opening = (tt, tt)
  Traffic-Versions program again (Traffic.provision {s} {u} before currency d i db run e) =
      let earlier = Traffic-Versions program again before in
      elim (ensure_system_account_ok currency d s.current i db run) [
        | inl same ↦ kept-Versions program s u db (ap (λ (x : Database). x.users) same) earlier e
        | inr (_, _, same) ↦
            kept-Versions program s u db (ap (λ (x : Database). x.users) same) earlier e
      ]
  Traffic-Versions program again (Traffic.served {s} before request met after) =
      let earlier = Traffic-Versions program again before in
      After-Versions program (serve program request met s.current).1
        (serve-Fine program request met s again earlier.0) earlier after
  Traffic-Versions program again (Traffic.expire {s} {u} before rs e) =
      kept-Versions program s u _ refl (Traffic-Versions program again before) e

  pub Traffic-Addressed :
      (program : Program) {s : State} (v : Database)
      → ReadsAgain program
      → Traffic program s
      → Elem v (s.current ∷ s.history)
      → Addressed program v
  Traffic-Addressed program {s} v again traffic old =
      All-Elem (Addressed program) v (s.current ∷ s.history) old
        (Traffic-Versions program again traffic)
