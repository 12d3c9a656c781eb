-- ===== src/App/Guarded.antt =====
-- Who gets an answer.
use ledgerlock.App.Parameters.{caller_of_request, prepare, over_limit}
use ledgerlock.App.Prepared.{route_of, is_open, Prepared-ok}
use ledgerlock.App.{Request, Call, Surroundings, Program, Body, success, caller_of_call}
use ledgerlock.App.Serve.{run_call, serve, serve_call, limited, answered, reply_of}
use ledgerlock.Ledger.Create.{Transactions}
use ledgerlock.Security.{AuthenticatedUser, Crypto}
use ledgerlock.Database.{Database}
use ledgerlock.Mongo.{Mongo}
use ledgerlock.Errors.{Result, ok, err}
use ledgerlock.Base.{ℕ, false, Option, some, none, ◌≡◌, refl}

module _ ⦃m : Mongo⦄ ⦃t : Transactions⦄ ⦃k : Crypto⦄ where
  pub reply_success :
      (call : Call) (r : Result Body) (status : ℕ) (body : Body)
      → reply_of call r ≡ success status body
      → r ≡ ok body
  reply_success call (ok b) status body h = cc
  reply_success call (err e) status body h = absurd (cc)

  -- What stands behind a success of a route that wants a caller.
  pub record Authorised (program : Program) (request : Request) (met : Surroundings)
      (current : Database) (body : Body) : Type 0 where
    pub call : Call
    pub caller : AuthenticatedUser
    pub accepted : caller_of_request request met ≡ ok caller
    pub prepared : prepare program request met ≡ ok call
    pub by_caller : caller_of_call call ≡ some caller
    pub within_limit : over_limit program request met call ≡ none
    pub answer : (run_call program call met current).1 ≡ ok body

  answered_call :
      (program : Program) (request : Request) (met : Surroundings) (current : Database) (status : ℕ)
      (body : Body) (call : Call) (window : Option (Option ℕ))
      → is_open (route_of request.endpoint) ≡ false
      → prepare program request met ≡ ok call
      → over_limit program request met call ≡ window
      → (limited window (answered call (run_call program call met current))).0 ≡ success status body
      → Authorised program request met current body
  unfolding prepare
  answered_call program request met current status body call (some w) closed ready over h =
      absurd (cc)
  answered_call program request met current status body call none closed ready over h =
      let (caller, accepted, by_caller) =
        (Prepared-ok program request.endpoint request met call ready).authenticated closed in
      record {
        call = call;
        caller = caller;
        accepted = accepted;
        prepared = ready;
        by_caller = by_caller;
        within_limit = over;
        answer = reply_success call (run_call program call met current).1 status body h;
      }

  served_call :
      (program : Program) (request : Request) (met : Surroundings) (current : Database) (status : ℕ)
      (body : Body) (ready : Result Call)
      → is_open (route_of request.endpoint) ≡ false
      → prepare program request met ≡ ready
      → (serve_call program request met current ready).0 ≡ success status body
      → Authorised program request met current body
  served_call program request met current status body (err e) closed same h = absurd (cc)
  served_call program request met current status body (ok call) closed same h =
      answered_call program request met current status body call
        (over_limit program request met call) closed same refl h

  -- A route of the four routers other than registration and login succeeds only for a caller whom
  -- authentication has accepted and who is within the limit, and the answer is that of a call made by
  -- that caller. The two probes are no such routes.
  pub serve-Authorised :
      (program : Program) (request : Request) (met : Surroundings) (current : Database) (status : ℕ)
      (body : Body)
      → is_open (route_of request.endpoint) ≡ false
      → (serve program request met current).0 ≡ success status body
      → Authorised program request met current body
  unfolding serve
  serve-Authorised program request met current status body closed h =
      served_call program request met current status body (prepare program request met) closed refl
        h
