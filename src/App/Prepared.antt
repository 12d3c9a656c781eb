-- ===== src/App/Prepared.antt =====
-- What the parameters of a request have shown when they let it pass to the body of its handler.
use ledgerlock.App.Parameters.{caller_of_request, prepare_endpoint}
use ledgerlock.App.{Request, Call, Endpoint, Surroundings, Program, caller_of_call, or_bad_id}
use ledgerlock.Auth.Requests.{
  UserRequest, normalise_email, register_request, login_request, or_no_email, is_password,
}
use ledgerlock.Routes.{require_idempotency_key, is_account_request, is_amount_request}
use ledgerlock.Routes.Pages.{is_page}
use ledgerlock.Config.{or_default}
use ledgerlock.Accounts.{default_page_size}
use ledgerlock.Security.{AuthenticatedUser, Crypto}
use ledgerlock.Mongo.{Mongo}
use ledgerlock.Errors.{ok, on_ok, on_passed, ok_injective, validation_error}
use ledgerlock.Base.{
  ℤ, arith, Bool, true, false, Option, some, ◌≡◌, none, ap, refl, sym, ◌∙◌, subst, not, pos, Text,
}

-- The routes of the application; a list of accounts has an offset.
pub data Route : Type 0 where
  register login logout read_current_user read_reconciliation open_account : Route
  read_account read_balance read_transaction fund_account create_transaction : Route
  list_accounts : (offset : ℤ) → Route

abbrev pub route_of : Endpoint → Route
route_of (Endpoint.register email password) = Route.register
route_of (Endpoint.login email password) = Route.login
route_of Endpoint.logout = Route.logout
route_of Endpoint.read_current_user = Route.read_current_user
route_of Endpoint.read_reconciliation = Route.read_reconciliation
route_of (Endpoint.open_account currency label) = Route.open_account
route_of (Endpoint.list_accounts limit offset) = Route.list_accounts (or_default offset (pos 0))
route_of (Endpoint.read_account i) = Route.read_account
route_of (Endpoint.read_balance i) = Route.read_balance
route_of (Endpoint.read_transaction i) = Route.read_transaction
route_of (Endpoint.fund_account i payload) = Route.fund_account
route_of (Endpoint.create_transaction payload) = Route.create_transaction

abbrev pub route_of_call : Call → Route
route_of_call (Call.register r) = Route.register
route_of_call (Call.login r) = Route.login
route_of_call (Call.logout u) = Route.logout
route_of_call (Call.read_current_user u) = Route.read_current_user
route_of_call (Call.read_reconciliation u) = Route.read_reconciliation
route_of_call (Call.open_account u currency label) = Route.open_account
route_of_call (Call.list_accounts u limit offset) = Route.list_accounts offset
route_of_call (Call.read_account u i) = Route.read_account
route_of_call (Call.read_balance u i) = Route.read_balance
route_of_call (Call.read_transaction u i) = Route.read_transaction
route_of_call (Call.fund_account u i key payload) = Route.fund_account
route_of_call (Call.create_transaction u key payload) = Route.create_transaction

-- The two routes without authentication.
abbrev pub is_open : Route → Bool
is_open Route.register = true
is_open Route.login = true
is_open _ = false

-- The address that EmailStr has read is accepted when it is read again.
abbrev pub Reread : Program → Text → Type 0
Reread program email = (again : Text) × (program.validate_email email ≡ some again)

-- Lower-casing keeps an address an address.
abbrev pub ReadsAgain : Program → Type 0
ReadsAgain program =
    (given address : Text)
    → program.validate_email given ≡ some address
    → Reread program (normalise_email program.unicode address)

abbrev pub IsAddress : Program → Text → Type 0
IsAddress program email =
    (given address : Text) × (program.validate_email given ≡ some address)
    × (email ≡ normalise_email program.unicode address)

-- What the request models have checked.
abbrev pub IsRead : Program → Call → Type 0
IsRead program (Call.register r) = (is_password r.password ≡ true) × IsAddress program r.email
IsRead program _ = Unit

pub reread :
    (program : Program) (email : Text)
    → ReadsAgain program
    → IsAddress program email
    → Reread program email
reread program email again (given, address, accepted, same) =
    subst (Reread program) (sym same) (again given address accepted)

address_some : (o : Option Text) (address : Text) → or_no_email o ≡ ok address → o ≡ some address
address_some none address h = absurd (cc)
address_some (some a) address h = ap some (ok_injective h)

payload-IsRead :
    (program : Program) (email password : Text) (r : UserRequest)
    → register_request program.unicode program.validate_email email password ≡ ok r
    → IsRead program (Call.register r)
unfolding register_request
payload-IsRead program email password r h =
    on_ok (or_no_email (program.validate_email email)) _ h λ address accepted h1.
      on_passed (not (is_password password)) validation_error _ h1 λ fits done.
        subst (λ (x : UserRequest). IsRead program (Call.register x)) (ok_injective done)
          (
            ground arith,
            (email, address, address_some (program.validate_email email) address accepted, refl),
          )

-- The caller of the call is the one that authentication has accepted.
module _ ⦃m : Mongo⦄ ⦃k : Crypto⦄ where
  pub record Prepared (program : Program) (request : Request) (met : Surroundings)
      (endpoint : Endpoint) (call : Call) : Type 0 where
    pub same_route : route_of_call call ≡ route_of endpoint
    pub authenticated :
        is_open (route_of endpoint) ≡ false
        → (u : AuthenticatedUser) × (caller_of_request request met ≡ ok u)
          × (caller_of_call call ≡ some u)
    pub read : IsRead program call

  authenticated_call :
      {program : Program} {request : Request} {met : Surroundings} (endpoint : Endpoint)
      {call made : Call} (u : AuthenticatedUser)
      → caller_of_request request met ≡ ok u
      → route_of_call made ≡ route_of endpoint
      → caller_of_call made ≡ some u
      → IsRead program made
      → made ≡ call
      → Prepared program request met endpoint call
  authenticated_call {program} {request} {met} endpoint u accepted same_route has_caller read same =
      subst (Prepared program request met endpoint) same (record {
        same_route = same_route;
        authenticated = λ _. (u, accepted, has_caller);
        read = read;
      })

  open_call :
      {program : Program} {request : Request} {met : Surroundings} (endpoint : Endpoint)
      {call made : Call}
      → is_open (route_of endpoint) ≡ true
      → route_of_call made ≡ route_of endpoint
      → IsRead program made
      → made ≡ call
      → Prepared program request met endpoint call
  open_call {program} {request} {met} endpoint is_public same_route read same =
      subst (Prepared program request met endpoint) same (record {
        same_route = same_route;
        authenticated = λ closed. absurd (cc (sym is_public ∙ closed));
        read = read;
      })

  pub Prepared-ok :
      (program : Program) (endpoint : Endpoint) (request : Request) (met : Surroundings)
      (call : Call)
      → prepare_endpoint program endpoint request met ≡ ok call
      → Prepared program request met endpoint call
  unfolding prepare_endpoint caller_of_call
  Prepared-ok program (Endpoint.register email password) request met call h =
      on_ok (register_request program.unicode program.validate_email email password) _ h
        λ r accepted done.
          open_call (Endpoint.register email password) refl refl
            (payload-IsRead program email password r accepted) (ok_injective done)
  Prepared-ok program (Endpoint.login email password) request met call h =
      on_ok (login_request program.unicode program.validate_email email password) _ h
        λ r _ done. open_call (Endpoint.login email password) refl refl tt (ok_injective done)
  Prepared-ok program Endpoint.logout request met call h =
      on_ok (caller_of_request request met) _ h
        λ u a done. authenticated_call Endpoint.logout u a refl refl tt (ok_injective done)
  Prepared-ok program Endpoint.read_current_user request met call h =
      on_ok (caller_of_request request met) _ h λ u a done.
        authenticated_call Endpoint.read_current_user u a refl refl tt (ok_injective done)
  Prepared-ok program Endpoint.read_reconciliation request met call h =
      on_ok (caller_of_request request met) _ h λ u a done.
        authenticated_call Endpoint.read_reconciliation u a refl refl tt (ok_injective done)
  Prepared-ok program (Endpoint.open_account currency label) request met call h =
      on_ok (caller_of_request request met) _ h λ u a h1.
        on_passed (not (is_account_request currency label)) validation_error _ h1 λ _ done.
          authenticated_call (Endpoint.open_account currency label) u a refl refl tt
            (ok_injective done)
  Prepared-ok program (Endpoint.list_accounts limit offset) request met call h =
      on_ok (caller_of_request request met) _ h λ u a h1.
        on_passed
          (not (is_page (or_default limit (pos default_page_size)) (or_default offset (pos 0))))
          validation_error _ h1
          λ _ done.
            authenticated_call (Endpoint.list_accounts limit offset) u a refl refl tt
              (ok_injective done)
  Prepared-ok program (Endpoint.read_account i) request met call h =
      on_ok (caller_of_request request met) _ h λ u a h1.
        on_ok (or_bad_id (k.object_id i)) _ h1 λ _ _ done.
          authenticated_call (Endpoint.read_account i) u a refl refl tt (ok_injective done)
  Prepared-ok program (Endpoint.read_balance i) request met call h =
      on_ok (caller_of_request request met) _ h λ u a h1.
        on_ok (or_bad_id (k.object_id i)) _ h1 λ _ _ done.
          authenticated_call (Endpoint.read_balance i) u a refl refl tt (ok_injective done)
  Prepared-ok program (Endpoint.read_transaction i) request met call h =
      on_ok (caller_of_request request met) _ h λ u a h1.
        on_ok (or_bad_id (k.object_id i)) _ h1 λ _ _ done.
          authenticated_call (Endpoint.read_transaction i) u a refl refl tt (ok_injective done)
  Prepared-ok program (Endpoint.fund_account i payload) request met call h =
      on_ok (require_idempotency_key request.idempotency_key) _ h λ key _ h1.
        on_ok (caller_of_request request met) _ h1 λ u a h2.
          on_ok (or_bad_id (k.object_id i)) _ h2 λ _ _ h3.
            on_passed
              (not (is_amount_request payload.amount_minor payload.currency payload.description))
              validation_error _ h3
              λ _ done.
                authenticated_call (Endpoint.fund_account i payload) u a refl refl tt
                  (ok_injective done)
  Prepared-ok program (Endpoint.create_transaction payload) request met call h =
      on_ok (require_idempotency_key request.idempotency_key) _ h λ key _ h1.
        on_ok (caller_of_request request met) _ h1 λ u a h2.
          on_ok (or_bad_id (k.object_id payload.source_account_id)) _ h2 λ _ _ h3.
            on_ok (or_bad_id (k.object_id payload.destination_account_id)) _ h3 λ _ _ h4.
              on_passed
                (not (is_amount_request payload.amount_minor payload.currency payload.description))
                validation_error _ h4
                λ _ done.
                  authenticated_call (Endpoint.create_transaction payload) u a refl refl tt
                    (ok_injective done)
