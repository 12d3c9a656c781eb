-- ===== src/App/Addresses.antt =====
-- The handlers that show a user: what they raise, and that EmailStr accepts the stored address again.
use ledgerlock.Auth.Requests.Known.{fits_hash}
use ledgerlock.Auth.Login.{login_uniform, register_ok}
use ledgerlock.Auth
use ledgerlock.Auth.Requests.{is_password, UserRequest}
use ledgerlock.Responses.{user_shown, token_shown}
use ledgerlock.Security.{verify_password, AuthenticatedUser, user_by_id, Crypto}
use ledgerlock.Ledger.Create.{Transactions}
use ledgerlock.Auth.{
  user_by_email, RegisterDraw, user_public, or_email_taken, own_record, TokenResponse,
}
use ledgerlock.Models.{ObjectId, Time, User}
use ledgerlock.Database.{clash_user, insert_user, perform, Database}
use ledgerlock.Errors.{
  invalid_credentials_error, rejected, on_passed, ok_injective, err, ◌>>=◌, Exc, ok, Result,
}
use ledgerlock.Mongo.{insert_checked, Mongo}
use ledgerlock.App.Reads.{found_All}
use ledgerlock.App.Prepared.{Reread}
use ledgerlock.App.Expected.{only, only_bind, is_rejection}
use ledgerlock.App.{Program, Surroundings, Body, token, own, token_minutes}
use ledgerlock.Base.{
  not, ◌∙◌, ap, refl, arith, inl, inr, subst, arith, Option-cases, inr, true, inl, ℕ, some, ◌≡◌,
  Option, All, ◌⊎◌, Text,
}

-- Every stored address is accepted when it is read again.
abbrev pub Addressed : Program → Database → Type 0
Addressed program db = All (λ (u : User). Reread program u.email) db.users

Result-cases : {A : Type 0} (r : Result A) → ((a : A) × (r ≡ ok a)) ⊎ ((e : Exc) × (r ≡ err e))
Result-cases (ok a) = inl (a, refl)
Result-cases (err e) = inr (e, refl)

pub token_built :
    (validate_email : Text → Option Text) (response : TokenResponse)
    → ((again : Text) × (validate_email response.user.1 ≡ some again))
    → (b : Body) × ((token_shown validate_email response >>= λ shown. ok (token shown)) ≡ ok b)
token_built validate_email response (again, accepted) =
    (token (record response { user = (response.user.0, again, response.user.2) }), rw accepted refl)

module _ ⦃m : Mongo⦄ where
  stored-only :
      (u : User) (db : Database)
      → only is_rejection (or_email_taken (perform (insert_user u) db)) ≡ true
  unfolding perform insert_checked
  stored-only u db = rw (m.insert_one_checked (λ _. true) clash_user u db.users) (ground arith)

module _ ⦃m : Mongo⦄ ⦃t : Transactions⦄ ⦃k : Crypto⦄ where
  pub login-only :
      (email password jti : Text) (issued_at : Time) (minutes : ℕ) (db : Database)
      → only is_rejection (Auth.login email password jti issued_at minutes db) ≡ true
  login-only email password jti issued_at minutes db =
      elim (Result-cases (Auth.login email password jti issued_at minutes db)) [
        | inl (a, done) ↦ rw done refl
        | inr (e, raised) ↦
            rw (raised, login_uniform email password jti issued_at minutes db e raised) refl
      ]

  pub register-only :
      (email password : Text) (d : RegisterDraw) (minutes : ℕ) (db : Database)
      → is_password password ≡ true
      → only is_rejection (Auth.register email password d minutes db) ≡ true
  unfolding Auth.register
  register-only email password d minutes db fits =
      rw (fits_hash password d.salt fits)
        (only_bind is_rejection _ _ (stored-only _ db) λ _ _. refl)

  pub own_record-only :
      (caller : AuthenticatedUser) (db : Database) → only is_rejection (own_record caller db) ≡ true
  unfolding own_record
  own_record-only caller db = elim (Option-cases (user_by_id caller.id db)) [
    | inl missing ↦ rw (missing, own_record) refl
    | inr (u, found) ↦ rw (found, own_record) refl
  ]

  pub registered_shown :
      (program : Program) (r : UserRequest) (met : Surroundings) (current : Database)
      (done : TokenResponse × Database)
      → Reread program r.email
      → Auth.register r.email r.password met.registration (token_minutes program) current ≡ ok done
      → (b : Body) × ((token_shown program.validate_email done.0 >>= λ shown. ok (token shown))
          ≡ ok b)
  registered_shown program r met current done (again, accepted) h =
      let (_, _, response) =
        register_ok r.email r.password met.registration (token_minutes program) current done.1
          done.0 h in
      token_built program.validate_email done.0
        (again, ap (λ (x : TokenResponse). program.validate_email x.user.1) response ∙ accepted)

  login_address :
      (program : Program) (email password jti : Text) (issued_at : Time) (minutes : ℕ)
      (db : Database) (response : TokenResponse)
      → Addressed program db
      → Auth.login email password jti issued_at minutes db ≡ ok response
      → Reread program response.user.1
  unfolding Auth.login user_by_email
  login_address program email password jti issued_at minutes db response addressed h =
      elim (Option-cases (user_by_email email db)) [
        | inl missing ↦ absurd (cc)
        | inr (u, found) ↦
            on_passed (not (verify_password password u.hashed_password))
              (rejected invalid_credentials_error) _ (rw found at h)
              λ _ done.
                subst (λ (x : TokenResponse). Reread program x.user.1) (ok_injective done)
                  (found_All (λ (x : User). Reread program x.email) _ db.users u found addressed)
      ]

  pub login-shown :
      (program : Program) (email password jti : Text) (issued_at : Time) (minutes : ℕ)
      (db : Database) (response : TokenResponse)
      → Addressed program db
      → Auth.login email password jti issued_at minutes db ≡ ok response
      → (b : Body) × ((token_shown program.validate_email response >>= λ shown. ok (token shown))
          ≡ ok b)
  login-shown program email password jti issued_at minutes db response addressed h =
      token_built program.validate_email response
        (login_address program email password jti issued_at minutes db response addressed h)

  pub own_shown :
      (program : Program) (caller : AuthenticatedUser) (db : Database)
      (public : ObjectId × Text × Time)
      → Addressed program db
      → own_record caller db ≡ ok public
      → (b : Body) × ((user_shown program.validate_email public >>= λ shown. ok (own shown)) ≡ ok b)
  unfolding own_record user_by_id
  own_shown program caller db public addressed h = elim (Option-cases (user_by_id caller.id db)) [
    | inl missing ↦ absurd (cc)
    | inr (u, found) ↦
        let (again, accepted) =
          found_All (λ (x : User). Reread program x.email) _ db.users u found addressed in
        let same : user_public u ≡ public = ok_injective (rw (found, own_record) at h) in
        subst
          (λ (x : ObjectId × Text × Time).
            (b : Body) × ((user_shown program.validate_email x >>= λ shown. ok (own shown)) ≡ ok b))
          same (own (u.id, again, u.created_at), rw accepted refl)
  ]
