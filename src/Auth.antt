-- ===== src/Auth.antt =====
-- app/routes/auth.py: registration, login, logout and the caller's own record. The payloads are those
-- that the request models let through, with the address in lower case.
pub mod Requests
pub mod Logout
pub mod Login
use ledgerlock.Database.{insert_user, perform, Database}
use ledgerlock.Security.{
  AuthenticatedUser, create_access_token, verify_password, user_by_id, revoke_token,
  get_current_user, Credentials, hash_password, Crypto, IssuedToken,
}
use ledgerlock.Mongo.{Mongo}
use ledgerlock.Models.{ObjectId, Time, User, system, user}
use ledgerlock.Base.{
  not, same_text, Option, ℕ, Text, pos, inr, inl, arith, refl, suc, zero, false, true, some, none,
  ◌∷◌, [],
}
use ledgerlock.Errors.{
  raise_if, invalid_credentials_error, email_already_registered_error, rejected, Result, ◌>>◌,
  ◌>>=◌, err, ok, duplicate_key,
}

pub record TokenResponse : Type 0 where
  pub access_token : Text
  pub expires_at : Time
  pub user : ObjectId × Text × Time

-- `UserPublic.from_document`
abbrev pub user_public : User → ObjectId × Text × Time
user_public u = (u.id, u.email, u.created_at)

-- What registration draws: the salt, the `_id`, the two clocks and the `jti`.
pub record RegisterDraw : Type 0 where
  pub salt : Text
  pub user_id : ObjectId
  pub created_at : Time
  pub jti : Text
  pub issued_at : Time

-- The `except` clause of `register`.
abbrev pub or_email_taken : Result Database → Result Database
or_email_taken (ok db) = ok db
or_email_taken (err duplicate_key) = err (rejected email_already_registered_error)
or_email_taken (err e) = err e

abbrev pub token_response : IssuedToken → User → TokenResponse
token_response issued u = record {
  access_token = issued.token;
  expires_at = issued.expires_at;
  user = user_public u;
}

module _ ⦃m : Mongo⦄ ⦃k : Crypto⦄ where
  -- `minutes` is the configured lifetime of a token.
  unfoldable pub register :
      Text → Text → RegisterDraw → ℕ → Database → Result (TokenResponse × Database)
  register email password d minutes db = do
    hashed ← hash_password password d.salt
    let u : User = record {
      id = d.user_id;
      email = email;
      hashed_password = hashed;
      created_at = d.created_at;
    }
    db' ← or_email_taken (perform (insert_user u) db)
    ok (token_response (create_access_token d.user_id d.jti d.issued_at minutes) u, db')

  unfoldable pub user_by_email : Text → Database → Option User
  user_by_email email db = m.find_one (λ (u : User). same_text email u.email) db.users

  -- The wasted verification of an unknown address has no result.
  abbrev pub login_found : Text → Text → Time → ℕ → Option User → Result TokenResponse
  login_found password jti issued_at minutes none = err (rejected invalid_credentials_error)
  login_found password jti issued_at minutes (some u) = do
    raise_if (not (verify_password password u.hashed_password)) (rejected invalid_credentials_error)
    ok (token_response (create_access_token u.id jti issued_at minutes) u)

  unfoldable pub login : Text → Text → Text → Time → ℕ → Database → Result TokenResponse
  unfolding user_by_email
  login email password jti issued_at minutes db =
      login_found password jti issued_at minutes (user_by_email email db)

  unfoldable pub logout : Option Credentials → Time → Time → Database → Result Database
  logout credentials now revoked_at db = do
    caller ← get_current_user credentials now db
    ok (revoke_token caller.jti caller.id caller.token_expires_at revoked_at db)

  -- The body of `read_current_user`.
  unfoldable pub own_record : AuthenticatedUser → Database → Result (ObjectId × Text × Time)
  own_record caller db = elim (user_by_id caller.id db) [
    | none ↦ err (rejected invalid_credentials_error)
    | some u ↦ ok (user_public u)
  ]

  unfoldable pub read_current_user :
      Option Credentials → Time → Database → Result (ObjectId × Text × Time)
  unfolding own_record
  read_current_user credentials now db = do
    caller ← get_current_user credentials now db
    own_record caller db
