-- ===== src/Security.antt =====
-- app/core/security.py: passwords, access tokens, the blacklist, and the caller of a request. The
-- libraries for JSON web tokens, bcrypt and object ids are an interface. Claims have seconds.
use ledgerlock.Characters.{lower_char}
use ledgerlock.Database.{Database}
use ledgerlock.Mongo.{Mongo}
use ledgerlock.Models.{RevokedToken, User, Time, ObjectId, Account}
use ledgerlock.Base.{
  ◌⊎◌, ◌<◌, ◌≤◌, ◌≡◌, same_option, map, ◌/◌, ◌==◌, ◌*◌, is_empty, not, is_some, same_text, ltb, ◌+◌,
  Bool, codes, if◌then◌else◌, Option, ℕ, Text, false, true, some, none, ◌∷◌, [],
}
use ledgerlock.Errors.{
  forbidden_error, token_revoked_error, value_error, unauthenticated_error, token_expired_error,
  rejected, raise_if, Result, ◌>>◌, err, ok, ◌>>=◌,
}

-- The claims of a token.
pub record Claims : Type 0 where
  pub sub : Text
  pub jti : Text
  pub typ : Option Text
  pub iat : ℕ
  pub exp : ℕ

-- What `jwt.decode` gives: ExpiredSignatureError, another InvalidTokenError, or the claims.
pub data Decoded : Type 0 where
  expired_signature invalid_token : Decoded
  claims : Claims → Decoded

-- `hashpw` takes the password and the salt; `checkpw` gives none for its ValueError on a malformed hash.
pub record Crypto : Type 0 where
  pub encode : Claims → Text
  pub decode : Text → Time → Decoded
  pub object_id : Text → Option ObjectId
  pub object_id_text : ObjectId → Text
  pub hashpw : Text → Text → Text
  pub checkpw : Text → Text → Option Bool
  pub encode_some : (c : Claims) → is_empty (encode c) ≡ false
  pub decode_encode :
      (c : Claims) (now : Time)
      → c.iat * 1000 ≤ now
      → now < c.exp * 1000
      → decode (encode c) now ≡ claims c
  pub decode_later :
      (token : Text) (now later : Time) (c : Claims)
      → now ≤ later
      → decode token now ≡ claims c
      → (decode token later ≡ claims c) ⊎ (decode token later ≡ expired_signature)
  pub decode_live :
      (token : Text) (now : Time) (c : Claims) → decode token now ≡ claims c → now < c.exp * 1000
  pub object_id_read : (i : ObjectId) → object_id (object_id_text i) ≡ some i
  pub checkpw_own : (password salt : Text) → checkpw password (hashpw password salt) ≡ some true

-- The bytes of a text in UTF-8.
abbrev pub utf8_width : ℕ → ℕ
utf8_width c = if ltb c 128 then 1 else if ltb c 2048 then 2 else if ltb c 65536 then 3 else 4

unfoldable pub utf8_length : Text → ℕ
utf8_length [] = 0
utf8_length (c ∷ t) = utf8_width c + utf8_length t

abbrev pub token_type_access : Text
token_type_access = codes "access"

pub record IssuedToken : Type 0 where
  pub token : Text
  pub jti : Text
  pub expires_at : Time

-- HTTPAuthorizationCredentials
pub record Credentials : Type 0 where
  pub scheme : Text
  pub credentials : Text

pub record AuthenticatedUser : Type 0 where
  pub id : ObjectId
  pub email : Text
  pub jti : Text
  pub token_expires_at : Time

abbrev pub or_unauthenticated : {A : Type 0} → Option A → Result A
or_unauthenticated none = err (rejected unauthenticated_error)
or_unauthenticated (some a) = ok a

-- The `except` clauses of `decode_access_token`.
abbrev pub or_token_error : Decoded → Result Claims
or_token_error expired_signature = err (rejected token_expired_error)
or_token_error invalid_token = err (rejected unauthenticated_error)
or_token_error (claims c) = ok c

-- `payload.get("typ") != TOKEN_TYPE_ACCESS`
abbrev pub is_access : Option Text → Bool
is_access none = false
is_access (some typ) = same_text typ token_type_access

-- No credentials, or empty ones.
abbrev pub require_credentials : Option Credentials → Result Credentials
require_credentials none = err (rejected unauthenticated_error)
require_credentials (some c) =
    raise_if (is_empty c.credentials) (rejected unauthenticated_error) >>= λ _. ok c

-- A malformed stored hash is a failed verification.
abbrev pub or_malformed : Option Bool → Bool
or_malformed none = false
or_malformed (some same) = same

module _ ⦃k : Crypto⦄ where
  unfoldable pub hash_password : Text → Text → Result Text
  unfolding utf8_length
  hash_password plain_password salt = do
    raise_if (ltb 72 (utf8_length plain_password)) value_error
    ok (k.hashpw plain_password salt)

  unfoldable pub verify_password : Text → Text → Bool
  verify_password plain_password hashed_password =
      or_malformed (k.checkpw plain_password hashed_password)

  -- `create_access_token`; `jti` is the drawn identifier and `minutes` the configured lifetime.
  unfoldable pub create_access_token : ObjectId → Text → Time → ℕ → IssuedToken
  create_access_token user_id jti issued_at minutes =
      let expires_at = issued_at + minutes * 60000 in
      record {
        token = k.encode (record {
          sub = k.object_id_text user_id;
          jti = jti;
          typ = some token_type_access;
          iat = issued_at / 1000;
          exp = expires_at / 1000;
        });
        jti = jti;
        expires_at = expires_at;
      }

  unfoldable pub decode_access_token : Text → Time → Result Claims
  decode_access_token token now = do
    payload ← or_token_error (k.decode token now)
    raise_if (not (is_access payload.typ)) (rejected unauthenticated_error)
    ok payload

module _ ⦃m : Mongo⦄ where
  unfoldable pub revoke_token : Text → ObjectId → Time → Time → Database → Database
  revoke_token jti user_id expires_at revoked_at db = record db {
    revoked_tokens =
        m.upsert_one (λ (t : RevokedToken). same_text jti t.jti)
          (record {
            jti = jti;
            user_id = user_id;
            expires_at = expires_at;
            revoked_at = revoked_at;
          })
          db.revoked_tokens;
  }

  unfoldable pub is_token_revoked : Text → Database → Bool
  is_token_revoked jti db =
      is_some (m.find_one (λ (t : RevokedToken). same_text jti t.jti) db.revoked_tokens)

  unfoldable pub user_by_id : ObjectId → Database → Option User
  user_by_id i db = m.find_one (λ (u : User). u.id == i) db.users

module _ ⦃m : Mongo⦄ ⦃k : Crypto⦄ where
  unfoldable pub get_current_user : Option Credentials → Time → Database → Result AuthenticatedUser
  get_current_user credentials now db = do
    c ← require_credentials credentials
    raise_if (not (same_text (map lower_char c.scheme) (codes "bearer")))
        (rejected unauthenticated_error)
    payload ← decode_access_token c.credentials now
    raise_if (is_token_revoked payload.jti db) (rejected token_revoked_error)
    user_id ← or_unauthenticated (k.object_id payload.sub)
    user_document ← or_unauthenticated (user_by_id user_id db)
    ok record {
      id = user_id;
      email = user_document.email;
      jti = payload.jti;
      token_expires_at = payload.exp * 1000;
    }

-- `require_account_owner`
unfoldable pub require_account_owner : Account → AuthenticatedUser → Result (Unit {0})
require_account_owner account caller =
    raise_if (not (same_option account.owner_id (some caller.id))) (rejected forbidden_error)
