-- ===== src/Auth/Requests.antt =====
-- app/models/user.py: the requests of registration and login, before their handlers. EmailStr, which
-- is pydantic's, may refuse an address or hand on a normal form of it.
use ledgerlock.Security.{utf8_length}
use ledgerlock.Models.{system, user}
pub mod Known
use ledgerlock.Characters.{Unicode, strip}
use ledgerlock.Errors.{raise_if, validation_error, ◌>>◌, ◌>>=◌, Result, ok, err}
use ledgerlock.Base.{
  ◌&&◌, length, not, leb, Bool, Option, ℕ, pos, inr, inl, arith, refl, suc, zero, false, true, some,
  none, ◌∷◌, [], Text,
}

abbrev pub minimum_password_length : ℕ
minimum_password_length = 12

abbrev pub bcrypt_max_password_bytes : ℕ
bcrypt_max_password_bytes = 72

-- UserRegisterRequest and UserLoginRequest.
pub record UserRequest : Type 0 where
  pub email : Text
  pub password : Text

abbrev pub or_no_email : Option Text → Result Text
or_no_email none = err validation_error
or_no_email (some email) = ok email

unfoldable pub normalise_email : Unicode → Text → Text
normalise_email unicode value = unicode.lower (strip value)

-- `Password` and `_validate_password_byte_length`: the one counts characters, the other bytes.
unfoldable pub is_password : Text → Bool
is_password value =
    leb minimum_password_length (length value)
    && leb (length value) bcrypt_max_password_bytes
    && leb (utf8_length value) bcrypt_max_password_bytes

unfoldable pub register_request : Unicode → (Text → Option Text) → Text → Text → Result UserRequest
register_request unicode validate_email email password = do
  address ← or_no_email (validate_email email)
  raise_if (not (is_password password)) validation_error
  ok (record { email = normalise_email unicode address; password = password })

unfoldable pub login_request : Unicode → (Text → Option Text) → Text → Text → Result UserRequest
login_request unicode validate_email email password = do
  address ← or_no_email (validate_email email)
  raise_if (not (leb 1 (length password) && leb (length password) 1024)) validation_error
  ok (record { email = normalise_email unicode address; password = password })
