-- ===== src/Config.antt =====
-- app/core/config.py: the settings as they are read from the environment, and their validators. What
-- pydantic, `json` and `limits` make of a text is an interface. Every rejection surfaces as
-- pydantic's ValidationError.
use ledgerlock.Models.{system, user}
pub mod Distinct
pub mod Fields
pub mod Validated
pub mod Currencies
use ledgerlock.Characters.{Unicode, split, strip, starts_with}
use ledgerlock.Mongo.{distinct}
use ledgerlock.Errors.{validation_error, raise_if, ◌>>◌, ◌>>=◌, Result, ok, err}
use ledgerlock.Base.{
  leb, same_text, ◌&&◌, ◌==◌, not, length, if◌then◌else◌, map, leb_ℤ, any, is_empty, Option, keep,
  ℕ, Bool, codes, all, List, ℤ, pos, inr, inl, arith, refl, suc, zero, false, true, some, none, ◌∷◌,
  [], Text,
}

-- An item of the package `limits`: how many requests in how many seconds.
pub record RateLimitItem : Type 0 where
  pub amount : ℕ
  pub expiry : ℕ

pub record ConfigLibrary : Type 0 where
  -- pydantic's `int` and `bool` from a text.
  pub int_of_text : Text → Option ℤ
  pub bool_of_text : Text → Option Bool
  -- `json.loads` with what it gives read as a list of strings.
  pub json_strings : Text → Option (List Text)
  pub parse_many : Text → Option (List RateLimitItem)

abbrev pub placeholder_jwt_secret : Text
placeholder_jwt_secret = codes "replace-me-with-a-generated-secret"

abbrev pub minimum_jwt_secret_length : ℕ
minimum_jwt_secret_length = 32

-- What the environment and the file .env say of each field.
pub record Environment : Type 0 where
  pub mongodb_uri : Option Text
  pub mongodb_db_name : Option Text
  pub jwt_secret_key : Option Text
  pub jwt_algorithm : Option Text
  pub access_token_expire_minutes : Option Text
  pub bcrypt_rounds : Option Text
  pub app_env : Option Text
  pub log_level : Option Text
  pub supported_currencies : Option Text
  pub rate_limit_enabled : Option Text
  pub rate_limit_auth : Option Text
  pub rate_limit_transactions : Option Text
  pub rate_limit_default : Option Text

pub record Settings : Type 0 where
  pub mongodb_uri : Text
  pub mongodb_db_name : Text
  pub jwt_secret_key : Text
  pub jwt_algorithm : Text
  pub access_token_expire_minutes : ℤ
  pub bcrypt_rounds : ℤ
  pub app_env : Text
  pub log_level : Text
  pub supported_currencies : List Text
  pub rate_limit_enabled : Bool
  pub rate_limit_auth : Text
  pub rate_limit_transactions : Text
  pub rate_limit_default : Text

-- `Field(default=...)`
abbrev pub or_default {ℓ} : {A : Type ℓ} → Option A → A → A
or_default none default = default
or_default (some a) default = a

-- A field without a default is required; a text that is no value of the field's type is refused.
abbrev pub or_invalid {ℓ} : {A : Type ℓ} → Option A → Result A
or_invalid none = err validation_error
or_invalid (some a) = ok a

-- `default` if the field is not set, else the value that the text stands for.
abbrev pub read_field {ℓ} : {A : Type ℓ} → (Text → Option A) → Option Text → A → Result A
read_field parse none default = ok default
read_field parse (some text) default = or_invalid (parse text)

-- A validator that refuses or hands its value on.
unfoldable pub checked {ℓ} : {A : Type ℓ} → (A → Bool) → A → Result A
checked test value = raise_if (not (test value)) validation_error >> ok value

-- `min_length=1`
abbrev pub is_filled : Text → Bool
is_filled text = not (is_empty text)

-- `ge=low, le=high`
abbrev pub is_between : ℕ → ℕ → ℤ → Bool
is_between low high value = leb_ℤ (pos low) value && leb_ℤ value (pos high)

abbrev pub one_of : List Text → Text → Bool
one_of allowed value = any (same_text value) allowed

abbrev pub symmetric_algorithms : List Text
symmetric_algorithms = codes "HS256" ∷ codes "HS384" ∷ codes "HS512" ∷ []

abbrev pub log_levels : List Text
log_levels = codes "DEBUG" ∷ codes "INFO" ∷ codes "WARNING" ∷ codes "ERROR" ∷ codes "CRITICAL" ∷ []

abbrev pub default_currencies : List Text
default_currencies = codes "USD" ∷ codes "EUR" ∷ codes "GBP" ∷ codes "INR" ∷ []

-- The tests of `reject_placeholder_or_weak_secret`.
unfoldable pub is_strong_secret : Text → Bool
is_strong_secret value =
    not (same_text value placeholder_jwt_secret) && leb minimum_jwt_secret_length (length value)

-- `len(code) == 3 and code.isalpha()`
unfoldable pub is_currency_word : Unicode → Text → Bool
is_currency_word unicode code = length code == 3 && all unicode.is_alpha code

-- `part.strip().upper() for part in parts if part.strip()`
unfoldable pub listed_codes : Unicode → List Text → List Text
listed_codes unicode parts =
    map (λ part. unicode.upper (strip part)) (keep (λ part. is_filled (strip part)) parts)

unfoldable pub parse_currency_list : Unicode → ConfigLibrary → Text → Option (List Text)
parse_currency_list unicode library value =
    let stripped = strip value in
    if starts_with (codes "[") stripped
    then library.json_strings stripped
    else some (listed_codes unicode (split b',' stripped))

unfoldable pub validate_currency_codes : Unicode → List Text → Result (List Text)
validate_currency_codes unicode value = do
  raise_if (is_empty value) validation_error
  let normalised = map (λ code. unicode.upper (strip code)) value
  raise_if (not (all (is_currency_word unicode) normalised)) validation_error
  ok (distinct same_text normalised)

unfoldable pub validate_rate_limit_string : ConfigLibrary → Text → Result Text
validate_rate_limit_string library value = do
  parsed ← or_invalid (library.parse_many value)
  raise_if (is_empty parsed) validation_error
  ok value

unfoldable pub normalise_log_level : Unicode → Text → Result Text
normalise_log_level unicode value = checked (one_of log_levels) (unicode.upper value)

-- The three fields for tokens.
unfoldable pub read_jwt : ConfigLibrary → Environment → Result (Text × (Text × ℤ))
unfolding is_strong_secret
read_jwt library env = do
  given_secret ← or_invalid env.jwt_secret_key
  secret ← checked is_strong_secret given_secret
  algorithm ← checked (one_of symmetric_algorithms) (or_default env.jwt_algorithm (codes "HS256"))
  given_minutes ← read_field library.int_of_text env.access_token_expire_minutes (pos 30)
  minutes ← checked (is_between 1 1440) given_minutes
  ok (secret, (algorithm, minutes))

unfoldable pub read_currencies : Unicode → ConfigLibrary → Environment → Result (List Text)
unfolding parse_currency_list validate_currency_codes
read_currencies unicode library env =
    read_field (parse_currency_list unicode library) env.supported_currencies default_currencies
    >>= λ listed. validate_currency_codes unicode listed

-- The three limits.
unfoldable pub read_limits : ConfigLibrary → Environment → Result (Text × (Text × Text))
unfolding validate_rate_limit_string
read_limits library env = do
  auth ← validate_rate_limit_string library (or_default env.rate_limit_auth (codes "10/minute"))
  transactions ←
      validate_rate_limit_string library
        (or_default env.rate_limit_transactions (codes "100/minute"))
  default ←
      validate_rate_limit_string library (or_default env.rate_limit_default (codes "200/minute"))
  ok (auth, (transactions, default))

-- `Settings()`
unfoldable pub load_settings : Unicode → ConfigLibrary → Environment → Result Settings
unfolding read_jwt read_currencies read_limits normalise_log_level
load_settings unicode library env = do
  db_name ← checked is_filled (or_default env.mongodb_db_name (codes "ledgerlock"))
  jwt ← read_jwt library env
  given_rounds ← read_field library.int_of_text env.bcrypt_rounds (pos 12)
  rounds ← checked (is_between 4 16) given_rounds
  level ← normalise_log_level unicode (or_default env.log_level (codes "INFO"))
  currencies ← read_currencies unicode library env
  enabled ← read_field library.bool_of_text env.rate_limit_enabled true
  limits ← read_limits library env
  ok (record {
    mongodb_uri =
        or_default env.mongodb_uri (codes "mongodb://localhost:27017/?directConnection=true");
    mongodb_db_name = db_name;
    jwt_secret_key = jwt.0;
    jwt_algorithm = jwt.1.0;
    access_token_expire_minutes = jwt.1.1;
    bcrypt_rounds = rounds;
    app_env = or_default env.app_env (codes "development");
    log_level = level;
    supported_currencies = currencies;
    rate_limit_enabled = enabled;
    rate_limit_auth = limits.0;
    rate_limit_transactions = limits.1.0;
    rate_limit_default = limits.1.1;
  })

-- `get_settings`, whose cache keeps the first settings that loaded.
unfoldable pub get_settings :
    Unicode → ConfigLibrary → Environment → Option Settings → Result (Settings × Option Settings)
get_settings unicode library env (some settings) = ok (settings, some settings)
get_settings unicode library env none = do
  settings ← load_settings unicode library env
  ok (settings, some settings)
