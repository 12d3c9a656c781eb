-- ===== src/Tests/Service.antt =====
-- The service around the ledger at concrete inputs: settings, a start, failures and log records.
use ledgerlock.Mongo.{distinct}
use ledgerlock.Config.Currencies.{parse_currency_list-joined, joined}
use ledgerlock.Tests.Setup.{server, usd}
use ledgerlock.Logging.Redacted.{filter_redacts, filter_keeps, Concealed}
use ledgerlock.RateLimit.{rate_limit_key-eq_iff, known, Caller, rate_limit_key, LimitedRequest}
use ledgerlock.Config.Validated.{load_settings-IsSettings, IsSettings}
use ledgerlock.Errors.Handlers.{error_response, handle_http_exception, Raised, handle}
use ledgerlock.Characters.{
  split, strip, starts_with, contains, lower_char, is_ascii_letter, upper_char, is_ascii, Unicode,
}
use ledgerlock.Logging.{sensitive_field_markers, field_value, filter, LogFields}
use ledgerlock.Errors.Envelope.{HasStatus, handle-IsEnvelope, IsEnvelope}
use ledgerlock.Models.{is_currency_code}
use ledgerlock.Config.{
  is_currency_word, listed_codes, checked, validate_currency_codes, parse_currency_list, read_jwt,
  read_currencies, read_limits, load_settings, Settings, ConfigLibrary, Environment,
}
use ledgerlock.Errors.{ok}
use ledgerlock.Base.{
  all, keep, leb, ◌↔◌, map, ◌≡◌, Bool, same_text, any, ℕ, if◌then◌else◌, codes, pos, refl, false,
  true, some, none, ◌∷◌, [], Text,
}

-- Letters beyond ASCII, as far as the tests go, are the ones from 192 on.
unfoldable pub letter : ℕ → Bool
letter c = if is_ascii c then is_ascii_letter c else leb 192 c

pub letter_ascii : (c : ℕ) → is_ascii c ≡ true → letter c ≡ is_ascii_letter c
unfolding letter
letter_ascii c h = rw h

abbrev pub latin : Unicode
latin = record {
  upper = λ t. map upper_char t;
  lower = λ t. map lower_char t;
  is_alpha = letter;
  upper_ascii = λ t h. refl;
  lower_ascii = λ t h. refl;
  is_alpha_ascii = letter_ascii;
}

-- A library that knows the texts which the tests use.
abbrev library : ConfigLibrary
library = record {
  int_of_text = λ t. if same_text t (codes "60") then some (pos 60) else none;
  bool_of_text = λ t. if same_text t (codes "false") then some false else none;
  json_strings = λ t. none;
  parse_many = λ t. some (record { amount = 10; expiry = 60 } ∷ []);
}

abbrev secret : Text
secret = codes "a-signing-key-of-forty-characters-length"

abbrev environment : Environment
environment = record {
  mongodb_uri = none;
  mongodb_db_name = none;
  jwt_secret_key = some secret;
  jwt_algorithm = none;
  access_token_expire_minutes = some (codes "60");
  bcrypt_rounds = none;
  app_env = none;
  log_level = some (codes "debug");
  supported_currencies = some (codes " usd, USD,");
  rate_limit_enabled = some (codes "false");
  rate_limit_auth = none;
  rate_limit_transactions = none;
  rate_limit_default = none;
}

abbrev pub settings : Settings
settings = record {
  mongodb_uri = codes "mongodb://localhost:27017/?directConnection=true";
  mongodb_db_name = codes "ledgerlock";
  jwt_secret_key = secret;
  jwt_algorithm = codes "HS256";
  access_token_expire_minutes = pos 60;
  bcrypt_rounds = pos 12;
  app_env = codes "development";
  log_level = codes "DEBUG";
  supported_currencies = usd ∷ [];
  rate_limit_enabled = false;
  rate_limit_auth = codes "10/minute";
  rate_limit_transactions = codes "100/minute";
  rate_limit_default = codes "200/minute";
}

settings_load : load_settings latin library environment ≡ ok settings
unfolding load_settings read_jwt read_currencies read_limits checked same_text any starts_with strip
    listed_codes keep split all is_currency_word letter distinct
settings_load = refl

load_settings-IsSettings_example : IsSettings latin library settings
load_settings-IsSettings_example =
    load_settings-IsSettings latin library environment settings settings_load

codes_upper : (is_currency_code usd ≡ true) × ((is_currency_code (codes "EUR") ≡ true) × Unit {0})
unfolding is_currency_code
codes_upper = (refl, (refl, tt))

parse_currency_list-joined_example :
    (parse_currency_list latin library (joined (usd ∷ codes "EUR" ∷ []))
      ≡ some (usd ∷ codes "EUR" ∷ []))
    × (validate_currency_codes latin (usd ∷ codes "EUR" ∷ [])
        ≡ ok (distinct same_text (usd ∷ codes "EUR" ∷ [])))
parse_currency_list-joined_example =
    parse_currency_list-joined latin library usd (codes "EUR" ∷ []) codes_upper

handle-IsEnvelope_example :
    HasStatus (Raised.http_exception 503 (codes "overloaded")) 503
    × IsEnvelope (handle (Raised.http_exception 503 (codes "overloaded")))
unfolding handle handle_http_exception error_response
handle-IsEnvelope_example = handle-IsEnvelope (Raised.http_exception 503 (codes "overloaded"))

abbrev at_home : LimitedRequest
at_home = record { user_id = some (codes "64a1"); remote_address = codes "10.0.0.1" }

abbrev on_the_road : LimitedRequest
on_the_road = record { user_id = some (codes "64a1"); remote_address = codes "10.9.9.9" }

rate_limit_key-eq_iff_example :
    (rate_limit_key at_home ≡ rate_limit_key on_the_road)
    ↔ (◌≡◌ {A = Caller} (known (codes "64a1")) (known (codes "64a1")))
rate_limit_key-eq_iff_example = rate_limit_key-eq_iff at_home on_the_road

abbrev fields : LogFields
fields = (codes "path", some (codes "/auth")) ∷ (codes "Api_Token", some (codes "abc")) ∷ []

token_known : any (same_text (codes "token")) sensitive_field_markers ≡ true
unfolding any same_text
token_known = refl

path_unmarked : any (λ m. contains m (latin.lower (codes "path"))) sensitive_field_markers ≡ false
unfolding any contains
path_unmarked = refl

filter_redacts_example :
    Concealed
      (field_value (codes "Api_Token") fields)
      (field_value (codes "Api_Token") (filter latin fields))
filter_redacts_example =
    filter_redacts latin (codes "Api_Token") (codes "api_") (codes "token") [] fields token_known
      refl

filter_keeps_example :
    (field_value (codes "path") (filter latin fields) ≡ field_value (codes "path") fields)
filter_keeps_example = filter_keeps latin (codes "path") fields path_unmarked
