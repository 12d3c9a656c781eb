-- ===== src/Config/Validated.antt =====
-- What accepted settings satisfy.
use ledgerlock.Errors.{on_ok, ok_injective, ok}
use ledgerlock.Config.Fields.{
  checked_ok, validate_currency_codes_ok, is_strong_secret-true, is_empty_some, not-true, between,
  normalise_log_level_ok, validate_rate_limit_string_ok, IsLimit,
}
use ledgerlock.Characters.{Unicode}
use ledgerlock.Base.{
  AllDistinct, codes, ℤ, ◌≤ℤ◌, pos, subst, ◌≢◌, length, true, ◌≡◌, same_text, ◌≤◌, Text, all, List,
  any,
}
use ledgerlock.Config.{
  default_currencies, parse_currency_list, or_default, is_between, read_field, is_filled,
  or_invalid, one_of, Environment, normalise_log_level, read_jwt, read_currencies, read_limits,
  load_settings, validate_rate_limit_string, log_levels, symmetric_algorithms,
  placeholder_jwt_secret, minimum_jwt_secret_length, is_currency_word, ConfigLibrary,
  is_strong_secret, Settings,
}

-- The conditions that the rest of the program may rely on.
pub record IsSettings (unicode : Unicode) (library : ConfigLibrary) (s : Settings) : Type 0 where
  pub named : 1 ≤ length s.mongodb_db_name
  pub long_secret : minimum_jwt_secret_length ≤ length s.jwt_secret_key
  pub own_secret : s.jwt_secret_key ≢ placeholder_jwt_secret
  pub symmetric : any (same_text s.jwt_algorithm) symmetric_algorithms ≡ true
  pub minutes :
      (pos 1 ≤ℤ s.access_token_expire_minutes) × (s.access_token_expire_minutes ≤ℤ pos 1440)
  pub rounds : (pos 4 ≤ℤ s.bcrypt_rounds) × (s.bcrypt_rounds ≤ℤ pos 16)
  pub level : any (same_text s.log_level) log_levels ≡ true
  pub some_currency : 1 ≤ length s.supported_currencies
  pub currency_words : all (is_currency_word unicode) s.supported_currencies ≡ true
  pub different : AllDistinct s.supported_currencies
  pub auth_limit : IsLimit library s.rate_limit_auth
  pub transactions_limit : IsLimit library s.rate_limit_transactions
  pub default_limit : IsLimit library s.rate_limit_default

abbrev IsJwt : Text × (Text × ℤ) → Type 0
IsJwt jwt =
    ((minimum_jwt_secret_length ≤ length jwt.0) × (jwt.0 ≢ placeholder_jwt_secret))
    × ((any (same_text jwt.1.0) symmetric_algorithms ≡ true)
        × ((pos 1 ≤ℤ jwt.1.1) × (jwt.1.1 ≤ℤ pos 1440)))

abbrev AreLimits : ConfigLibrary → Text × (Text × Text) → Type 0
AreLimits library limits =
    IsLimit library limits.0 × (IsLimit library limits.1.0 × IsLimit library limits.1.1)

read_jwt_ok :
    (library : ConfigLibrary) (env : Environment) (jwt : Text × (Text × ℤ))
    → read_jwt library env ≡ ok jwt
    → IsJwt jwt
unfolding read_jwt
read_jwt_ok library env jwt h = on_ok (or_invalid env.jwt_secret_key) _ h λ secret _ h1.
    checked_ok is_strong_secret secret _ h1 λ strong h2.
      checked_ok (one_of symmetric_algorithms) (or_default env.jwt_algorithm (codes "HS256")) _ h2
        λ symmetric h3.
          on_ok (read_field library.int_of_text env.access_token_expire_minutes (pos 30)) _ h3
            λ minutes _ h4. checked_ok (is_between 1 1440) minutes _ h4 λ fit done.
              subst IsJwt (ok_injective done)
                (is_strong_secret-true secret strong, (symmetric, between 1 1440 minutes fit))

read_currencies_ok :
    (unicode : Unicode) (library : ConfigLibrary) (env : Environment) (result : List Text)
    → read_currencies unicode library env ≡ ok result
    → (1 ≤ length result) × (all (is_currency_word unicode) result ≡ true) × AllDistinct result
unfolding read_currencies
read_currencies_ok unicode library env result h =
    on_ok
      (read_field (parse_currency_list unicode library) env.supported_currencies default_currencies)
      _ h λ listed _ h1. validate_currency_codes_ok unicode listed result h1

read_limits_ok :
    (library : ConfigLibrary) (env : Environment) (limits : Text × (Text × Text))
    → read_limits library env ≡ ok limits
    → AreLimits library limits
unfolding read_limits
read_limits_ok library env limits h =
    on_ok (validate_rate_limit_string library (or_default env.rate_limit_auth (codes "10/minute")))
      _ h
      λ auth auth_read h1.
        on_ok
          (validate_rate_limit_string library
            (or_default env.rate_limit_transactions (codes "100/minute")))
          _ h1
          λ transactions transactions_read h2.
            on_ok
              (validate_rate_limit_string library
                (or_default env.rate_limit_default (codes "200/minute")))
              _ h2
              λ default default_read done. subst (AreLimits library) (ok_injective done) (
                validate_rate_limit_string_ok library _ auth auth_read,
                (
                  validate_rate_limit_string_ok library _ transactions transactions_read,
                  validate_rate_limit_string_ok library _ default default_read,
                ),
              )

-- Whatever the environment says, settings that load satisfy every condition of IsSettings.
pub load_settings-IsSettings :
    (unicode : Unicode) (library : ConfigLibrary) (env : Environment) (s : Settings)
    → load_settings unicode library env ≡ ok s
    → IsSettings unicode library s
unfolding load_settings
load_settings-IsSettings unicode library env s h =
    checked_ok is_filled (or_default env.mongodb_db_name (codes "ledgerlock")) _ h λ named h1.
      on_ok (read_jwt library env) _ h1 λ jwt jwt_read h2.
        on_ok (read_field library.int_of_text env.bcrypt_rounds (pos 12)) _ h2 λ rounds _ h3.
          checked_ok (is_between 4 16) rounds _ h3 λ rounds_fit h4.
            on_ok (normalise_log_level unicode (or_default env.log_level (codes "INFO"))) _ h4
              λ level level_read h5.
                on_ok (read_currencies unicode library env) _ h5 λ words words_read h6.
                  on_ok (read_field library.bool_of_text env.rate_limit_enabled true) _ h6
                    λ enabled _ h7. on_ok (read_limits library env) _ h7 λ limits limits_read done.
                      let (strong, (symmetric, minutes)) = read_jwt_ok library env jwt jwt_read in
                      let (filled, are_words, once) =
                        read_currencies_ok unicode library env words words_read in
                      let (auth, (transactions, default)) =
                        read_limits_ok library env limits limits_read in
                      subst (IsSettings unicode library) (ok_injective done) (record {
                        named =
                            is_empty_some (or_default env.mongodb_db_name (codes "ledgerlock"))
                              (not-true _ named);
                        long_secret = strong.0;
                        own_secret = strong.1;
                        symmetric = symmetric;
                        minutes = minutes;
                        rounds = between 4 16 rounds rounds_fit;
                        level =
                            normalise_log_level_ok unicode (or_default env.log_level (codes "INFO"))
                              level level_read;
                        some_currency = filled;
                        currency_words = are_words;
                        different = once;
                        auth_limit = auth;
                        transactions_limit = transactions;
                        default_limit = default;
                      })
