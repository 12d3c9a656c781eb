-- ===== src/Logging.antt =====
-- app/core/logging_config.py: the filter that every record passes before it is written, and the
-- fields that the formatter adds.
pub mod Redacted
use ledgerlock.Models.{system, user}
use ledgerlock.Errors.{◌>>◌, ◌>>=◌, err, ok}
use ledgerlock.Characters.{Unicode, contains}
use ledgerlock.Base.{
  Bool-cases, ◌⊎◌, ◌≡◌, same_text, ◌++◌, if◌then◌else◌, any, codes, map, Option, Bool, List, pos,
  inr, inl, arith, refl, suc, zero, false, true, some, none, ◌∷◌, [], Text,
}

-- SENSITIVE_FIELD_MARKERS
abbrev pub sensitive_field_markers : List Text
sensitive_field_markers =
    codes "password"
    ∷ codes "secret"
    ∷ codes "token"
    ∷ codes "authorization"
    ∷ codes "credential"
    ∷ codes "api_key"
    ∷ codes "apikey"
    ∷ codes "cookie"
    ∷ codes "mongodb_uri"
    ∷ []

abbrev pub redacted : Text
redacted = codes "[REDACTED]"

-- `record.__dict__`: the fields by name. `none` is Python's None.
abbrev pub LogFields : Type 0
LogFields = List (Text × Option Text)

unfoldable pub is_sensitive : Unicode → Text → Bool
is_sensitive unicode field_name =
    any (λ marker. contains marker (unicode.lower field_name)) sensitive_field_markers

abbrev pub redact_value : Option Text → Option Text
redact_value none = none
redact_value (some value) = some redacted

unfoldable pub redact_field : Unicode → Text × Option Text → Text × Option Text
redact_field unicode (field_name, value) =
    if is_sensitive unicode field_name
    then (field_name, redact_value value)
    else (field_name, value)

-- `RedactSensitiveFields.filter`, which keeps every record.
unfoldable pub filter : Unicode → LogFields → LogFields
filter unicode fields = map (redact_field unicode) fields

unfoldable pub field_value : Text → LogFields → Option (Option Text)
field_value name [] = none
field_value name ((field_name, value) ∷ fields) =
    if same_text name field_name then some value else field_value name fields

-- `log_record[name] = value`
unfoldable pub set_field : Text → Option Text → LogFields → LogFields
set_field name value [] = (name, value) ∷ []
set_field name value ((field_name, old) ∷ fields) =
    if same_text name field_name
    then (field_name, value) ∷ fields
    else (field_name, old) ∷ set_field name value fields

-- The fields that `add_fields` makes sure of, after those of the base class.
unfoldable pub add_fields : Text → Text → Text → LogFields → LogFields
add_fields levelname logger_name message fields =
    let named =
      set_field (codes "logger") (some logger_name)
        (set_field (codes "level") (some levelname) fields) in
    elim (field_value (codes "event") named) [
      | some event ↦ named
      | none ↦ named ++ (codes "event", some message) ∷ []
    ]
