-- ===== src/Logging/Redacted.antt =====
-- What the filter leaves of a record.
use ledgerlock.Characters.{Unicode, contains, starts_with}
use ledgerlock.Logging.{
  sensitive_field_markers, redacted, is_sensitive, redact_value, LogFields, field_value,
  redact_field, filter,
}
use ledgerlock.Base.{
  ◌≢◌, ◌∙◌, sym, eq_of_same_text, subst, same_text, ◌⊎◌, Bool-cases, ◌≡◌, if◌then◌else◌, ◌++◌, List,
  Bool, any, Option, inr, inl, arith, refl, false, true, some, none, ◌∷◌, [], Text,
}

-- A field's value reveals nothing if it is None or the fixed text.
abbrev pub Hidden : Option Text → Type 0
Hidden value = (value ≡ none) ⊎ (value ≡ some redacted)

-- A field that is there is hidden, and one that is missing stays missing.
abbrev pub Concealed : Option (Option Text) → Option (Option Text) → Type 0
Concealed before none = before ≡ none
Concealed before (some value) = Hidden value × (before ≢ none)

redact_value-Hidden : (value : Option Text) → Hidden (redact_value value)
redact_value-Hidden none = inl refl
redact_value-Hidden (some value) = inr refl

-- The value of one field, after the filter.
abbrev shown : Bool → Option (Option Text) → Option (Option Text)
shown sensitive none = none
shown sensitive (some value) = some (if sensitive then redact_value value else value)

redact_field_name :
    (unicode : Unicode) (field_name : Text) (value : Option Text)
    → (redact_field unicode (field_name, value)).0 ≡ field_name
unfolding redact_field
redact_field_name unicode field_name value = ground arith

redact_field_value :
    (unicode : Unicode) (name : Text) (value : Option Text)
    → some (redact_field unicode (name, value)).1 ≡ shown (is_sensitive unicode name) (some value)
unfolding redact_field
redact_field_value unicode name value = ground arith

redacted_here :
    (unicode : Unicode) (name field_name : Text) (value : Option Text)
    → same_text name field_name ≡ true
    → some (redact_field unicode (field_name, value)).1
      ≡ shown (is_sensitive unicode name) (some value)
redacted_here unicode name field_name value same =
    subst
      (λ x.
        some (redact_field unicode (x, value)).1 ≡ shown (is_sensitive unicode name) (some value))
      (eq_of_same_text name field_name same) (redact_field_value unicode name value)

field_value-filter :
    (unicode : Unicode) (name : Text) (fields : LogFields)
    → field_value name (filter unicode fields)
      ≡ shown (is_sensitive unicode name) (field_value name fields)
unfolding filter field_value
field_value-filter unicode name [] = refl
field_value-filter unicode name ((field_name, value) ∷ fields) =
    rw (redact_field_name unicode field_name value) (elim (Bool-cases (same_text name field_name)) [
      | inl same ↦ rw same (redacted_here unicode name field_name value same)
      | inr other ↦ rw other (field_value-filter unicode name fields)
    ])

starts_with-append : (s t : Text) → starts_with s (s ++ t) ≡ true
unfolding starts_with
starts_with-append [] t = refl
starts_with-append (c ∷ s) t = ground (arith, starts_with-append s t)

contains-append : (pre marker post : Text) → contains marker (pre ++ (marker ++ post)) ≡ true
unfolding contains
contains-append [] [] [] = refl
contains-append [] [] (c ∷ post) = refl
contains-append [] (c ∷ marker) post = ground (arith, starts_with-append marker post)
contains-append (c ∷ pre) marker post = ground (arith, contains-append pre marker post)

any_of_same :
    (p : Text → Bool) (k : Text) (l : List Text)
    → any (same_text k) l ≡ true
    → p k ≡ true
    → any p l ≡ true
unfolding any
any_of_same p k [] h e = h
any_of_same p k (j ∷ l) h e = elim (Bool-cases (same_text k j)) [
  | inl y ↦ rw (subst (λ x. p x ≡ true) (eq_of_same_text k j y) e)
  | inr n ↦ ground (arith, any_of_same p k l)
]

sensitive :
    (unicode : Unicode) (name pre marker post : Text)
    → any (same_text marker) sensitive_field_markers ≡ true
    → unicode.lower name ≡ pre ++ (marker ++ post)
    → is_sensitive unicode name ≡ true
unfolding is_sensitive
sensitive unicode name pre marker post known named =
    any_of_same (λ m. contains m (unicode.lower name)) marker sensitive_field_markers known
      (rw named (contains-append pre marker post))

shown-Concealed : (o : Option (Option Text)) → Concealed o (shown true o)
shown-Concealed none = refl
shown-Concealed (some value) = (redact_value-Hidden value, λ e. absurd (cc))

shown-false : (o : Option (Option Text)) → shown false o ≡ o
shown-false none = refl
shown-false (some v) = refl

-- If one of the markers stands anywhere in a field's name in lower case, the filter leaves of the
-- field's value None or the fixed text, in any record; a field that is missing stays missing.
pub filter_redacts :
    (unicode : Unicode) (name pre marker post : Text) (fields : LogFields)
    → any (same_text marker) sensitive_field_markers ≡ true
    → unicode.lower name ≡ pre ++ (marker ++ post)
    → Concealed (field_value name fields) (field_value name (filter unicode fields))
filter_redacts unicode name pre marker post fields known named =
    subst (Concealed (field_value name fields)) (sym (field_value-filter unicode name fields)) (
      subst (λ b. Concealed (field_value name fields) (shown b (field_value name fields)))
        (sym (sensitive unicode name pre marker post known named))
        (shown-Concealed (field_value name fields)))

-- If none of the markers stands in a field's name in lower case, the filter leaves the field as it is,
-- in any record: the same value, or missing.
pub filter_keeps :
    (unicode : Unicode) (name : Text) (fields : LogFields)
    → any (λ m. contains m (unicode.lower name)) sensitive_field_markers ≡ false
    → field_value name (filter unicode fields) ≡ field_value name fields
unfolding is_sensitive
filter_keeps unicode name fields plain =
    field_value-filter unicode name fields ∙ rw plain (shown-false (field_value name fields))
