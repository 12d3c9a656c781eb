-- ===== src/Config/Fields.antt =====
-- What the validators let through, field by field.
use ledgerlock.Errors.{on_ok, validation_error, Result, on_passed, ◌>>=◌, err, ok_injective, ok}
use ledgerlock.Config.Distinct.{AllDistinct-distinct, all-distinct}
use ledgerlock.Mongo.{distinct}
use ledgerlock.Characters.{strip, Unicode}
use ledgerlock.Base.{
  AllDistinct, ◌∙◌, leb_ℤ_true, leb_ℤ, ℤ, Option, ℕ, same_text_refl, sym, &&_parts, map, is_empty,
  refl, some, none, [], ◌≤ℤ◌, pos, subst, inr, ◌≢◌, inl, inl, not, length, arith, true, Bool-cases,
  false, ◌∷◌, ◌∷◌, ◌≡◌, same_text, ◌≤◌, Text, all, List, Bool, any,
}
use ledgerlock.Config.{
  is_between, or_invalid, one_of, RateLimitItem, normalise_log_level, validate_rate_limit_string,
  log_levels, placeholder_jwt_secret, minimum_jwt_secret_length, is_currency_word, checked,
  ConfigLibrary, is_strong_secret, validate_currency_codes,
}

-- A text in which `limits` reads at least one limit.
abbrev pub IsLimit : ConfigLibrary → Text → Type 0
IsLimit library text =
    (items : List RateLimitItem) × (library.parse_many text ≡ some items) × (1 ≤ length items)

pub checked_ok :
    {A C : Type 0} (test : A → Bool) (a : A) (rest : A → Result C) {c : C} {P : Type 0}
    → (checked test a >>= rest) ≡ ok c
    → (test a ≡ true → rest a ≡ ok c → P)
    → P
unfolding checked
checked_ok test a rest h k = elim (Bool-cases (test a)) [
  | inl y ↦ k y (rw y at h)
  | inr n ↦ absurd (cc (rw n at h))
]

distinct_some : (l : List Text) → is_empty l ≡ false → 1 ≤ length (distinct same_text l)
unfolding distinct
distinct_some [] h = ground arith
distinct_some (k ∷ l) h = omega arith

map_some : (f : Text → Text) (l : List Text) → is_empty l ≡ false → is_empty (map f l) ≡ false
map_some f [] h = h
map_some f (k ∷ l) h = refl

-- Accepted currencies are words of three letters, each once, and there is one.
pub validate_currency_codes_ok :
    (unicode : Unicode) (value result : List Text)
    → validate_currency_codes unicode value ≡ ok result
    → (1 ≤ length result) × (all (is_currency_word unicode) result ≡ true) × AllDistinct result
unfolding validate_currency_codes
validate_currency_codes_ok unicode value result h =
    on_passed (is_empty value) validation_error _ h λ filled h1.
      let normalised = map (λ code. unicode.upper (strip code)) value in
      on_passed (not (all (is_currency_word unicode) normalised)) validation_error _ h1 λ words h2.
        let IsGood : List Text → Type 0 = λ (l : List Text).
          (1 ≤ length l) × (all (is_currency_word unicode) l ≡ true) × AllDistinct l in
        subst IsGood (ok_injective h2) (
          distinct_some normalised (map_some _ value filled),
          all-distinct (is_currency_word unicode) normalised (ground arith),
          AllDistinct-distinct normalised,
        )

pub is_strong_secret-true :
    (s : Text)
    → is_strong_secret s ≡ true
    → (minimum_jwt_secret_length ≤ length s) × (s ≢ placeholder_jwt_secret)
unfolding is_strong_secret
is_strong_secret-true s h =
    let (other, long) = &&_parts (not (same_text s placeholder_jwt_secret)) _ h in
    (
      ground arith,
      λ e. cc (subst (λ x. not (same_text s x) ≡ true) (sym e) other, same_text_refl s),
    )

bind_ok : {A : Type 0} (r : Result A) → (r >>= ok) ≡ r
bind_ok (ok a) = refl
bind_ok (err e) = refl

or_invalid_ok : {A : Type 0} (o : Option A) {a : A} → or_invalid o ≡ ok a → o ≡ some a
or_invalid_ok none h = absurd (cc)
or_invalid_ok (some b) h = cc

pub is_empty_some : {A : Type 0} (l : List A) → is_empty l ≡ false → 1 ≤ length l
is_empty_some [] h = ground arith
is_empty_some (x ∷ l) h = omega arith

pub not-true : (b : Bool) → not b ≡ true → b ≡ false
not-true true h = cc
not-true false h = refl

pub between :
    (low high : ℕ) (v : ℤ) → is_between low high v ≡ true → (pos low ≤ℤ v) × (v ≤ℤ pos high)
between low high v h =
    let (l, u) = &&_parts (leb_ℤ (pos low) v) _ h in
    (leb_ℤ_true (pos low) v l, leb_ℤ_true v (pos high) u)

pub normalise_log_level_ok :
    (unicode : Unicode) (text level : Text)
    → normalise_log_level unicode text ≡ ok level
    → any (same_text level) log_levels ≡ true
unfolding normalise_log_level
normalise_log_level_ok unicode text level h =
    checked_ok (one_of log_levels) (unicode.upper text) ok (bind_ok _ ∙ h)
      λ is_level same. subst (λ x. any (same_text x) log_levels ≡ true) (ok_injective same) is_level

pub validate_rate_limit_string_ok :
    (library : ConfigLibrary) (text limit : Text)
    → validate_rate_limit_string library text ≡ ok limit
    → IsLimit library limit
unfolding validate_rate_limit_string
validate_rate_limit_string_ok library text limit h =
    on_ok (or_invalid (library.parse_many text)) _ h λ items parsed h1.
      on_passed (is_empty items) validation_error _ h1 λ filled h2.
        subst (IsLimit library) (ok_injective h2)
          (items, or_invalid_ok _ parsed, is_empty_some items filled)
