-- ===== src/Config/Currencies.antt =====
-- The list of currencies as it is written with commas, and as it is read.
use ledgerlock.Mongo.{distinct}
use ledgerlock.Characters.{
  starts_with, upper_char, is_ascii, is_space, split, strip_right, Unicode, strip_left, strip,
}
use ledgerlock.Models.{is_upper, is_currency_code}
use ledgerlock.Errors.{ok}
use ledgerlock.Base.{
  keep, is_empty, codes, same_text, ap, ◌==◌, ◌∙◌, ◌||◌, map, ◌++◌, All, Bool, ◌≡◌, not, Text, List,
  ℕ, all, arith, refl, false, true, some, ◌∷◌, [],
}
use ledgerlock.Config.{
  is_currency_word, listed_codes, ConfigLibrary, validate_currency_codes, parse_currency_list,
}

-- `",".join(parts)`
unfoldable pub joined : List Text → Text
joined [] = []
joined (c ∷ []) = c
joined (c ∷ d ∷ rest) = c ++ (b',' ∷ joined (d ∷ rest))

-- A character that a list of codes consists of.
abbrev is_listed : ℕ → Bool
unfolding is_upper
is_listed c = is_upper c || c == b','

upper_solid : (c : ℕ) → is_upper c ≡ true → is_space c ≡ false
unfolding is_upper is_space
upper_solid c h = ground arith

upper_alpha : (unicode : Unicode) (c : ℕ) → is_upper c ≡ true → unicode.is_alpha c ≡ true
unfolding is_upper
upper_alpha unicode c h = rw (unicode.is_alpha_ascii c (ground arith)) (ground arith)

all_weaken :
    (p q : ℕ → Bool)
    → ((c : ℕ) → p c ≡ true → q c ≡ true)
    → (t : Text) → all p t ≡ true
    → all q t ≡ true
unfolding all
all_weaken p q f [] h = refl
all_weaken p q f (c ∷ t) h = ground (arith, f c, all_weaken p q f t)

abbrev pub is_solid : ℕ → Bool
is_solid c = not (is_space c)

strip_left_solid : (t : Text) → all is_solid t ≡ true → strip_left t ≡ t
unfolding all strip_left
strip_left_solid [] h = refl
strip_left_solid (c ∷ t) h = ground arith

strip_right_solid : (t : Text) → all is_solid t ≡ true → strip_right t ≡ t
unfolding all strip_right
strip_right_solid [] h = refl
strip_right_solid (c ∷ t) h = ground (arith, strip_right_solid t)

pub strip_solid : (t : Text) → all is_solid t ≡ true → strip t ≡ t
unfolding strip
strip_solid t h = ap strip_right (strip_left_solid t h) ∙ strip_right_solid t h

code_upper : (c : Text) → is_currency_code c ≡ true → all is_upper c ≡ true
unfolding is_currency_code
code_upper c h = ground arith

code_solid : (c : Text) → is_currency_code c ≡ true → all is_solid c ≡ true
code_solid c h = all_weaken is_upper is_solid (λ x u. ap not (upper_solid x u)) c (code_upper c h)

strip_code : (c : Text) → is_currency_code c ≡ true → strip c ≡ c
strip_code c h = strip_solid c (code_solid c h)

map-upper_char : (t : Text) → all is_upper t ≡ true → map upper_char t ≡ t
unfolding all is_upper
map-upper_char [] h = refl
map-upper_char (c ∷ t) h = ground (arith, map-upper_char t)

upper_code : (unicode : Unicode) (c : Text) → is_currency_code c ≡ true → unicode.upper c ≡ c
unfolding is_upper
upper_code unicode c h =
    unicode.upper_ascii c (all_weaken is_upper is_ascii (λ x u. ground arith) c (code_upper c h))
    ∙ map-upper_char c (code_upper c h)

split_code :
    (c rest : Text) → all is_upper c ≡ true → split b',' (c ++ (b',' ∷ rest)) ≡ c ∷ split b',' rest
unfolding all is_upper split
split_code [] rest h = refl
split_code (x ∷ c) rest h = ground (arith, split_code c rest)

split_last : (c : Text) → all is_upper c ≡ true → split b',' c ≡ c ∷ []
unfolding all is_upper split
split_last [] h = refl
split_last (x ∷ c) h = ground (arith, split_last c)

split-joined :
    (c : Text) (l : List Text)
    → All (λ x. is_currency_code x ≡ true) (c ∷ l)
    → split b',' (joined (c ∷ l)) ≡ c ∷ l
unfolding joined
split-joined c [] h = split_last c (code_upper c h.0)
split-joined c (d ∷ l) h =
    split_code c (joined (d ∷ l)) (code_upper c h.0) ∙ ap (λ r. c ∷ r) (split-joined d l h.1)

all-append : (p : ℕ → Bool) (s t : Text) → all p s ≡ true → all p t ≡ true → all p (s ++ t) ≡ true
unfolding all
all-append p [] t h k = k
all-append p (c ∷ s) t h k = ground (arith, all-append p s t)

comma_solid : is_solid b',' ≡ true
unfolding is_space
comma_solid = refl

joined_solid :
    (l : List Text) → All (λ x. is_currency_code x ≡ true) l → all is_solid (joined l) ≡ true
unfolding joined all
joined_solid [] h = refl
joined_solid (c ∷ []) h = code_solid c h.0
joined_solid (c ∷ d ∷ l) h =
    all-append is_solid c (b',' ∷ joined (d ∷ l)) (code_solid c h.0)
      (cc (comma_solid, joined_solid (d ∷ l) h.1))

-- The list does not look like a JSON array.
joined_plain :
    (c : Text) (l : List Text)
    → is_currency_code c ≡ true
    → starts_with (codes "[") (joined (c ∷ l)) ≡ false
unfolding joined starts_with is_currency_code is_upper
joined_plain [] l h = absurd (cc)
joined_plain (x ∷ c) [] h = ground arith
joined_plain (x ∷ c) (d ∷ l) h = ground arith

code_filled : (c : Text) → is_currency_code c ≡ true → is_empty c ≡ false
unfolding is_currency_code
code_filled [] h = absurd (cc)
code_filled (x ∷ c) h = refl

code_word :
    (unicode : Unicode) (c : Text) → is_currency_code c ≡ true → is_currency_word unicode c ≡ true
unfolding is_currency_word is_currency_code
code_word unicode c h =
    ground (arith, all_weaken is_upper unicode.is_alpha (upper_alpha unicode) c (code_upper c h))

words :
    (unicode : Unicode) (l : List Text)
    → All (λ x. is_currency_code x ≡ true) l
    → all (is_currency_word unicode) l ≡ true
unfolding all
words unicode [] h = refl
words unicode (c ∷ l) h = cc (code_word unicode c h.0, words unicode l h.1)

listed_codes_lem :
    (unicode : Unicode) (l : List Text)
    → All (λ x. is_currency_code x ≡ true) l
    → listed_codes unicode l ≡ l
unfolding listed_codes keep
listed_codes_lem unicode [] h = refl
listed_codes_lem unicode (c ∷ l) h =
    rw (strip_code c h.0, code_filled c h.0, strip_code c h.0, upper_code unicode c h.0)
      (ap (λ r. c ∷ r) (listed_codes_lem unicode l h.1))

normalised_codes :
    (unicode : Unicode) (l : List Text)
    → All (λ x. is_currency_code x ≡ true) l
    → map (λ code. unicode.upper (strip code)) l ≡ l
normalised_codes unicode [] h = refl
normalised_codes unicode (c ∷ l) h =
    rw (strip_code c h.0, upper_code unicode c h.0, normalised_codes unicode l h.1)

-- A setting that lists codes of three capital letters between commas is read as that list, and its
-- validation keeps each code once, in the order of its first occurrence.
pub parse_currency_list-joined :
    (unicode : Unicode) (library : ConfigLibrary) (c : Text) (l : List Text)
    → All (λ x. is_currency_code x ≡ true) (c ∷ l)
    → (parse_currency_list unicode library (joined (c ∷ l)) ≡ some (c ∷ l))
      × (validate_currency_codes unicode (c ∷ l) ≡ ok (distinct same_text (c ∷ l)))
unfolding parse_currency_list validate_currency_codes
parse_currency_list-joined unicode library c l h = (
  rw (
    strip_solid (joined (c ∷ l)) (joined_solid (c ∷ l) h),
    joined_plain c l h.0,
    split-joined c l h,
    listed_codes_lem unicode (c ∷ l) h,
  ),
  rw (normalised_codes unicode (c ∷ l) h, words unicode (c ∷ l) h),
)
