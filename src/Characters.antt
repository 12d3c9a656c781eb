-- ===== src/Characters.antt =====
-- Python's `str` methods that the program uses. What they do outside ASCII comes from the Unicode
-- tables, which are an interface.
use ledgerlock.Base.{
  ◌+◌, map, ◌-◌, ◌≡◌, ◌||◌, ◌&&◌, ◌==◌, all, leb, is_empty, ltb, Bool, ℕ, if◌then◌else◌, false,
  true, Text, List, [], ◌∷◌,
}

-- Python's `str.isspace` on one character.
unfoldable pub is_space : ℕ → Bool
is_space c =
    (leb 9 c && leb c 13)
    || (leb 28 c && leb c 32)
    || c == 133
    || c == 160
    || c == 5760
    || (leb 8192 c && leb c 8202)
    || c == 8232
    || c == 8233
    || c == 8239
    || c == 8287
    || c == 12288

unfoldable pub strip_left : Text → Text
strip_left [] = []
strip_left (c ∷ t) = let rest = strip_left t in if is_space c then rest else c ∷ t

-- `str.rstrip`
unfoldable pub strip_right : Text → Text
strip_right [] = []
strip_right (c ∷ t) =
    let rest = strip_right t in if is_empty rest && is_space c then [] else c ∷ rest

unfoldable pub strip : Text → Text
unfolding is_space strip_left strip_right
strip t = strip_right (strip_left t)

-- `str.lower` where it matters for a comparison with an ASCII word.
abbrev pub lower_char : ℕ → ℕ
lower_char c = if leb b'A' c && leb c b'Z' then c + 32 else c

abbrev pub upper_char : ℕ → ℕ
upper_char c = if leb b'a' c && leb c b'z' then c - 32 else c

abbrev pub is_ascii : ℕ → Bool
is_ascii c = ltb c 128

abbrev pub is_ascii_letter : ℕ → Bool
is_ascii_letter c = (leb b'A' c && leb c b'Z') || (leb b'a' c && leb c b'z')

-- `str.upper`, `str.lower` and `str.isalpha` (the latter on one character).
pub record Unicode : Type 0 where
  pub upper : Text → Text
  pub lower : Text → Text
  pub is_alpha : ℕ → Bool
  pub upper_ascii : (t : Text) → all is_ascii t ≡ true → upper t ≡ map upper_char t
  pub lower_ascii : (t : Text) → all is_ascii t ≡ true → lower t ≡ map lower_char t
  pub is_alpha_ascii : (c : ℕ) → is_ascii c ≡ true → is_alpha c ≡ is_ascii_letter c

-- `str.split` at one character: always at least one part.
abbrev pub grow : ℕ → List Text → List Text
grow c [] = (c ∷ []) ∷ []
grow c (part ∷ parts) = (c ∷ part) ∷ parts

unfoldable pub split : ℕ → Text → List Text
split sep [] = [] ∷ []
split sep (c ∷ t) = let rest = split sep t in if c == sep then [] ∷ rest else grow c rest

-- `prefix in text` at the start, and anywhere.
unfoldable pub starts_with : Text → Text → Bool
starts_with [] t = true
starts_with (p ∷ ps) [] = false
starts_with (p ∷ ps) (c ∷ t) = p == c && starts_with ps t

unfoldable pub contains : Text → Text → Bool
unfolding starts_with
contains part [] = is_empty part
contains part (c ∷ t) = starts_with part (c ∷ t) || contains part t
