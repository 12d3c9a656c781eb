-- ===== src/Models/Common.antt =====
-- app/models/common.py: the shared field types. An ObjectId is its number, a datetime its count of
-- milliseconds; both are only compared.
use ledgerlock.Base.{ℕ, Bool, ◌&&◌, ◌||◌, Text, ℤ, pos, ltb_ℤ, leb_ℤ, leb, ◌==◌, length, all}

abbrev pub ObjectId : Type 0
ObjectId = ℕ

abbrev pub Time : Type 0
Time = ℕ

unfoldable pub is_upper : ℕ → Bool
is_upper c = leb b'A' c && leb c b'Z'

-- CurrencyCode: `^[A-Z]{3}$`
unfoldable pub is_currency_code : Text → Bool
unfolding is_upper all
is_currency_code t = length t == 3 && all is_upper t

-- The characters of IdempotencyKey: `[A-Za-z0-9_.:-]`
unfoldable pub is_key_char : ℕ → Bool
unfolding is_upper
is_key_char c =
    is_upper c
    || (leb b'a' c && leb c b'z')
    || (leb b'0' c && leb c b'9')
    || c == b'_'
    || c == b'.'
    || c == b':'
    || c == b'-'

-- IdempotencyKey: 8 to 128 characters, all of them in the set.
unfoldable pub is_idempotency_key : Text → Bool
unfolding is_key_char all
is_idempotency_key t = leb 8 (length t) && leb (length t) 128 && all is_key_char t

-- The bound of AmountMinor, 10^12 minor units.
abbrev pub max_amount_minor : ℕ
max_amount_minor = 1_000_000_000_000

-- AmountMinor on an integer: `gt=0, le=1_000_000_000_000`
unfoldable pub is_amount_minor : ℤ → Bool
is_amount_minor n = ltb_ℤ (pos 0) n && leb_ℤ n (pos max_amount_minor)
