-- ===== src/RateLimit.antt =====
-- app/core/rate_limit.py: whom a request counts against, and the limits. Counting is slowapi's; the
-- handler of a request over its limit is in Errors/Handlers.antt.
use ledgerlock.Config.{Settings}
use ledgerlock.Base.{
  ℕ, drop, ap, ◌∙◌, sym, ◌++◌, ◌↔◌, not, codes, ◌≡◌, Bool, Option, arith, refl, some, none, ◌∷◌, [],
  Text,
}

-- What the limiter reads of a request: `request.state.user_id`, if authentication set it, and the
-- address of the client.
pub record LimitedRequest : Type 0 where
  pub user_id : Option Text
  pub remote_address : Text

unfoldable pub rate_limit_key : LimitedRequest → Text
rate_limit_key request = elim request.user_id [
  | none ↦ codes "ip:" ++ request.remote_address
  | some [] ↦ codes "ip:" ++ request.remote_address
  | some (c ∷ user_id) ↦ codes "user:" ++ (c ∷ user_id)
]

unfoldable pub rate_limiting_is_disabled : Settings → Bool
rate_limiting_is_disabled settings = not settings.rate_limit_enabled

unfoldable pub auth_limit : Settings → Text
auth_limit settings = settings.rate_limit_auth

unfoldable pub transaction_limit : Settings → Text
transaction_limit settings = settings.rate_limit_transactions

unfoldable pub default_limit : Settings → Text
default_limit settings = settings.rate_limit_default

-- Who is behind a request: a user, or whoever uses an address without having logged in.
pub data Caller : Type 0 where
  known : Text → Caller
  anonymous : Text → Caller

abbrev pub caller_of : Option Text → Text → Caller
caller_of none address = anonymous address
caller_of (some []) address = anonymous address
caller_of (some (c ∷ user_id)) address = known (c ∷ user_id)

abbrev first_char : Text → ℕ
first_char [] = 0
first_char (c ∷ t) = c

key_of_caller : Caller → Text
key_of_caller (known user_id) = codes "user:" ++ user_id
key_of_caller (anonymous address) = codes "ip:" ++ address

key_lem :
    (user_id : Option Text) (address : Text)
    → rate_limit_key (record { user_id = user_id; remote_address = address })
      ≡ key_of_caller (caller_of user_id address)
unfolding rate_limit_key key_of_caller
key_lem none address = refl
key_lem (some []) address = refl
key_lem (some (c ∷ user_id)) address = refl

key_of_caller_injective : (a b : Caller) → key_of_caller a ≡ key_of_caller b → a ≡ b
unfolding key_of_caller
key_of_caller_injective (known a) (known b) h = ap (λ (t : Text). known (drop 5 t)) h
key_of_caller_injective (known a) (anonymous b) h = absurd (omega (arith, ap first_char h))
key_of_caller_injective (anonymous a) (known b) h = absurd (omega (arith, ap first_char h))
key_of_caller_injective (anonymous a) (anonymous b) h = ap (λ (t : Text). anonymous (drop 3 t)) h

-- The keys of two requests are the same exactly if the same user made them, from any address, or
-- neither is by a known user and they come from the same address. For which routes a key counts
-- together is slowapi's.
pub rate_limit_key-eq_iff :
    (r s : LimitedRequest)
    → (rate_limit_key r ≡ rate_limit_key s)
      ↔ (caller_of r.user_id r.remote_address ≡ caller_of s.user_id s.remote_address)
rate_limit_key-eq_iff r s = (
  λ h.
      key_of_caller_injective (caller_of r.user_id r.remote_address)
        (caller_of s.user_id s.remote_address)
        (sym (key_lem r.user_id r.remote_address) ∙ h ∙ key_lem s.user_id s.remote_address),
  λ h.
      key_lem r.user_id r.remote_address
      ∙ ap key_of_caller h
      ∙ sym (key_lem s.user_id s.remote_address),
)
