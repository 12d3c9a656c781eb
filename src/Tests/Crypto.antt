-- ===== src/Tests/Crypto.antt =====
-- Libraries that behave as documented, in the clear: a token is the list of its claims, a hash the
-- password.
use ledgerlock.Models.{ObjectId, Time}
use ledgerlock.Base.{
  subst, Bool-cases, same_text_refl, ◌⊎◌, ltb, ◌∙◌, leb, ◌<◌, ◌++◌, ap, ◌==◌, drop, length, ◌*◌,
  ◌≤◌, same_text, take, if◌then◌else◌, Option, Text, ◌≡◌, ℕ, inr, inl, arith, refl, some, none, ◌∷◌,
  [],
}
use ledgerlock.Security.{claims, Crypto, Claims, Decoded}

abbrev pub tag : Option Text → ℕ
tag none = 0
tag (some t) = 1

abbrev pub typ_text : Option Text → Text
typ_text none = []
typ_text (some t) = t

abbrev pub encoded : Claims → Text
encoded c =
    c.iat ∷ c.exp ∷ tag c.typ ∷ length c.sub ∷ length c.jti ∷ (c.sub ++ (c.jti ++ typ_text c.typ))

abbrev pub typ_of : ℕ → Text → Option Text
typ_of n t = if n == 0 then none else some t

abbrev pub parsed : Text → Option Claims
parsed (iat ∷ exp ∷ n ∷ i ∷ j ∷ rest) = some (record {
  sub = take i rest;
  jti = take j (drop i rest);
  typ = typ_of n (drop j (drop i rest));
  iat = iat;
  exp = exp;
})
parsed _ = none

abbrev pub timed : Option Claims → Time → Decoded
timed none now = Decoded.invalid_token
timed (some c) now =
    if leb (c.exp * 1000) now
    then Decoded.expired_signature
    else if ltb now (c.iat * 1000)
    then Decoded.invalid_token
    else claims c

take-length : (a b : Text) → take (length a) (a ++ b) ≡ a
take-length [] b = refl
take-length (x ∷ a) b = ap (λ (l : Text). x ∷ l) (take-length a b)

drop-length : (a b : Text) → drop (length a) (a ++ b) ≡ b
drop-length [] b = refl
drop-length (x ∷ a) b = drop-length a b

typ_back : (o : Option Text) → typ_of (tag o) (typ_text o) ≡ o
typ_back none = refl
typ_back (some t) = refl

pub parsed-encoded : (c : Claims) → parsed (encoded c) ≡ some c
parsed-encoded c =
    rw (take-length c.sub, drop-length c.sub, take-length c.jti, drop-length c.jti, typ_back c.typ)
      refl

abbrev exp_of : Decoded → Time
exp_of (claims c) = c.exp
exp_of _ = 0

claims_exp : (c d : Claims) → claims c ≡ claims d → c.exp ≡ d.exp
claims_exp c d h = ap exp_of h

pub timed_later :
    (o : Option Claims) (now later : Time) (c : Claims)
    → now ≤ later
    → timed o now ≡ claims c
    → (timed o later ≡ claims c) ⊎ (timed o later ≡ Decoded.expired_signature)
timed_later none now later c order h = absurd (cc)
timed_later (some d) now later c order h = elim (Bool-cases (leb (d.exp * 1000) later)) [
  | inl y ↦ inr (rw y refl)
  | inr n ↦ inl (ground arith)
]

pub timed_live :
    (o : Option Claims) (now : Time) (c : Claims) → timed o now ≡ claims c → now < c.exp * 1000
timed_live none now c h = absurd (cc)
timed_live (some d) now c h = elim (Bool-cases (leb (d.exp * 1000) now)) [
  | inl y ↦ absurd (cc (rw y at h))
  | inr n ↦ elim (Bool-cases (ltb now (d.iat * 1000))) [
    | inl early ↦ absurd (cc (rw (n, early) at h))
    | inr late ↦
        subst (λ (e : ℕ). now < e * 1000) (claims_exp d c (rw (n, late) at h)) (ground arith)
  ]
]

pub timed_now :
    (c : Claims) (now : Time)
    → c.iat * 1000 ≤ now
    → now < c.exp * 1000
    → timed (some c) now ≡ claims c
timed_now c now early late = ground arith

abbrev pub read_id : Text → Option ObjectId
read_id (i ∷ []) = some i
read_id _ = none

instance unfoldable pub clear : Crypto
clear = record {
  encode = encoded;
  decode = λ token now. timed (parsed token) now;
  object_id = read_id;
  object_id_text = λ i. i ∷ [];
  hashpw = λ password salt. password;
  checkpw = λ password hashed. some (same_text password hashed);
  encode_some = λ c. refl;
  decode_encode =
      λ c now early late. ap (λ o. timed o now) (parsed-encoded c) ∙ timed_now c now early late;
  decode_later = λ token now later c order h. timed_later (parsed token) now later c order h;
  decode_live = λ token now c h. timed_live (parsed token) now c h;
  object_id_read = λ i. refl;
  checkpw_own = λ password salt. ap some (same_text_refl password);
}
