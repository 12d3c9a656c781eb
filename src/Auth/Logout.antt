-- ===== src/Auth/Logout.antt =====
-- Revocation: what the blacklist says after it, and that a logout is final.
use ledgerlock.Database.{Database}
use ledgerlock.Auth.{logout}
use ledgerlock.Security.{
  user_by_id, or_unauthenticated, claims, is_access, or_token_error, require_credentials, Claims,
  AuthenticatedUser, Decoded, Credentials, decode_access_token, get_current_user, revoke_token,
  Crypto, is_token_revoked,
}
use ledgerlock.Characters.{lower_char}
use ledgerlock.Mongo.{Mongo}
use ledgerlock.Models.{RevokedToken, Time, ObjectId}
use ledgerlock.Base.{
  ℕ, ◌*◌, All, codes, map, eq_of_same_text, not, ◌++◌, sym, subst, same_text_refl, if◌then◌else◌,
  ◌⊎◌, any-append, ◌∙◌, ◌≤◌, ap, Bool-cases, same_text, Option, ◌||◌, is_some, ◌≡◌, List, Text,
  Bool, any, first, inr, inl, arith, refl, false, true, ◌∷◌, [],
}
use ledgerlock.Errors.{
  ok_injective, raise_if_passed, unauthenticated_error, raise_if, on_ok, token_expired_error,
  token_revoked_error, rejected, err, ok, ◌>>=◌,
}

is_some-first : {A : Type 0} (p : A → Bool) (l : List A) → is_some (first p l) ≡ any p l
unfolding first any
is_some-first p [] = refl
is_some-first p (x ∷ l) = ground (arith, is_some-first p l)

or_false : (b : Bool) → (b || false) ≡ b
or_false true = refl
or_false false = refl

or_true : (b : Bool) → (b || true) ≡ true
or_true true = refl
or_true false = refl

claims_read : (d : Decoded) (p : Claims) → or_token_error d ≡ ok p → d ≡ claims p
claims_read Decoded.expired_signature p h = absurd (cc)
claims_read Decoded.invalid_token p h = absurd (cc)
claims_read (claims c) p h = ap claims (ok_injective h)

still_there :
    (j i : Text) (l : List RevokedToken)
    → any (λ (t : RevokedToken). same_text i t.jti) l ≡ true
    → any (λ (t : RevokedToken). same_text j t.jti) l
      ≡ (any (λ (t : RevokedToken). same_text j t.jti) l || same_text j i)
still_there j i l there = elim (Bool-cases (same_text j i)) [
  | inl y ↦
      let here : any (λ (t : RevokedToken). same_text j t.jti) l ≡ true =
        subst (λ (x : Text). any (λ (t : RevokedToken). same_text x t.jti) l ≡ true)
          (sym (eq_of_same_text j i y)) there in
      rw here refl
  | inr n ↦ rw n (sym (or_false _))
]

any_upserted :
    {A : Type 0} (p : A → Bool) (a : A) (l : List A) (b : Bool)
    → any p l ≡ b
    → p a ≡ true
    → any p (if b then l else l ++ a ∷ []) ≡ true
unfolding any
any_upserted p a l true h e = h
any_upserted p a l false h e = any-append p l (a ∷ []) ∙ rw (h, e) refl

pub All_last : {A : Type 0} (P : A → Type 0) (a : A) (l : List A) → All P (l ++ a ∷ []) → P a
All_last P a [] h = h.0
All_last P a (x ∷ l) h = All_last P a l h.1

-- The TTL index and later requests remove no revocation that has not expired.
abbrev pub Retained : Time → Database → Database → Type 0
Retained later after current =
    All
      (λ (t : RevokedToken).
        (t.expires_at ≤ later)
        ⊎ (any (λ (u : RevokedToken). same_text t.jti u.jti) current.revoked_tokens ≡ true))
      after.revoked_tokens

module _ ⦃m : Mongo⦄ where
  revoked_any :
      (j : Text) (db : Database)
      → is_token_revoked j db ≡ any (λ (t : RevokedToken). same_text j t.jti) db.revoked_tokens
  unfolding is_token_revoked
  revoked_any j db = ap is_some (m.find_one_first _ _) ∙ is_some-first _ db.revoked_tokens

  revoked_after :
      (j i : Text) (user_id : ObjectId) (expires_at revoked_at : Time) (db : Database)
      → is_token_revoked j (revoke_token i user_id expires_at revoked_at db)
        ≡ (is_token_revoked j db || same_text j i)
  unfolding revoke_token any
  revoked_after j i user_id expires_at revoked_at db =
      rw (revoked_any, revoked_any, m.upsert_one_set)
        (elim (Bool-cases (any (λ (t : RevokedToken). same_text i t.jti) db.revoked_tokens)) [
          | inl there ↦ rw there (still_there j i db.revoked_tokens there)
          | inr new ↦ rw new (
              any-append _ db.revoked_tokens _
              ∙ ap
                  (λ (b : Bool).
                    any (λ (t : RevokedToken). same_text j t.jti) db.revoked_tokens || b)
                  (or_false (same_text j i)))
        ])

  upsert_twice :
      {A : Type 0} (p : A → Bool) (a b : A) (l : List A)
      → p a ≡ true
      → m.upsert_one p b (m.upsert_one p a l) ≡ m.upsert_one p a l
  upsert_twice p a b l e =
      m.upsert_one_set p b _
      ∙ rw (ap (any p) (m.upsert_one_set p a l) ∙ any_upserted p a l (any p l) refl e) refl

  revoke_token_twice :
      (j : Text) (u v : ObjectId) (e f r q : Time) (db : Database)
      → revoke_token j v f q (revoke_token j u e r db) ≡ revoke_token j u e r db
  unfolding revoke_token
  revoke_token_twice j u v e f r q db =
      ap (λ (l : List RevokedToken). record db { revoked_tokens = l })
        (upsert_twice (λ (t : RevokedToken). same_text j t.jti) _ _ db.revoked_tokens
          (same_text_refl j))

  -- A revocation puts its own token on the blacklist, also when it was there, and changes the
  -- answer for no other token. To revoke the same token again, whatever the second call says of
  -- its user and of the times, changes nothing.
  pub is_token_revoked-revoke_token :
      (j i : Text) (u v : ObjectId) (e f r q : Time) (db : Database)
      → (is_token_revoked j (revoke_token i u e r db) ≡ (is_token_revoked j db || same_text j i))
        × (revoke_token i v f q (revoke_token i u e r db) ≡ revoke_token i u e r db)
  is_token_revoked-revoke_token j i u v e f r q db =
      (revoked_after j i u e r db, revoke_token_twice i u v e f r q db)

module _ ⦃m : Mongo⦄ ⦃k : Crypto⦄ where
  -- What an accepted request has shown.
  pub record Accepted (credentials : Option Credentials) (now : Time) (db : Database)
      (caller : AuthenticatedUser) : Type 0 where
    pub given : Credentials
    pub payload : Claims
    pub has_credentials : require_credentials credentials ≡ ok given
    pub is_bearer : not (same_text (map lower_char given.scheme) (codes "bearer")) ≡ false
    pub decoded : k.decode given.credentials now ≡ claims payload
    pub access : not (is_access payload.typ) ≡ false
    pub not_revoked : is_token_revoked payload.jti db ≡ false
    pub same_jti : caller.jti ≡ payload.jti
    pub same_expiry : caller.token_expires_at ≡ payload.exp * 1000

  decoded_ok :
      (d : Decoded) (c : Claims)
      → (or_token_error d >>= λ payload.
          raise_if (not (is_access payload.typ)) (rejected unauthenticated_error) >>= λ _.
          ok payload)
        ≡ ok c
      → (d ≡ claims c) × (not (is_access c.typ) ≡ false)
  decoded_ok d c h = on_ok (or_token_error d) _ h λ p read h1.
      on_ok (raise_if (not (is_access p.typ)) (rejected unauthenticated_error)) _ h1 λ _ passed h2.
        (
          claims_read d p read ∙ ap claims (ok_injective h2),
          ap (λ (x : Claims). not (is_access x.typ)) (sym (ok_injective h2))
              ∙ raise_if_passed _ _ passed,
        )

  pub get_current_user_ok :
      (credentials : Option Credentials) (now : Time) (db : Database) (caller : AuthenticatedUser)
      → get_current_user credentials now db ≡ ok caller
      → Accepted credentials now db caller
  unfolding get_current_user decode_access_token
  get_current_user_ok credentials now db caller h =
      on_ok (require_credentials credentials) _ h λ c eq h1.
        on_ok
          (raise_if (not (same_text (map lower_char c.scheme) (codes "bearer")))
            (rejected unauthenticated_error))
          _ h1
          λ _ bearer h2. on_ok (decode_access_token c.credentials now) _ h2 λ payload read h3.
            on_ok (raise_if (is_token_revoked payload.jti db) (rejected token_revoked_error)) _ h3
              λ _ live h4. on_ok (or_unauthenticated (k.object_id payload.sub)) _ h4 λ i _ h5.
                on_ok (or_unauthenticated (user_by_id i db)) _ h5 λ u _ h6.
                  let (decoded, access) = decoded_ok (k.decode c.credentials now) payload read in
                  record {
                    given = c;
                    payload = payload;
                    has_credentials = eq;
                    is_bearer = raise_if_passed _ _ bearer;
                    decoded = decoded;
                    access = access;
                    not_revoked = raise_if_passed _ _ live;
                    same_jti = ap (λ (x : AuthenticatedUser). x.jti) (sym (ok_injective h6));
                    same_expiry =
                        ap (λ (x : AuthenticatedUser). x.token_expires_at) (sym (ok_injective h6));
                  }

  -- The revocation that a logout stores expires with its token.
  revocation :
      (credentials : Option Credentials) (now revoked_at later : Time) (db current : Database)
      (caller : AuthenticatedUser) (a : Accepted credentials now db caller)
      → Retained later
          (revoke_token caller.jti caller.id caller.token_expires_at revoked_at db)
          current
      → (a.payload.exp * 1000 ≤ later) ⊎ (is_token_revoked a.payload.jti current ≡ true)
  unfolding revoke_token
  revocation credentials now revoked_at later db current caller a retained =
      let new : any (λ (t : RevokedToken). same_text caller.jti t.jti) db.revoked_tokens ≡ false =
        sym (revoked_any caller.jti db)
        ∙ ap (λ (j : Text). is_token_revoked j db) a.same_jti
        ∙ a.not_revoked in
      let stored : RevokedToken = record {
        jti = caller.jti;
        user_id = caller.id;
        expires_at = caller.token_expires_at;
        revoked_at = revoked_at;
      } in
      let Kept = λ (t : RevokedToken).
        (t.expires_at ≤ later)
        ⊎ (any (λ (u : RevokedToken). same_text t.jti u.jti) current.revoked_tokens ≡ true) in
      let kept : Kept stored = All_last Kept stored db.revoked_tokens (
        subst (All Kept)
          (m.upsert_one_set (λ (t : RevokedToken). same_text caller.jti t.jti) stored
              db.revoked_tokens
            ∙ ap (λ (b : Bool). if b then db.revoked_tokens else db.revoked_tokens ++ stored ∷ [])
                new)
          retained) in
      elim kept [
        | inl old ↦ inl (subst (λ (n : ℕ). n ≤ later) a.same_expiry old)
        | inr there ↦ inr (
            ap (λ (j : Text). is_token_revoked j current) (sym a.same_jti)
            ∙ revoked_any caller.jti current
            ∙ there)
      ]

  -- A logout is final: from its time on, the credentials that it accepted are refused, as revoked or
  -- as expired, on any later database that keeps each revocation at least until it expires.
  pub logout_final :
      (credentials : Option Credentials) (now revoked_at later : Time) (db after current : Database)
      → logout credentials now revoked_at db ≡ ok after
      → now ≤ later
      → Retained later after current
      → (get_current_user credentials later current ≡ err (rejected token_revoked_error))
        ⊎ (get_current_user credentials later current ≡ err (rejected token_expired_error))
  unfolding logout get_current_user decode_access_token
  logout_final credentials now revoked_at later db after current h order retained =
      on_ok (get_current_user credentials now db) _ h λ caller accepted done.
        let a = get_current_user_ok credentials now db caller accepted in
        let kept =
          revocation credentials now revoked_at later db current caller a (
            subst (λ (x : Database). Retained later x current) (sym (ok_injective done))
              retained) in
        elim (k.decode_later a.given.credentials now later a.payload order a.decoded) [
          | inr expired ↦ inr (rw (a.has_credentials, a.is_bearer, expired) refl)
          | inl same ↦ elim kept [
            | inr revoked ↦ inl (rw (a.has_credentials, a.is_bearer, same, a.access, revoked) refl)
            | inl old ↦
                absurd (omega (arith, old, k.decode_live a.given.credentials later a.payload same))
          ]
        ]
