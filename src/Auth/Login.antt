-- ===== src/Auth/Login.antt =====
-- Registration and login.
use ledgerlock.Database.Laws.{insert_one_inv}
use ledgerlock.Database.{insert_user, clash_user, perform, Database}
use ledgerlock.Auth.{
  token_response, TokenResponse, or_email_taken, RegisterDraw, register, user_by_email, login,
}
use ledgerlock.Security.{
  token_type_access, Claims, is_token_revoked, Credentials, decode_access_token, get_current_user,
  IssuedToken, user_by_id, utf8_length, create_access_token, hash_password, Crypto,
}
use ledgerlock.Mongo.{Mongo}
use ledgerlock.Models.{ObjectId, User, Time}
use ledgerlock.Base.{
  ◌+◌, ◌<◌, ◌≤◌, ◌*◌, ◌/◌, codes, ==_refl, subst, Option, ap, ltb, ◌∙◌, sym, first_of_any,
  first-append_none, any_weaken, ◌==◌, same_text, ◌++◌, any, Bool, List, first, Option-cases, ◌≡◌,
  ℕ, Text, inr, inl, arith, refl, false, true, some, ◌∷◌, [],
}
use ledgerlock.Errors.{
  value_error, ok_injective, raise_if, on_ok, Result, invalid_credentials_error, rejected, Exc, err,
  ok, ◌>>=◌,
}

clash_user_id :
    (u : User) (l : List User)
    → any (clash_user u) l ≡ false
    → any (λ (x : User). x.id == u.id) l ≡ false
unfolding clash_user
clash_user_id u l h = any_weaken (clash_user u) (λ x. x.id == u.id) (λ x n. ground arith) l h

email_taken_ok : (r : Result Database) (db : Database) → or_email_taken r ≡ ok db → r ≡ ok db
email_taken_ok r db h = ground arith

first_new :
    (p : User → Bool) (l : List User) (u : User)
    → any p l ≡ false
    → p u ≡ true
    → first p (l ++ u ∷ []) ≡ some u
unfolding first
first_new p l u h e = first-append_none p l (u ∷ []) (first_of_any p l h) ∙ rw e refl

module _ ⦃k : Crypto⦄ where
  -- The user that a registration stores.
  abbrev pub registered : Text → Text → RegisterDraw → User
  registered email password d = record {
    id = d.user_id;
    email = email;
    hashed_password = k.hashpw password d.salt;
    created_at = d.created_at;
  }

module _ ⦃m : Mongo⦄ ⦃k : Crypto⦄ where
  -- A login that fails gives the same error for an unknown address and for a wrong password.
  pub login_uniform :
      (email password jti : Text) (issued_at : Time) (minutes : ℕ) (db : Database) (e : Exc)
      → login email password jti issued_at minutes db ≡ err e
      → e ≡ rejected invalid_credentials_error
  unfolding login
  login_uniform email password jti issued_at minutes db e h =
      elim (Option-cases (user_by_email email db)) [
        | inl missing ↦ ground arith
        | inr (u, found) ↦ ground arith
      ]

  perform_user :
      (u : User) (db after : Database)
      → perform (insert_user u) db ≡ ok after
      → (any (clash_user u) db.users ≡ false) × (after ≡ record db { users = db.users ++ u ∷ [] })
  unfolding perform
  perform_user u db after h = on_ok (m.insert_one (λ _. true) clash_user u db.users) _ h λ l e done.
      let i = insert_one_inv (λ _. true) clash_user u db.users l e in
      (
        i.no_clash,
        sym (ok_injective done) ∙ ap (λ (x : List User). record db { users = x }) i.appended,
      )

  abbrev stored : User → IssuedToken → Database → Result (TokenResponse × Database)
  stored u issued db = do
    db' ← or_email_taken (perform (insert_user u) db)
    ok (token_response issued u, db')

  store_ok :
      (u : User) (issued : IssuedToken) (db after : Database) (response : TokenResponse)
      → stored u issued db ≡ ok (response, after)
      → (any (clash_user u) db.users ≡ false)
        × (after ≡ record db { users = db.users ++ u ∷ [] })
        × (response ≡ token_response issued u)
  store_ok u issued db after response h =
      on_ok (or_email_taken (perform (insert_user u) db)) _ h λ x e done.
        let (fresh, same) = perform_user u db x (email_taken_ok _ x e) in
        (
          fresh,
          ap (λ (y : TokenResponse × Database). y.1) (sym (ok_injective done)) ∙ same,
          ap (λ (y : TokenResponse × Database). y.0) (sym (ok_injective done)),
        )

  pub register_ok :
      (email password : Text) (d : RegisterDraw) (minutes : ℕ) (db after : Database)
      (response : TokenResponse)
      → register email password d minutes db ≡ ok (response, after)
      → (any (clash_user (registered email password d)) db.users ≡ false)
        × (after ≡ record db { users = db.users ++ registered email password d ∷ [] })
        × (response
            ≡ token_response
                (create_access_token d.user_id d.jti d.issued_at minutes)
                (registered email password d))
  unfolding register hash_password
  register_ok email password d minutes db after response h =
      on_ok (hash_password password d.salt) _ h λ hashed hashing h1.
        on_ok (raise_if (ltb 72 (utf8_length password)) value_error) _ hashing λ _ _ done.
          store_ok (registered email password d)
            (create_access_token d.user_id d.jti d.issued_at minutes) db after response
            (subst
              (λ (x : Text).
                stored (record (registered email password d) { hashed_password = x })
                  (create_access_token d.user_id d.jti d.issued_at minutes) db
                ≡ ok (response, after))
              (sym (ok_injective done)) h1)

  found_by_id :
      (u : User) (db : Database)
      → any (clash_user u) db.users ≡ false
      → user_by_id u.id (record db { users = db.users ++ u ∷ [] }) ≡ some u
  unfolding user_by_id
  found_by_id u db fresh =
      m.find_one_first _ _ ∙ first_new _ db.users u (clash_user_id u db.users fresh) (==_refl u.id)

  abbrev issued_claims : ObjectId → Text → Time → ℕ → Claims
  issued_claims i jti issued_at minutes = record {
    sub = k.object_id_text i;
    jti = jti;
    typ = some token_type_access;
    iat = issued_at / 1000;
    exp = (issued_at + minutes * 60000) / 1000;
  }

  abbrev bearer : Text → Option Credentials
  bearer token = some (record { scheme = codes "Bearer"; credentials = token })

  -- The token that a registration returns is accepted for the registered user from its time of issue
  -- until its second of expiry, unless its identifier is on the blacklist.
  pub get_current_user-register :
      (email password : Text) (d : RegisterDraw) (minutes : ℕ) (db after : Database)
      (response : TokenResponse) (now : Time)
      → register email password d minutes db ≡ ok (response, after)
      → is_token_revoked d.jti db ≡ false
      → d.issued_at / 1000 * 1000 ≤ now
      → now < (d.issued_at + minutes * 60000) / 1000 * 1000
      → get_current_user (bearer response.access_token) now after
        ≡ ok record {
          id = d.user_id;
          email = email;
          jti = d.jti;
          token_expires_at = (d.issued_at + minutes * 60000) / 1000 * 1000;
        }
  unfolding get_current_user create_access_token decode_access_token is_token_revoked same_text
  get_current_user-register email password d minutes db after response now h live early late =
      let (fresh, same, issued) = register_ok email password d minutes db after response h in
      let c = issued_claims d.user_id d.jti d.issued_at minutes in
      rw (same, issued)
        (rw
          (
            k.encode_some c,
            k.decode_encode c now early late,
            live,
            k.object_id_read,
            found_by_id (registered email password d) db fresh,
          )
          refl)
