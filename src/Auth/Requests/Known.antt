-- ===== src/Auth/Requests/Known.antt =====
-- An address that is known in one spelling is known in all.
use ledgerlock.Auth.{RegisterDraw, register}
use ledgerlock.Database.{insert_user, Database, perform, clash_user}
use ledgerlock.Security.{utf8_length, hash_password, Crypto}
use ledgerlock.Mongo.{insert_checked, Mongo}
use ledgerlock.Characters.{is_ascii, lower_char, Unicode, is_space, strip_left, strip, strip_right}
use ledgerlock.Models.{User}
use ledgerlock.Errors.{
  duplicate_key, email_already_registered_error, ok_injective, rejected, validation_error,
  on_passed, err, ok,
}
use ledgerlock.Auth.Requests.{
  bcrypt_max_password_bytes, minimum_password_length, is_password, register_request,
  normalise_email, UserRequest,
}
use ledgerlock.Base.{
  ltb, length, subst, leb, not, sym, ◌&&◌, ◌∙◌, ap, Bool-cases, same_text, List, ◌≡◌, Bool, Option,
  ℕ, map, is_empty, any, all, inr, inl, arith, refl, false, true, some, ◌∷◌, [], Text,
}

space_lower : (c : ℕ) → is_space (lower_char c) ≡ is_space c
unfolding is_space
space_lower c = elim (Bool-cases (leb b'A' c && leb c b'Z')) [
  | inl y ↦ rw y (ground arith)
  | inr n ↦ rw n
]

empty_lower : (t : Text) → is_empty (map lower_char t) ≡ is_empty t
empty_lower [] = refl
empty_lower (c ∷ t) = refl

strip_left-map : (t : Text) → strip_left (map lower_char t) ≡ map lower_char (strip_left t)
unfolding strip_left
strip_left-map [] = refl
strip_left-map (c ∷ t) = elim (Bool-cases (is_space c)) [
  | inl y ↦ rw (space_lower c, y) (strip_left-map t)
  | inr n ↦ rw (space_lower c, n)
]

strip_right-map : (t : Text) → strip_right (map lower_char t) ≡ map lower_char (strip_right t)
unfolding strip_right
strip_right-map [] = refl
strip_right-map (c ∷ t) =
    rw (strip_right-map t, empty_lower (strip_right t), space_lower c)
      (elim (Bool-cases (is_empty (strip_right t) && is_space c)) [ inl y ↦ rw y | inr n ↦ rw n ])

strip-map : (t : Text) → strip (map lower_char t) ≡ map lower_char (strip t)
unfolding strip
strip-map t = ap strip_right (strip_left-map t) ∙ strip_right-map (strip_left t)

all-strip_left : (p : ℕ → Bool) (t : Text) → all p t ≡ true → all p (strip_left t) ≡ true
unfolding all strip_left
all-strip_left p [] h = refl
all-strip_left p (c ∷ t) h = ground (arith, all-strip_left p t)

all-strip_right : (p : ℕ → Bool) (t : Text) → all p t ≡ true → all p (strip_right t) ≡ true
unfolding all strip_right
all-strip_right p [] h = refl
all-strip_right p (c ∷ t) h = ground (arith, all-strip_right p t)

all-strip : (p : ℕ → Bool) (t : Text) → all p t ≡ true → all p (strip t) ≡ true
unfolding strip
all-strip p t h = all-strip_right p (strip_left t) (all-strip_left p t h)

normalised :
    (unicode : Unicode) (t : Text)
    → all is_ascii t ≡ true
    → normalise_email unicode t ≡ strip (map lower_char t)
unfolding normalise_email
normalised unicode t h = unicode.lower_ascii (strip t) (all-strip is_ascii t h) ∙ sym (strip-map t)

register_request_ok :
    (unicode : Unicode) (validate_email : Text → Option Text) (email password address : Text)
    (r : UserRequest)
    → register_request unicode validate_email email password ≡ ok r
    → validate_email email ≡ some address
    → (r.email ≡ normalise_email unicode address) × (is_password r.password ≡ true)
unfolding register_request
register_request_ok unicode validate_email email password address r h valid =
    on_passed (not (is_password password)) validation_error _ (rw valid at h) λ fits done. (
      ap (λ (x : UserRequest). x.email) (sym (ok_injective done)),
      subst (λ (x : UserRequest). is_password x.password ≡ true) (ok_injective done) (ground arith),
    )

any_clash :
    (u : User) (l : List User)
    → any (λ (v : User). same_text u.email v.email) l ≡ true
    → any (clash_user u) l ≡ true
unfolding any clash_user
any_clash u [] h = h
any_clash u (v ∷ l) h = ground (arith, any_clash u l)

bytes_fit :
    (a b : Bool) (n : ℕ)
    → (a && b && leb n bcrypt_max_password_bytes) ≡ true
    → ltb bcrypt_max_password_bytes n ≡ false
bytes_fit a b n h = ground arith

module _ ⦃m : Mongo⦄ where
  insert_known :
      (u : User) (db : Database)
      → any (clash_user u) db.users ≡ true
      → perform (insert_user u) db ≡ err duplicate_key
  unfolding perform insert_checked
  insert_known u db h = rw (m.insert_one_checked (λ _. true) clash_user u db.users, h)

module _ ⦃m : Mongo⦄ ⦃k : Crypto⦄ where
  pub fits_hash :
      (password salt : Text)
      → is_password password ≡ true
      → hash_password password salt ≡ ok (k.hashpw password salt)
  unfolding hash_password is_password
  fits_hash password salt h =
      rw (bytes_fit (leb minimum_password_length (length password)) _ (utf8_length password) h)

  -- If an address is registered, a request that is let through with the address in other ASCII
  -- capitalisation is refused with EMAIL_ALREADY_REGISTERED; its password never fails the hash.
  pub register_request-register :
      (unicode : Unicode) (validate_email : Text → Option Text)
      (email password email' password' address address' : Text) (one two : UserRequest)
      (d : RegisterDraw) (minutes : ℕ) (db : Database)
      → register_request unicode validate_email email password ≡ ok one
      → register_request unicode validate_email email' password' ≡ ok two
      → validate_email email ≡ some address
      → validate_email email' ≡ some address'
      → all is_ascii address ≡ true
      → all is_ascii address' ≡ true
      → map lower_char address ≡ map lower_char address'
      → any (λ (u : User). same_text one.email u.email) db.users ≡ true
      → register two.email two.password d minutes db ≡ err (rejected email_already_registered_error)
  unfolding register
  register_request-register unicode validate_email email password email' password' address address'
        one two d minutes db h h' valid valid' ascii ascii' same known =
      let (is_one, _) =
        register_request_ok unicode validate_email email password address one h valid in
      let (is_two, fits) =
        register_request_ok unicode validate_email email' password' address' two h' valid' in
      let same_email : one.email ≡ two.email =
        is_one
        ∙ normalised unicode address ascii
        ∙ ap strip same
        ∙ sym (normalised unicode address' ascii')
        ∙ sym is_two in
      let u : User = record {
        id = d.user_id;
        email = two.email;
        hashed_password = k.hashpw two.password d.salt;
        created_at = d.created_at;
      } in
      let clash = any_clash u db.users (
        subst (λ (e : Text). any (λ (v : User). same_text e v.email) db.users ≡ true) same_email
          known) in
      rw (fits_hash two.password d.salt fits, insert_known u db clash)
