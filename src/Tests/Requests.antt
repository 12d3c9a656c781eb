-- ===== src/Tests/Requests.antt =====
-- One address, twice registered.
use ledgerlock.Tests.Crypto.{clear}
use ledgerlock.Tests.Service.{latin}
use ledgerlock.Security.{utf8_length}
use ledgerlock.Auth.Requests.Known.{register_request-register}
use ledgerlock.Auth.{register, RegisterDraw}
use ledgerlock.Auth.Requests.{normalise_email, is_password, register_request, UserRequest}
use ledgerlock.Database.{Database, empty_database}
use ledgerlock.Tests.Setup.{server}
use ledgerlock.Characters.{strip, is_ascii}
use ledgerlock.Models.{User}
use ledgerlock.Errors.{email_already_registered_error, rejected, err, ok}
use ledgerlock.Base.{Option, all, ◌≡◌, same_text, any, codes, refl, true, some, ◌∷◌, [], Text}

-- An address check that lets everything through.
abbrev as_written : Text → Option Text
as_written t = some t

abbrev ada : UserRequest
ada = record { email = codes "ada@example.com"; password = codes "correct-horse-battery" }

abbrev other_ada : UserRequest
other_ada = record { email = codes "ada@example.com"; password = codes "another-long-password" }

abbrev registered : Database
registered = record empty_database {
  users =
      record { id = 10; email = codes "ada@example.com"; hashed_password = []; created_at = 100 }
      ∷ [];
}

ada_request :
    register_request latin as_written (codes " ada@example.com") (codes "correct-horse-battery")
    ≡ ok ada
unfolding register_request is_password utf8_length normalise_email strip
ada_request = refl

other_ada_request :
    register_request latin as_written (codes " Ada@Example.COM") (codes "another-long-password")
    ≡ ok other_ada
unfolding register_request is_password utf8_length normalise_email strip
other_ada_request = refl

ada_known : any (λ (u : User). same_text ada.email u.email) registered.users ≡ true
unfolding any same_text
ada_known = refl

addresses_ascii :
    (all is_ascii (codes " ada@example.com") ≡ true)
    × (all is_ascii (codes " Ada@Example.COM") ≡ true)
unfolding all
addresses_ascii = (refl, refl)

abbrev again : RegisterDraw
again = record { salt = []; user_id = 11; created_at = 200; jti = codes "j2"; issued_at = 200 }

register_request-register_example :
    register other_ada.email other_ada.password again 30 registered
    ≡ err (rejected email_already_registered_error)
register_request-register_example =
    register_request-register latin as_written (codes " ada@example.com")
      (codes "correct-horse-battery") (codes " Ada@Example.COM") (codes "another-long-password")
      (codes " ada@example.com") (codes " Ada@Example.COM") ada other_ada again 30 registered
      ada_request other_ada_request refl refl addresses_ascii.0 addresses_ascii.1 refl ada_known
