-- ===== src/Startup/Readiness.antt =====
-- The readiness probe makes the check of the start again, in words of its own.
use ledgerlock.Connection.{
  or_not_connected, get_client, Client, set_name_or_raise, Hello, MongoConnection,
  verify_transaction_support,
}
use ledgerlock.Startup.{reply_response, primary_response, readiness}
use ledgerlock.Errors.{ok_injective, runtime_error, raise_if, ◌>>◌, ◌>>=◌, err, ok, Result}
use ledgerlock.Base.{
  subst, not, is_some, ◌↔◌, Bool, length, ◌≤◌, Option, ◌≡◌, arith, refl, false, true, some, none,
  ◌∷◌, [], Text,
}

-- The answer names a replica set and says that the node is its writable primary.
abbrev pub Primary : Result Hello → Text → Type 0
Primary reply name =
    (1 ≤ length name) × (reply ≡ ok record { set_name = some name; is_writable_primary = true })

pub Primary-verify :
    (reply : Result Hello) (name : Text)
    → verify_transaction_support reply ≡ ok name
    → Primary reply name
unfolding verify_transaction_support
Primary-verify (err e) name h = absurd (cc)
Primary-verify (ok hello) name h = of_fields hello.set_name hello.is_writable_primary refl refl h
  where
    of_fields :
        (o : Option Text) (b : Bool)
        → hello.set_name ≡ o
        → hello.is_writable_primary ≡ b
        → (set_name_or_raise o >>= (λ n. raise_if (not b) runtime_error >> ok n)) ≡ ok name
        → Primary (ok hello) name
    of_fields none b e f k = absurd (cc)
    of_fields (some []) b e f k = absurd (cc)
    of_fields (some (c ∷ n)) false e f k = absurd (cc)
    of_fields (some (c ∷ n)) true e f k =
        let same = ok_injective k in (subst (λ x. 1 ≤ length x) same (omega arith), cc)

ready_primary :
    (o : Option Text) (b : Bool)
    → (primary_response o b).status_code ≡ 200
    → (name : Text) × (1 ≤ length name) × (o ≡ some name) × (b ≡ true)
unfolding primary_response
ready_primary none b h = absurd (omega arith)
ready_primary (some []) b h = absurd (omega arith)
ready_primary (some (c ∷ n)) false h = absurd (omega arith)
ready_primary (some (c ∷ n)) true h = (c ∷ n, omega arith, refl, refl)

set_name_filled : (name : Text) → 1 ≤ length name → set_name_or_raise (some name) ≡ ok name
set_name_filled [] h = absurd (omega arith)
set_name_filled (c ∷ name) h = refl

ready_filled :
    (name : Text) → 1 ≤ length name → (primary_response (some name) true).status_code ≡ 200
unfolding primary_response
ready_filled [] h = absurd (omega arith)
ready_filled (c ∷ name) h = refl

verify-Primary :
    (reply : Result Hello) (name : Text)
    → Primary reply name
    → verify_transaction_support reply ≡ ok name
unfolding verify_transaction_support
verify-Primary reply name (filled, e) = rw (e, set_name_filled name filled)

-- What the probe is to mean.
abbrev pub CanServe : Option Client → Result Hello → Type 0
CanServe o reply =
    (is_some o ≡ true)
    × ((name : Text) × (verify_transaction_support reply ≡ ok name) × Primary reply name)

Primary-of_fields :
    (hello : Hello) (name : Text)
    → 1 ≤ length name
    → hello.set_name ≡ some name
    → hello.is_writable_primary ≡ true
    → Primary (ok hello) name
Primary-of_fields hello name filled e f = (filled, cc)

ready_serves :
    (o : Option Client) (reply : Result Hello)
    → (reply_response (or_not_connected o >>= λ client. reply)).status_code ≡ 200
    → CanServe o reply
ready_serves none reply h = absurd (omega arith)
ready_serves (some c) (err e) h = absurd (omega arith)
ready_serves (some c) (ok hello) h =
    let (name, filled, e, f) = ready_primary hello.set_name hello.is_writable_primary h in
    let primary = Primary-of_fields hello name filled e f in
    (refl, (name, verify-Primary (ok hello) name primary, primary))

serves_ready :
    (o : Option Client) (reply : Result Hello)
    → CanServe o reply
    → (reply_response (or_not_connected o >>= λ client. reply)).status_code ≡ 200
serves_ready none reply (h, _) = absurd (cc)
serves_ready (some c) reply (_, (name, _, (filled, e))) = rw e (ready_filled name filled)

-- The probe answers 200 exactly if the process holds a client and the check of the start would pass
-- on the server's answer; then the answer names a replica set and a writable primary.
pub readiness-verify_transaction_support :
    (connection : MongoConnection) (reply : Result Hello)
    → ((readiness connection reply).status_code ≡ 200) ↔ CanServe connection.client reply
unfolding readiness get_client
readiness-verify_transaction_support connection reply =
    (ready_serves connection.client reply, serves_ready connection.client reply)
