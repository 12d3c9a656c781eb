-- ===== src/Tests/Access.antt =====
-- Accounts, tokens and the blacklist at concrete inputs.
use ledgerlock.Tests.Sorting.{inserted, sorted}
use ledgerlock.Routes.Shown.{read_transaction_shown}
use ledgerlock.Accounts.{get_account_or_raise, list_accounts_for_owner}
use ledgerlock.Mongo.{insert_checked}
use ledgerlock.Routes.Owned.{read_transaction_owned, create_transaction_owned}
use ledgerlock.Auth.Logout.{Retained, logout_final, is_token_revoked-revoke_token}
use ledgerlock.Tests.Witnesses.{payment_out, payment_runs, settled}
use ledgerlock.Ledger.Guards.{result_of}
use ledgerlock.Auth.Login.{get_current_user-register, login_uniform, registered}
use ledgerlock.Ledger.{header, Session, LedgerWriteResult}
use ledgerlock.Ledger.Create.{callback, create_transfer, get_transaction}
use ledgerlock.Routes.{
  is_amount_request, require_idempotency_key, is_owner, TransferCreateRequest, read_transaction,
  create_transaction,
}
use ledgerlock.Auth.{token_response, register, logout, RegisterDraw, TokenResponse, login}
use ledgerlock.Security.{
  user_by_id, verify_password, hash_password, decode_access_token, create_access_token, Credentials,
  get_current_user, revoke_token, is_token_revoked, AuthenticatedUser,
}
use ledgerlock.Database.{perform, transaction_by_id, empty_database, account_by_id, Database}
use ledgerlock.Models.{is_currency_code, is_amount_minor, User, Account}
use ledgerlock.Errors.{
  token_expired_error, token_revoked_error, invalid_credentials_error, rejected, err, ok,
}
use ledgerlock.Base.{
  inr, ◌≤ℤ◌, ◌≤◌, ◌&&◌, length, keep, neg, any, update_first, first, ◌==◌, ◌⊎◌, same_text, ◌||◌,
  codes, ◌≡◌, Option, pos, arith, refl, false, true, some, ◌∷◌, [],
}
use ledgerlock.Tests.Setup.{
  payment_draw, deposit_draw, payment, deposit, funded, usd, server, driver,
}
use ledgerlock.Tests.Crypto.{clear}

abbrev draw : RegisterDraw
draw = record {
  salt = codes "s";
  user_id = 10;
  created_at = 50_000;
  jti = codes "j1";
  issued_at = 50_500;
}

abbrev ada : User
ada = registered (codes "a@b.cd") (codes "correct-horse") draw

abbrev joined : Database
joined = record empty_database { users = ada ∷ [] }

abbrev issued : TokenResponse
issued = token_response (create_access_token 10 (codes "j1") 50_500 30) ada

register_runs :
    register (codes "a@b.cd") (codes "correct-horse") draw 30 empty_database ≡ ok (issued, joined)
unfolding register hash_password perform server insert_checked any
register_runs = refl

nothing_revoked : is_token_revoked (codes "j1") empty_database ≡ false
unfolding is_token_revoked server first
nothing_revoked = refl

get_current_user-register_example :
    get_current_user
      (some (record { scheme = codes "Bearer"; credentials = issued.access_token }))
      70_000
      joined
    ≡ ok record { id = 10; email = codes "a@b.cd"; jti = codes "j1"; token_expires_at = 1_850_000 }
get_current_user-register_example =
    get_current_user-register (codes "a@b.cd") (codes "correct-horse") draw 30 empty_database joined
      issued 70_000 register_runs nothing_revoked (omega arith) (omega arith)

abbrev by_ada : Option Credentials
by_ada = some (record { scheme = codes "Bearer"; credentials = issued.access_token })

abbrev logged_out : Database
logged_out = record joined {
  revoked_tokens =
      record { jti = codes "j1"; user_id = 10; expires_at = 1_850_000; revoked_at = 70_001 } ∷ [];
}

logout_runs : logout by_ada 70_000 70_001 joined ≡ ok logged_out
unfolding logout get_current_user create_access_token clear same_text decode_access_token
    is_token_revoked server first user_by_id revoke_token any
logout_runs = refl

-- A database of a later time, from which nothing is removed.
all_kept : Retained 80_000 logged_out logged_out
unfolding any same_text
all_kept = (inr refl, tt)

logout_final_example :
    (get_current_user by_ada 80_000 logged_out ≡ err (rejected token_revoked_error))
    ⊎ (get_current_user by_ada 80_000 logged_out ≡ err (rejected token_expired_error))
logout_final_example =
    logout_final by_ada 70_000 70_001 80_000 joined logged_out logged_out logout_runs (omega arith)
      all_kept

is_token_revoked-revoke_token_example :
    (is_token_revoked (codes "j2") (revoke_token (codes "j1") 10 1_850_000 70_001 joined)
      ≡ (is_token_revoked (codes "j2") joined || same_text (codes "j2") (codes "j1")))
    × (revoke_token
          (codes "j1")
          10
          1_850_000
          70_002
          (revoke_token (codes "j1") 10 1_850_000 70_001 joined)
        ≡ revoke_token (codes "j1") 10 1_850_000 70_001 joined)
is_token_revoked-revoke_token_example =
    is_token_revoked-revoke_token (codes "j2") (codes "j1") 10 10 1_850_000 1_850_000 70_001 70_002
      joined

wrong_password :
    login (codes "a@b.cd") (codes "wrong-horse") (codes "j2") 60_000 30 joined
    ≡ err (rejected invalid_credentials_error)
unfolding login server first same_text verify_password clear
wrong_password = refl

login_uniform_example : rejected invalid_credentials_error ≡ rejected invalid_credentials_error
login_uniform_example =
    login_uniform (codes "a@b.cd") (codes "wrong-horse") (codes "j2") 60_000 30 joined
      (rejected invalid_credentials_error) wrong_password

abbrev caller : AuthenticatedUser
caller = record { id = 10; email = codes "a@b.cd"; jti = codes "j1"; token_expires_at = 1_850_000 }

read_runs : read_transaction 20 caller funded funded ≡ ok (header deposit deposit_draw)
unfolding read_transaction get_transaction transaction_by_id server first any
    list_accounts_for_owner keep sorted inserted
read_runs = refl

read_transaction_owned_example :
    (get_transaction 20 funded ≡ some (header deposit deposit_draw))
    × (any (λ (a : Account). is_owner 10 a && (a.id == 1 || a.id == 2)) funded.accounts ≡ true)
read_transaction_owned_example =
    read_transaction_owned 20 caller funded funded (header deposit deposit_draw) read_runs

abbrev payload : TransferCreateRequest
payload = record {
  source_account_id = 2;
  destination_account_id = 1;
  amount_minor = pos 200;
  currency = usd;
  description = codes "rent";
}

abbrev first_out : LedgerWriteResult × Session
first_out = (result_of 1 payment payment_draw, payment_out.1)

create_runs :
    create_transaction (some (codes " payment-1 ")) payload caller funded funded settled []
    ≡ ok first_out
unfolding create_transaction require_idempotency_key update_first neg is_amount_request
    is_amount_minor is_currency_code get_account_or_raise account_by_id server first create_transfer
    driver callback
create_runs = rw (payment_runs 1) refl

create_transaction_owned_example :
    (a : Account) × (account_by_id 2 funded ≡ some a)
    × (is_owner 10 a ≡ true)
    × (first_out.0.transaction_document.source_account_id ≡ 2)
    × (first_out.0.transaction_document.submitted_by ≡ some 10)
    × (require_idempotency_key (some (codes " payment-1 "))
        ≡ ok first_out.0.transaction_document.idempotency_key)
    × (first_out.0.transaction_document.amount_minor ≤ℤ pos 1_000_000_000_000)
create_transaction_owned_example =
    create_transaction_owned (some (codes " payment-1 ")) payload caller funded funded settled []
      first_out create_runs

few_accounts : length (server.find (is_owner 10) funded.accounts) ≤ 200
unfolding server keep
few_accounts = omega arith

deposit_read : get_transaction 20 funded ≡ some (header deposit deposit_draw)
unfolding get_transaction transaction_by_id server first
deposit_read = refl

destination_mine :
    any (λ (a : Account). is_owner 10 a && (a.id == 1 || a.id == 2)) funded.accounts ≡ true
unfolding any
destination_mine = refl

read_transaction_shown_example :
    read_transaction 20 caller funded funded ≡ ok (header deposit deposit_draw)
read_transaction_shown_example =
    read_transaction_shown 20 caller funded funded (header deposit deposit_draw) deposit_read
      few_accounts destination_mine
