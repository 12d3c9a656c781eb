-- ===== src/Routes/Owned.antt =====
-- Who can spend from an account and who sees a transaction.
use ledgerlock.Mongo.Pages.{page_any, any-keep_parts}
use ledgerlock.Ledger.Applied.{apply_transfer_ok}
use ledgerlock.Ledger.Retry.{create_transfer_ok}
use ledgerlock.Ledger.{open_session, Session, LedgerWriteResult}
use ledgerlock.Security.{AuthenticatedUser}
use ledgerlock.Database.{account_by_id, Database}
use ledgerlock.Accounts.{
  max_page_size, list_accounts_for_owner, or_account_not_found, get_account, get_account_or_raise,
}
use ledgerlock.Routes.{
  takes_part, or_no_transaction, is_amount_request, require_idempotency_key, is_owner,
  TransferCreateRequest, create_transaction, read_transaction,
}
use ledgerlock.Ledger.Create.{Run, get_transaction, Transactions}
use ledgerlock.Mongo.{Mongo}
use ledgerlock.Models.{max_amount_minor, is_amount_minor, Account, Transaction, ObjectId}
use ledgerlock.Base.{
  ◌&&◌, leb_ℤ_true, pos, ℤ, ◌≤ℤ◌, sym, subst, ◌∙◌, ap, any, not, ◌||◌, ◌==◌, List, ◌≡◌, Text, Bool,
  Option, arith, refl, false, true, some,
}
use ledgerlock.Errors.{
  on_passed, ok_injective, transaction_not_found_error, raise_if_passed, forbidden_error, rejected,
  validation_error, raise_if, on_ok, ok,
}

holds_of_not : (b : Bool) → not b ≡ false → b ≡ true
holds_of_not true h = refl
holds_of_not false h = absurd (cc)

amount_at_most :
    (amount_minor : ℤ) (currency description : Text)
    → is_amount_request amount_minor currency description ≡ true
    → amount_minor ≤ℤ pos max_amount_minor
unfolding is_amount_request is_amount_minor
amount_at_most amount_minor currency description h =
    leb_ℤ_true amount_minor (pos max_amount_minor) (ground arith)

pub transaction_found :
    (o : Option Transaction) (t : Transaction) → or_no_transaction o ≡ ok t → o ≡ some t
transaction_found o t h = ground arith

abbrev pub party : Transaction → Account → Bool
party t a = a.id == t.source_account_id || a.id == t.destination_account_id

found_ok : (o : Option Account) (a : Account) → or_account_not_found o ≡ ok a → o ≡ some a
found_ok o a h = ground arith

module _ ⦃m : Mongo⦄ where
  account_found_ok :
      (i : ObjectId) (db : Database) (a : Account)
      → get_account_or_raise i db ≡ ok a
      → account_by_id i db ≡ some a
  unfolding get_account_or_raise get_account
  account_found_ok i db a h = found_ok (account_by_id i db) a h

  -- A transaction that the route shows is the one asked for, and among the accounts that the caller owns
  -- in the database is one of its two.
  pub read_transaction_owned :
      (i : ObjectId) (caller : AuthenticatedUser) (seen seen_accounts : Database) (t : Transaction)
      → read_transaction i caller seen seen_accounts ≡ ok t
      → (get_transaction i seen ≡ some t)
        × (any
              (λ (a : Account).
                is_owner caller.id a
                && (a.id == t.source_account_id || a.id == t.destination_account_id))
              seen_accounts.accounts
            ≡ true)
  unfolding read_transaction list_accounts_for_owner
  read_transaction_owned i caller seen seen_accounts t h =
      let mine = m.find (is_owner caller.id) seen_accounts.accounts in
      let key = λ (a : Account). a.created_at in
      on_ok (or_no_transaction (get_transaction i seen)) _ h λ u found h1.
        on_passed (not (takes_part (m.find_page key max_page_size 0 mine) u))
          (rejected transaction_not_found_error) _ h1
          λ involved done.
            let same : u ≡ t = ok_injective done in
            (
              transaction_found _ u found ∙ ap some same,
              subst
                  (λ (x : Transaction).
                    any
                      (λ (a : Account).
                        is_owner caller.id a
                        && (a.id == x.source_account_id || a.id == x.destination_account_id))
                      seen_accounts.accounts
                    ≡ true)
                  same
                  (any-keep_parts (is_owner caller.id) (party u) seen_accounts.accounts (
                    ap (any (party u))
                      (sym (m.find_keep (is_owner caller.id) seen_accounts.accounts))
                    ∙ page_any key (party u) max_page_size 0 mine (holds_of_not _ involved))),
            )

module _ ⦃m : Mongo⦄ ⦃t : Transactions⦄ where
  -- A transfer that the route accepts debits an account of the caller: the account that it read as the
  -- source has the caller as its owner, the header names that account, the caller as the submitter,
  -- the stripped and valid key of the header, and an amount of at most 10 ^ 12 units.
  pub create_transaction_owned :
      (header_key : Option Text) (payload : TransferCreateRequest) (caller : AuthenticatedUser)
      (seen seen' : Database) (run : Run) (rest : List Run) (out : LedgerWriteResult × Session)
      → create_transaction header_key payload caller seen seen' run rest ≡ ok out
      → (a : Account) × (account_by_id payload.source_account_id seen ≡ some a)
        × (is_owner caller.id a ≡ true)
        × (out.0.transaction_document.source_account_id ≡ payload.source_account_id)
        × (out.0.transaction_document.submitted_by ≡ some caller.id)
        × (require_idempotency_key header_key ≡ ok out.0.transaction_document.idempotency_key)
        × (out.0.transaction_document.amount_minor ≤ℤ pos max_amount_minor)
  unfolding create_transaction
  create_transaction_owned header_key payload caller seen seen' run rest out h =
      on_ok (require_idempotency_key header_key) _ h λ key has_key h1.
        on_ok
          (raise_if
            (not (is_amount_request payload.amount_minor payload.currency payload.description))
            validation_error)
          _ h1
          λ _ asked h2.
            on_ok (get_account_or_raise payload.source_account_id seen) _ h2 λ a found h3.
              on_ok (raise_if (not (is_owner caller.id a)) (rejected forbidden_error)) _ h3
                λ _ owned h4.
                  on_ok (get_account_or_raise payload.destination_account_id seen') _ h4 λ b _ h5.
                    let c = create_transfer_ok _ run rest out h5 in
                    let result =
                      (apply_transfer_ok _ _ c.committed.draw (open_session c.committed.snapshot)
                        out c.applied).result in
                    (
                      a,
                      account_found_ok payload.source_account_id seen a found,
                      holds_of_not _ (raise_if_passed _ _ owned),
                      ap (λ (x : LedgerWriteResult). x.transaction_document.source_account_id)
                          result,
                      ap (λ (x : LedgerWriteResult). x.transaction_document.submitted_by) result,
                      has_key
                          ∙ ap
                              (λ (x : LedgerWriteResult). ok x.transaction_document.idempotency_key)
                              (sym result),
                      subst
                          (λ (x : LedgerWriteResult).
                            x.transaction_document.amount_minor ≤ℤ pos max_amount_minor)
                          (sym result)
                          (amount_at_most payload.amount_minor payload.currency payload.description
                            (holds_of_not _ (raise_if_passed _ _ asked))),
                    )
