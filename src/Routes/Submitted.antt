-- ===== src/Routes/Submitted.antt =====
-- What the bodies of the two writing handlers hand to `create_transfer`.
use ledgerlock.Routes.{
  submit_transfer, submit_funding, TransferCreateRequest, FundingCreateRequest, is_owner,
  or_unsupported,
}
use ledgerlock.Accounts.{get_account_or_raise, get_owned_account_or_raise, get_system_account}
use ledgerlock.Ledger.Create.{Run, Transactions, create_transfer}
use ledgerlock.Ledger.{Transfer, Session, LedgerWriteResult}
use ledgerlock.Security.{AuthenticatedUser}
use ledgerlock.Database.{Database}
use ledgerlock.Mongo.{Mongo}
use ledgerlock.Models.{ObjectId}
use ledgerlock.Errors.{ok, on_ok, on_passed, rejected, forbidden_error}
use ledgerlock.Base.{Text, ◌≡◌, List, not}

module _ ⦃m : Mongo⦄ ⦃t : Transactions⦄ where
  pub transfer_created :
      (key : Text) (payload : TransferCreateRequest) (caller : AuthenticatedUser)
      (seen later : Database) (run : Run) (rest : List Run) (out : LedgerWriteResult × Session)
      → submit_transfer key payload caller seen later run rest ≡ ok out
      → (r : Transfer) × (create_transfer r run rest ≡ ok out)
  unfolding submit_transfer
  transfer_created key payload caller seen later run rest out h =
      on_ok (get_account_or_raise payload.source_account_id seen) _ h λ a _ h1.
        on_passed (not (is_owner caller.id a)) (rejected forbidden_error) _ h1 λ _ h2.
          on_ok (get_account_or_raise payload.destination_account_id later) _ h2 λ b _ h3. (_, h3)

  pub funding_created :
      (i : ObjectId) (key : Text) (payload : FundingCreateRequest) (caller : AuthenticatedUser)
      (seen later : Database) (run : Run) (rest : List Run) (out : LedgerWriteResult × Session)
      → submit_funding i key payload caller seen later run rest ≡ ok out
      → (r : Transfer) × (create_transfer r run rest ≡ ok out)
  unfolding submit_funding
  funding_created i key payload caller seen later run rest out h =
      on_ok (get_owned_account_or_raise i caller.id seen) _ h λ a _ h1.
        on_ok (or_unsupported (get_system_account payload.currency later)) _ h1 λ b _ h2. (_, h2)
