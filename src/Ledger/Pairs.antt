-- ===== src/Ledger/Pairs.antt =====
-- The abstract view of the ledger: every transaction header with its debit and its credit, in the
-- order of the commits, under keys and ids that are used once.
use ledgerlock.Ledger.Guards.{credit_of, debit_of}
use ledgerlock.Database.{clash_transaction}
use ledgerlock.Ledger.{header, Draw, Transfer}
use ledgerlock.Models.{EntryDirection, LedgerEntry, Transaction}
use ledgerlock.Base.{neg, ◌++◌, ◌≤ℤ◌, any, ◌≡◌, List, pos, refl, false, ◌∷◌, []}

-- The two entries of a header.
pub record IsPair (t : Transaction) (d c : LedgerEntry) : Type 0 where
  pub debit_header : d.transaction_id ≡ t.id
  pub credit_header : c.transaction_id ≡ t.id
  pub debit_account : d.account_id ≡ t.source_account_id
  pub credit_account : c.account_id ≡ t.destination_account_id
  pub debit_direction : d.direction ≡ EntryDirection.debit
  pub credit_direction : c.direction ≡ EntryDirection.credit
  pub debit_amount : d.amount_minor ≡ t.amount_minor
  pub credit_amount : c.amount_minor ≡ t.amount_minor
  pub debit_signed : d.signed_amount_minor ≡ neg t.amount_minor
  pub credit_signed : c.signed_amount_minor ≡ t.amount_minor
  pub debit_currency : d.currency ≡ t.currency
  pub credit_currency : c.currency ≡ t.currency
  pub positive : pos 1 ≤ℤ t.amount_minor

pub data Paired : List Transaction → List LedgerEntry → Type 0 where
  nothing_written : Paired [] []
  pair :
      {ts : List Transaction} {es : List LedgerEntry}
      → Paired ts es
      → (t : Transaction) (d c : LedgerEntry) → IsPair t d c
      → any (clash_transaction t) ts ≡ false
      → Paired (ts ++ t ∷ []) (es ++ d ∷ c ∷ [])

-- The entries of a transfer are the pair of its header.
pub IsPair-transfer :
    (r : Transfer) (d : Draw)
    → pos 1 ≤ℤ r.amount_minor
    → IsPair (header r d) (debit_of r d) (credit_of r d)
IsPair-transfer r d p = record {
  debit_header = refl;
  credit_header = refl;
  debit_account = refl;
  credit_account = refl;
  debit_direction = refl;
  credit_direction = refl;
  debit_amount = refl;
  credit_amount = refl;
  debit_signed = refl;
  credit_signed = refl;
  debit_currency = refl;
  credit_currency = refl;
  positive = p;
}
