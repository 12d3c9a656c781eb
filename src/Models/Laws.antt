-- ===== src/Models/Laws.antt =====
-- What the checks of the models in app/models let through.
use ledgerlock.Base.{ap, ◌∙◌, ◌≡◌, true, Text, ℤ, pos, ◌≤ℤ◌, arith, Bool-cases, inl, inr}
use ledgerlock.Errors.{on_ok, ok}
use ledgerlock.Models.{
  ObjectId, Time, Transaction, is_transaction_document, transaction_document, LedgerEntry,
  EntryDirection, signed, signed_amount_for, ledger_entry_document, create_entry, is_currency_code,
}

-- The entry that `create` builds when its checks pass.
abbrev pub entry_of :
    ObjectId → ObjectId → ObjectId → EntryDirection → ℤ → Text → Time → LedgerEntry
entry_of id transaction_id account_id direction amount_minor currency created_at = record {
  id = id;
  transaction_id = transaction_id;
  account_id = account_id;
  direction = direction;
  amount_minor = amount_minor;
  signed_amount_minor = signed direction amount_minor;
  currency = currency;
  created_at = created_at;
}

pub transaction_document_ok :
    (t u : Transaction)
    → transaction_document t ≡ ok u
    → (u ≡ t) × (is_transaction_document t ≡ true)
unfolding transaction_document
transaction_document_ok t u h = elim (Bool-cases (is_transaction_document t)) [
  | inl e ↦ ground arith
  | inr e ↦ ground arith
]

pub transaction_document_of :
    (t : Transaction) → is_transaction_document t ≡ true → transaction_document t ≡ ok t
unfolding transaction_document
transaction_document_of t h = ground arith

pub signed_amount_for_ok :
    (direction : EntryDirection) (a s : ℤ)
    → signed_amount_for direction a ≡ ok s
    → (pos 1 ≤ℤ a) × (s ≡ signed direction a)
unfolding signed_amount_for
signed_amount_for_ok direction a s h = ground arith

ledger_entry_document_ok : (e f : LedgerEntry) → ledger_entry_document e ≡ ok f → f ≡ e
unfolding ledger_entry_document
ledger_entry_document_ok e f h = ground arith

-- `create` gives the entry with its sign by the convention, and only for a positive amount.
pub create_entry_ok :
    (id transaction_id account_id : ObjectId) (direction : EntryDirection) (a : ℤ) (currency : Text)
    (at : Time) (e : LedgerEntry)
    → create_entry id transaction_id account_id direction a currency at ≡ ok e
    → (pos 1 ≤ℤ a) × (e ≡ entry_of id transaction_id account_id direction a currency at)
unfolding create_entry
create_entry_ok id transaction_id account_id direction a currency at e h =
    on_ok (signed_amount_for direction a) _ h λ s p q.
      let (positive, sign) = signed_amount_for_ok direction a s p in
      (
        positive,
        ledger_entry_document_ok _ e q
            ∙ ap
                (λ (x : ℤ). record (entry_of id transaction_id account_id direction a currency at) {
                  signed_amount_minor = x;
                })
                sign,
      )

-- `create` succeeds on every positive amount in a well-formed currency, with the amount signed by
-- its direction.
pub create_entry_total :
    (id transaction_id account_id : ObjectId) (direction : EntryDirection) (a : ℤ) (currency : Text)
    (at : Time)
    → pos 1 ≤ℤ a
    → is_currency_code currency ≡ true
    → create_entry id transaction_id account_id direction a currency at
      ≡ ok (entry_of id transaction_id account_id direction a currency at)
unfolding create_entry
create_entry_total id transaction_id account_id EntryDirection.debit a currency at p c =
    ground arith
create_entry_total id transaction_id account_id EntryDirection.credit a currency at p c =
    ground arith
