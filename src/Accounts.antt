-- ===== src/Accounts.antt =====
-- app/services/account_service.py: opening, finding and listing accounts, and the SYSTEM accounts.
-- Ids arrive converted: the routes' models have checked the 24 hexadecimal digits.
pub mod Laws
pub mod Provisioned
use ledgerlock.Database.{insert_account, perform, account_by_id, Database}
use ledgerlock.Errors.{
  raise_if, ◌>>◌, Exc, ◌>>=◌, validation_error, account_not_found_error, rejected, ok, err, Result,
}
use ledgerlock.Models.{
  system, user, AccountStatus, is_user, is_currency_code, Time, AccountType, ObjectId, Account,
}
use ledgerlock.Mongo.{Mongo}
use ledgerlock.Base.{
  pos, inr, inl, arith, refl, suc, zero, false, true, none, [], same_text, same_option, drop, leb,
  ◌&&◌, some, not, ◌==◌, if◌then◌else◌, take, ◌++◌, ◌∷◌, min, codes, Bool, Option, Text, List, max,
  ℕ,
}

abbrev pub max_page_size : ℕ
max_page_size = 200

abbrev pub default_page_size : ℕ
default_page_size = 50

-- What an insert of an account draws: its `_id`, and the clock for both timestamps.
pub record AccountDraw : Type 0 where
  pub account_id : ObjectId
  pub created_at : Time
  pub updated_at : Time

-- `AccountDocument(...)` with its own check of the currency.
unfoldable pub account_document :
    Option ObjectId → Text → Text → AccountType → AccountDraw → Result Account
account_document owner_id currency label account_type d =
    if is_currency_code currency
    then ok record {
      id = d.account_id;
      owner_id = owner_id;
      currency = currency;
      status = AccountStatus.active;
      account_type = account_type;
      label = label;
      created_at = d.created_at;
      updated_at = d.updated_at;
      debit_serialisation_counter = 0;
    }
    else err validation_error

-- SYSTEM_ACCOUNT_LABEL_TEMPLATE
abbrev pub system_account_label : Text → Text
system_account_label currency = codes "Ledger boundary (" ++ (currency ++ codes ")")

-- `{"account_type": SYSTEM, "currency": currency}`
abbrev pub is_system_for : Text → Account → Bool
is_system_for currency a = not (is_user a.account_type) && same_text currency a.currency

-- `max(1, min(limit, MAX_PAGE_SIZE))`, and `max(0, offset)` on a natural offset.
abbrev pub bounded_limit : ℕ → ℕ
bounded_limit limit = max 1 (min limit max_page_size)

-- What a signed 64-bit integer of BSON cannot hold.
abbrev pub bson_limit : ℕ
bson_limit = 9_223_372_036_854_775_808

abbrev pub or_account_not_found : Option Account → Result Account
or_account_not_found none = err (rejected account_not_found_error)
or_account_not_found (some a) = ok a

module _ ⦃m : Mongo⦄ where
  unfoldable pub create_account :
      ObjectId → Text → Text → AccountDraw → Database → Result (Account × Database)
  unfolding account_document
  create_account owner_id currency label d db = do
    account ← account_document (some owner_id) currency label AccountType.user d
    db' ← perform (insert_account account) db
    ok (account, db')

  unfoldable pub get_account : ObjectId → Database → Option Account
  get_account = account_by_id

  unfoldable pub get_account_or_raise : ObjectId → Database → Result Account
  unfolding get_account
  get_account_or_raise account_id db = or_account_not_found (get_account account_id db)

  -- The filter is on the id and the owner together.
  unfoldable pub get_owned_account_or_raise : ObjectId → ObjectId → Database → Result Account
  get_owned_account_or_raise account_id user_id db = or_account_not_found (
      m.find_one (λ (a : Account). a.id == account_id && same_option a.owner_id (some user_id))
        db.accounts)

  -- `skip` is encoded as a 64-bit integer; the limit is small.
  unfoldable pub list_accounts_for_owner : ObjectId → ℕ → ℕ → Database → Result (List Account)
  list_accounts_for_owner owner_id limit offset db = do
    raise_if (leb bson_limit offset) Exc.overflow_error
    ok (
        m.find_page (λ (a : Account). a.created_at) (bounded_limit limit) offset
          (m.find (λ (a : Account). same_option a.owner_id (some owner_id)) db.accounts))

  unfoldable pub get_system_account : Text → Database → Option Account
  get_system_account currency db = m.find_one (is_system_for currency) db.accounts

  -- After a lost race: the other worker's account, or the error again.
  abbrev pub adopt : Text → Database → Result (ObjectId × Database)
  adopt currency db = elim (get_system_account currency db) [
    | none ↦ err Exc.duplicate_key
    | some winner ↦ ok (winner.id, db)
  ]

  abbrev pub inserted_or_adopted :
      Text → ObjectId → Database → Result Database → Result (ObjectId × Database)
  inserted_or_adopted currency i db (ok db') = ok (i, db')
  inserted_or_adopted currency i db (err Exc.duplicate_key) = adopt currency db
  inserted_or_adopted currency i db (err e) = err e

  -- One round of the loop. `others` is what other workers do between the lookup and the insert.
  unfoldable pub ensure_system_account :
      Text → AccountDraw → (Database → Database) → Database → Result (ObjectId × Database)
  unfolding account_document get_system_account
  ensure_system_account currency d others db = elim (get_system_account currency db) [
    | some existing ↦ ok (existing.id, db)
    | none ↦ (do
      account ← account_document none currency (system_account_label currency) AccountType.system d
      inserted_or_adopted currency d.account_id (others db)
          (perform (insert_account account) (others db)))
  ]

  -- `ensure_system_accounts`: the ids in the order of the currencies.
  unfoldable pub ensure_system_accounts :
      List (Text × AccountDraw × (Database → Database))
      → Database
      → Result (List (Text × ObjectId) × Database)
  unfolding ensure_system_account
  ensure_system_accounts [] db = ok ([], db)
  ensure_system_accounts ((currency, d, others) ∷ rest) db = do
    one ← ensure_system_account currency d others db
    more ← ensure_system_accounts rest one.1
    ok ((currency, one.0) ∷ more.0, more.1)
