-- ===== src/App/Reads.antt =====
-- What the bodies of the handlers raise: of a reachable ledger, the reads raise only rejections, since
-- every response model accepts what it is built of.
use ledgerlock.Routes.Pages.{list_page}
use ledgerlock.Routes.Owned.{transaction_found}
use ledgerlock.Mongo.Pages.{page_All}
use ledgerlock.Routes.Pages.{AccountListResponse}
use ledgerlock.Accounts.{
  bson_limit, max_page_size, get_owned_account_or_raise, or_account_not_found, bounded_limit,
  list_accounts_for_owner,
}
use ledgerlock.Routes.{takes_part, or_no_transaction}
use ledgerlock.App.Expected.{only_guard, only, only_bind, is_rejection}
use ledgerlock.Routes
use ledgerlock.Responses.Built.{passed, account_public_built, each_built, to_response_built}
use ledgerlock.Responses.{each, AccountPublic, account_public, is_balance_response}
use ledgerlock.System.Typed.{Typed}
use ledgerlock.Mongo.{Mongo}
use ledgerlock.Security.{Crypto, AuthenticatedUser}
use ledgerlock.Ledger.Create.{get_transaction, Transactions}
use ledgerlock.Database.{transaction_by_id, Database}
use ledgerlock.Models.{Account, Transaction, LedgerEntry, ObjectId, is_currency_code, Time}
use ledgerlock.Balance.{credited, debited, compute_balance, balance_row, on_account}
use ledgerlock.Balance.Laws.{compute_balance-eq-row}
use ledgerlock.Errors.{
  raise_if, ◌>>◌, transaction_not_found_error, rejected, Exc, on_ok, on_passed, ok_injective, ok,
}
use ledgerlock.Base.{
  length, false, not, leb, pos_part, All-map_pred, int_laws, Bool, true, Option, some, none, ◌≡◌,
  ◌≤ℤ◌, refl, sym, ap, ◌∙◌, subst, List, [], ◌∷◌, Text, ℤ, ℕ, pos, arith, All, All-keep, All-first,
  sum_by, keep,
}

sum_by_nonneg :
    (f : LedgerEntry → ℤ) (l : List LedgerEntry) → All (λ e. pos 0 ≤ℤ f e) l → pos 0 ≤ℤ sum_by f l
unfolding sum_by
sum_by_nonneg f [] h = omega arith
sum_by_nonneg f (e ∷ l) h = omega (int_laws, h.0, sum_by_nonneg f l h.1)

nonneg_parts :
    (l : List LedgerEntry)
    → All (λ (e : LedgerEntry). pos 1 ≤ℤ e.amount_minor) l
    → All (λ e. pos 0 ≤ℤ credited e) l × All (λ e. pos 0 ≤ℤ debited e) l
nonneg_parts [] h = (tt, tt)
nonneg_parts (e ∷ l) h = let (c, d) = nonneg_parts l h.1 in ((ground arith, c), (ground arith, d))

module _ ⦃m : Mongo⦄ where
  -- The totals of an account are not negative, and its currency is a code.
  balance_accepted :
      (db : Database) (i : ObjectId) (currency : Text)
      → Typed db
      → is_currency_code currency ≡ true
      → is_balance_response currency (compute_balance i db.ledger_entries) ≡ true
  unfolding is_balance_response balance_row
  balance_accepted db i currency typed code =
      let mine = keep (on_account i) db.ledger_entries in
      let (c, d) = nonneg_parts mine (All-keep _ (on_account i) db.ledger_entries typed.entries) in
      rw (compute_balance-eq-row i db.ledger_entries, code)
        (ground (arith, sum_by_nonneg credited mine c, sum_by_nonneg debited mine d))

  pub found_All :
      {A : Type 0} (P : A → Type 0) (p : A → Bool) (l : List A) (a : A)
      → m.find_one p l ≡ some a
      → All P l
      → P a
  found_All P p l a found h =
      All-first P p l (sym (m.find_one_first p l) ∙ found) (All-keep P p l h)

  page_codes :
      (owner : ObjectId) (limit offset : ℕ) (db : Database) (page : List Account)
      → Typed db
      → list_accounts_for_owner owner limit offset db ≡ ok page
      → All (λ (a : Account). is_currency_code a.currency ≡ true) page
  unfolding list_accounts_for_owner
  page_codes owner limit offset db page typed h =
      on_passed (leb bson_limit offset) Exc.overflow_error _ h λ _ done.
        subst (All (λ (a : Account). is_currency_code a.currency ≡ true)) (ok_injective done) (
          page_All (λ (a : Account). a.created_at) (λ (a : Account). is_currency_code a.currency)
            (bounded_limit limit) offset _
            (subst (All (λ (a : Account). is_currency_code a.currency ≡ true))
              (sym (m.find_keep _ db.accounts)) (All-keep _ _ db.accounts typed.accounts)))

  transaction-only : (o : Option Transaction) → only is_rejection (or_no_transaction o) ≡ true
  transaction-only none = refl
  transaction-only (some t) = refl

  -- Only an offset that MongoDB cannot read fails.
  page_listed :
      (owner : ObjectId) (limit offset : ℕ) (db : Database)
      → leb bson_limit offset ≡ false
      → (page : List Account) × (list_accounts_for_owner owner limit offset db ≡ ok page)
  unfolding list_accounts_for_owner
  page_listed owner limit offset db fits = passed (leb bson_limit offset) Exc.overflow_error _ fits

  listed-only :
      (owner : ObjectId) (limit : ℕ) (db : Database)
      → only is_rejection (list_accounts_for_owner owner limit 0 db) ≡ true
  unfolding list_accounts_for_owner
  listed-only owner limit db = refl

  shown-only :
      (owned : List Account) (x : Transaction)
      → only is_rejection
          (do raise_if (not (takes_part owned x)) (rejected transaction_not_found_error); ok x)
        ≡ true
  shown-only owned x = only_guard is_rejection (not (takes_part owned x)) _ (ok x) refl refl

pub account_some : (o : Option Account) (a : Account) → or_account_not_found o ≡ ok a → o ≡ some a
account_some none a h = absurd (cc)
account_some (some b) a h = ap some (ok_injective h)

account-only : (o : Option Account) → only is_rejection (or_account_not_found o) ≡ true
account-only none = refl
account-only (some a) = refl

module _ ⦃m : Mongo⦄ where
  owned_code :
      (i owner : ObjectId) (db : Database) (a : Account)
      → Typed db
      → get_owned_account_or_raise i owner db ≡ ok a
      → is_currency_code a.currency ≡ true
  unfolding get_owned_account_or_raise
  owned_code i owner db a typed h =
      found_All (λ (x : Account). is_currency_code x.currency ≡ true) _ db.accounts a
        (account_some _ a h) typed.accounts

  owned-only :
      (i owner : ObjectId) (db : Database)
      → only is_rejection (get_owned_account_or_raise i owner db) ≡ true
  unfolding get_owned_account_or_raise
  owned-only i owner db = account-only _

module _ ⦃m : Mongo⦄ ⦃t : Transactions⦄ ⦃k : Crypto⦄ where
  pub read_account-only :
      (i : ObjectId) (caller : AuthenticatedUser) (db : Database)
      → Typed db
      → only is_rejection (Routes.read_account i caller db) ≡ true
  unfolding Routes.read_account
  read_account-only i caller db typed =
      only_bind is_rejection _ _ (owned-only i caller.id db) λ a found.
        let (_, built) = account_public_built a (owned_code i caller.id db a typed found) in
        rw built refl

  pub read_balance-only :
      (i : ObjectId) (caller : AuthenticatedUser) (db later : Database) (now : Time)
      → Typed db
      → Typed later
      → only is_rejection (Routes.read_balance i caller db later now) ≡ true
  unfolding Routes.read_balance
  read_balance-only i caller db later now typed typed' =
      only_bind is_rejection _ _ (owned-only i caller.id db) λ a found.
        let (_, built) =
          to_response_built (compute_balance a.id later.ledger_entries) a.id a.currency now (
            balance_accepted later a.id a.currency typed'
              (owned_code i caller.id db a typed found)) in
        rw built refl

  pub transaction_code :
      (i : ObjectId) (caller : AuthenticatedUser) (db later : Database) (x : Transaction)
      → Typed db
      → Routes.read_transaction i caller db later ≡ ok x
      → is_currency_code x.currency ≡ true
  unfolding Routes.read_transaction get_transaction transaction_by_id
  transaction_code i caller db later x typed h =
      on_ok (or_no_transaction (get_transaction i db)) _ h λ y found h1.
        on_ok (list_accounts_for_owner caller.id max_page_size 0 later) _ h1 λ owned _ h2.
          on_passed (not (takes_part owned y)) (rejected transaction_not_found_error) _ h2 λ _ done.
            found_All (λ (z : Transaction). is_currency_code z.currency ≡ true) _ db.transactions x
              (transaction_found _ y found ∙ ap some (ok_injective done)) typed.transactions

  pub read_transaction-only :
      (i : ObjectId) (caller : AuthenticatedUser) (db later : Database)
      → only is_rejection (Routes.read_transaction i caller db later) ≡ true
  unfolding Routes.read_transaction
  read_transaction-only i caller db later =
      only_bind is_rejection _ _ (transaction-only (get_transaction i db)) λ y _.
        only_bind is_rejection (list_accounts_for_owner caller.id max_page_size 0 later) _
          (listed-only caller.id max_page_size later) λ owned _. shown-only owned y

  pub list_page-built :
      (limit offset : ℤ) (caller : AuthenticatedUser) (db : Database)
      → Typed db
      → leb bson_limit (pos_part offset) ≡ false
      → (page : AccountListResponse) × (bs : List AccountPublic) × (list_page limit offset caller db
          ≡ ok page)
        × (each account_public page.accounts ≡ ok bs)
  unfolding list_page
  list_page-built limit offset caller db typed fits =
      let (documents, listed) = page_listed caller.id (pos_part limit) (pos_part offset) db fits in
      let (bs, built) = each_built account_public documents (
        All-map_pred _ _ account_public_built documents
          (page_codes caller.id (pos_part limit) (pos_part offset) db documents typed listed)) in
      (
        record {
          accounts = documents;
          page = record { limit = limit; offset = offset; returned = length documents };
        },
        bs,
        rw listed refl,
        built,
      )
