-- ===== src/Schema.antt =====
-- app/core/db.py: the collections with their validators, and the indexes, that a start makes sure
-- of. The server's administration is an interface. What the validators check is in Database.antt.
use ledgerlock.Models.{system, user}
mod Lookup
mod Indexed
pub mod Ready
use ledgerlock.Errors.{runtime_error, Exc, ◌>>◌, ◌>>=◌, Result, ok, err}
use ledgerlock.Base.{
  ◌++◌, ◌⊎◌, same_text, any, ℕ, is_some, ◌≡◌, negsuc, if◌then◌else◌, Bool, ℤ, Option, List, map,
  codes, pos, inr, inl, arith, refl, suc, zero, false, true, some, none, ◌∷◌, [], Text,
}

abbrev pub users : Text
users = codes "users"

abbrev pub revoked_tokens : Text
revoked_tokens = codes "revoked_tokens"

abbrev pub accounts : Text
accounts = codes "accounts"

abbrev pub transactions : Text
transactions = codes "transactions"

abbrev pub ledger_entries : Text
ledger_entries = codes "ledger_entries"

abbrev pub all_collections : List Text
all_collections = users ∷ revoked_tokens ∷ accounts ∷ transactions ∷ ledger_entries ∷ []

pub data Validator : Type 0 where
  of_ledger_entries of_transactions : Validator

-- The arguments of `create_index`, with the collection that it is called on.
pub record Index : Type 0 where
  pub collection : Text
  pub keys : List (Text × ℤ)
  pub unique : Bool
  pub expire_after_seconds : Option ℕ
  pub partial_filter : Option (Text × Text)
  pub name : Text

pub record Catalog : Type 0 where
  pub collections : List (Text × Option Validator)
  pub indexes : List Index

module _ {A : Type 0} where
  unfoldable pub lookup_text : Text → List (Text × A) → Option A
  lookup_text name [] = none
  lookup_text name ((key, a) ∷ l) = if same_text name key then some a else lookup_text name l

  unfoldable pub replace_text : Text → A → List (Text × A) → List (Text × A)
  replace_text name a [] = []
  replace_text name a ((key, b) ∷ l) =
      if same_text name key then (key, a) ∷ l else (key, b) ∷ replace_text name a l

-- An element of a list.
abbrev pub In : {A : Type 0} → A → List A → Type 0
In a [] = ⊥
In a (b ∷ l) = (a ≡ b) ⊎ In a l

-- `create_collection` gives nothing where it raises CollectionInvalid: the name is taken. An index
-- that is there already is not created again.
pub record Admin : Type 0 where
  pub create_collection : Text → Option Validator → Catalog → Option Catalog
  pub coll_mod : Text → Validator → Catalog → Catalog
  pub create_index : Index → Catalog → Result Catalog
  pub create_collection_new :
      (name : Text) (v : Option Validator) (cat : Catalog)
      → create_collection name v cat ≡ (
          if is_some (lookup_text name cat.collections)
          then none
          else some (record cat { collections = cat.collections ++ (name, v) ∷ [] }))
  pub coll_mod_replaces :
      (name : Text) (v : Validator) (cat : Catalog)
      → coll_mod name v cat
        ≡ record cat { collections = replace_text name (some v) cat.collections }
  pub create_index_adds :
      (i : Index) (cat cat' : Catalog)
      → create_index i cat ≡ ok cat'
      → (In i cat.indexes × (cat' ≡ cat)) ⊎ (cat' ≡ record cat { indexes = cat.indexes ++ i ∷ [] })

-- `COLLECTION_VALIDATORS.get(name)`
unfoldable pub collection_validator : Text → Option Validator
collection_validator name =
    if same_text name ledger_entries
    then some Validator.of_ledger_entries
    else if same_text name transactions
    then some Validator.of_transactions
    else none

-- `create_index` takes one field, ascending, or pairs of a field and an order.
abbrev pub plain_index : Text → List (Text × ℤ) → Text → Index
plain_index collection keys name = record {
  collection = collection;
  keys = keys;
  unique = false;
  expire_after_seconds = none;
  partial_filter = none;
  name = name;
}

abbrev pub unique_index : Text → List (Text × ℤ) → Text → Index
unique_index collection keys name = record {
  collection = collection;
  keys = keys;
  unique = true;
  expire_after_seconds = none;
  partial_filter = none;
  name = name;
}

abbrev pub ascending : Text → Text × ℤ
ascending field = (field, pos 1)

abbrev pub descending : Text → Text × ℤ
descending field = (field, negsuc 0)

-- The indexes of `ensure_indexes`, in their order.
abbrev pub required_indexes : List Index
required_indexes =
    unique_index users (ascending (codes "email") ∷ []) (codes "uq_email")
    ∷ unique_index revoked_tokens (ascending (codes "jti") ∷ []) (codes "uq_jti")
    ∷ record {
      collection = revoked_tokens;
      keys = ascending (codes "expires_at") ∷ [];
      unique = false;
      expire_after_seconds = some 0;
      partial_filter = none;
      name = codes "ttl_expires_at";
    }
    ∷ plain_index accounts (ascending (codes "owner_id") ∷ []) (codes "ix_owner_id")
    ∷ record {
      collection = accounts;
      keys = ascending (codes "account_type") ∷ ascending (codes "currency") ∷ [];
      unique = true;
      expire_after_seconds = none;
      partial_filter = some (codes "account_type", codes "SYSTEM");
      name = codes "uq_system_account_per_currency";
    }
    ∷ unique_index transactions (ascending (codes "idempotency_key") ∷ [])
        (codes "uq_idempotency_key")
    ∷ plain_index transactions
        (ascending (codes "source_account_id") ∷ descending (codes "created_at") ∷ [])
        (codes "ix_source_created")
    ∷ plain_index transactions
        (ascending (codes "destination_account_id") ∷ descending (codes "created_at") ∷ [])
        (codes "ix_destination_created")
    ∷ plain_index ledger_entries
        (ascending (codes "account_id") ∷ descending (codes "created_at") ∷ [])
        (codes "ix_account_created")
    ∷ unique_index ledger_entries
        (ascending (codes "transaction_id") ∷ ascending (codes "direction") ∷ [])
        (codes "uq_one_entry_per_direction_per_transaction")
    ∷ []

abbrev pub modified : Option Validator → Admin → Text → Catalog → Catalog
modified none admin name cat = cat
modified (some v) admin name cat = admin.coll_mod name v cat

-- CollectionInvalid: another worker won the race.
abbrev pub or_unchanged : Option Catalog → Catalog → Catalog
or_unchanged none cat = cat
or_unchanged (some cat') cat = cat'

-- One round of the loop; `existing` are the names that were listed before it.
unfoldable pub ensure_collection : Admin → List Text → Text → Catalog → Catalog
ensure_collection admin existing name cat =
    if any (same_text name) existing
    then modified (collection_validator name) admin name cat
    else or_unchanged (admin.create_collection name (collection_validator name) cat) cat

unfoldable pub ensure_each_collection : Admin → List Text → List Text → Catalog → Catalog
unfolding ensure_collection
ensure_each_collection admin existing [] cat = cat
ensure_each_collection admin existing (name ∷ names) cat =
    ensure_each_collection admin existing names (ensure_collection admin existing name cat)

-- `list_collection_names` reads the catalog `seen`.
unfoldable pub ensure_collections_and_validators : Admin → Catalog → Catalog → Catalog
ensure_collections_and_validators admin seen cat =
    ensure_each_collection admin (map (λ c. c.0) seen.collections) all_collections cat

unfoldable pub create_indexes : Admin → List Index → Catalog → Result Catalog
create_indexes admin [] cat = ok cat
create_indexes admin (i ∷ rest) cat = do
  cat' ← admin.create_index i cat
  create_indexes admin rest cat'

unfoldable pub ensure_indexes : Admin → Catalog → Result Catalog
ensure_indexes admin cat = create_indexes admin required_indexes cat

-- An OperationFailure of `ensure_indexes` becomes a RuntimeError; a DuplicateKeyError is one.
abbrev pub as_runtime_error : Result Catalog → Result Catalog
as_runtime_error (err (Exc.operation_failure transient)) = err runtime_error
as_runtime_error (err Exc.duplicate_key) = err runtime_error
as_runtime_error r = r

unfoldable pub initialise_database : Admin → Catalog → Catalog → Result Catalog
initialise_database admin seen cat =
    as_runtime_error (ensure_indexes admin (ensure_collections_and_validators admin seen cat))
