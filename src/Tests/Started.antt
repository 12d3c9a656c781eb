-- ===== src/Tests/Started.antt =====
-- A start on a server without any collection.
use ledgerlock.Tests.Service.{settings}
use ledgerlock.Accounts.{ensure_system_accounts}
use ledgerlock.Mongo.{insert_checked}
use ledgerlock.Startup.Readiness.{readiness-verify_transaction_support, CanServe}
use ledgerlock.Database.{perform, empty_database}
use ledgerlock.Tests.Setup.{server, usd, provisioned}
use ledgerlock.Accounts.Provisioned.{IsCooperative}
use ledgerlock.Schema.Ready.{IsCurrent, initialise_database-IsInitialised, IsInitialised}
use ledgerlock.Schema.{
  collection_validator, ensure_each_collection, ensure_collections_and_validators, create_indexes,
  ensure_indexes, required_indexes, Validator, users, revoked_tokens, accounts, transactions,
  ledger_entries, all_collections, replace_text, lookup_text, initialise_database, Catalog, Admin,
}
use ledgerlock.Startup.Started.{start-is_currency_code, start-IsStarted, IsStarted}
use ledgerlock.Startup.{World, readiness, Circumstances, start}
use ledgerlock.Connection.{
  verify_transaction_support, connect_to_mongo, disconnected, Hello, MongoConnection, Client,
}
use ledgerlock.Models.{is_currency_code}
use ledgerlock.Errors.{ok_injective, ok}
use ledgerlock.Base.{
  first, sym, ◌↔◌, All, ◌++◌, is_some, ◌≡◌, same_text, any, if◌then◌else◌, codes, inr, refl, true,
  some, none, ◌∷◌, [], Text,
}

-- A server with none of the indexes.
abbrev admin : Admin
admin = record {
  create_collection = λ name v cat.
      if is_some (lookup_text name cat.collections)
      then none
      else some (record cat { collections = cat.collections ++ (name, v) ∷ [] });
  coll_mod = λ name v cat. record cat { collections = replace_text name (some v) cat.collections };
  create_index = λ i cat. ok (record cat { indexes = cat.indexes ++ i ∷ [] });
  create_collection_new = λ name v cat. refl;
  coll_mod_replaces = λ name v cat. refl;
  create_index_adds = λ i cat cat' h. inr (sym (ok_injective h));
}

abbrev no_catalog : Catalog
no_catalog = record { collections = []; indexes = [] }

abbrev full_catalog : Catalog
full_catalog = record {
  collections =
      (users, none)
      ∷ (revoked_tokens, none)
      ∷ (accounts, none)
      ∷ (transactions, some Validator.of_transactions)
      ∷ (ledger_entries, some Validator.of_ledger_entries)
      ∷ [];
  indexes = required_indexes;
}

initialisation_runs : initialise_database admin no_catalog no_catalog ≡ ok full_catalog
unfolding initialise_database ensure_indexes create_indexes ensure_collections_and_validators
    ensure_each_collection any lookup_text same_text collection_validator
initialisation_runs = refl

nothing-IsCurrent : All (λ n. IsCurrent [] n (lookup_text n no_catalog.collections)) all_collections
unfolding any lookup_text
nothing-IsCurrent = (
  (λ h. cc, λ h k. absurd (cc)),
  (
    (λ h. cc, λ h k. absurd (cc)),
    (
      (λ h. cc, λ h k. absurd (cc)),
      ((λ h. cc, λ h k. absurd (cc)), ((λ h. cc, λ h k. absurd (cc)), tt)),
    ),
  ),
)

initialise_database-IsInitialised_example : IsInitialised full_catalog
initialise_database-IsInitialised_example =
    initialise_database-IsInitialised admin no_catalog no_catalog full_catalog nothing-IsCurrent
      initialisation_runs

abbrev hello : Hello
hello = record { set_name = some (codes "rs0"); is_writable_primary = true }

abbrev met : Circumstances
met = record {
  reply = ok hello;
  seen = no_catalog;
  drawn = λ c. record { account_id = 1; created_at = 100; updated_at = 100 };
  others = λ c db. db;
}

abbrev before : World
before = record { connection = disconnected; catalog = no_catalog; database = empty_database }

abbrev client : Client
client = record { uri = settings.mongodb_uri }

abbrev connected : MongoConnection
connected = record {
  client = some client;
  database = some (record { client = client; name = settings.mongodb_db_name });
  replica_set_name = some (codes "rs0");
}

abbrev after : World
after = record { connection = connected; catalog = full_catalog; database = provisioned }

start_runs : start admin settings met before ≡ ok (after, (usd, 1) ∷ [])
unfolding start server connect_to_mongo verify_transaction_support initialise_database
    ensure_indexes create_indexes ensure_system_accounts first is_currency_code perform
    insert_checked any ensure_collections_and_validators ensure_each_collection lookup_text
    same_text collection_validator
start_runs = refl

cooperative : (c : Text) → IsCooperative (met.others c)
cooperative c = record { keeps = λ d db h. h; codes = λ db h. h }

start-IsStarted_example : IsStarted settings met.reply after
start-IsStarted_example =
    start-IsStarted admin settings met before after ((usd, 1) ∷ []) nothing-IsCurrent cooperative
      start_runs

start-is_currency_code_example : (is_currency_code usd ≡ true) × Unit {0}
start-is_currency_code_example =
    start-is_currency_code admin settings met before after ((usd, 1) ∷ []) tt cooperative start_runs

readiness-verify_transaction_support_example :
    ((readiness connected (ok hello)).status_code ≡ 200) ↔ CanServe (some client) (ok hello)
readiness-verify_transaction_support_example =
    readiness-verify_transaction_support connected (ok hello)
