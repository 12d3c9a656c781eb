-- ===== src/Startup/Started.antt =====
-- What a successful start establishes.
use ledgerlock.Accounts.{ensure_system_accounts, get_system_account}
use ledgerlock.Accounts.Provisioned.{ensure_system_accounts-Provisioned, IsCooperative, AllCodes}
use ledgerlock.Schema.Ready.{initialise_database-IsInitialised, IsCurrent, IsInitialised}
use ledgerlock.Connection.{
  verify_transaction_support, DatabaseHandle, MongoConnection, Hello, connect_to_mongo,
}
use ledgerlock.Schema.{initialise_database, all_collections, lookup_text, Admin}
use ledgerlock.Config.{Settings}
use ledgerlock.Mongo.{Mongo}
use ledgerlock.Models.{is_currency_code, ObjectId}
use ledgerlock.Errors.{ok_injective, on_ok, Result, ok}
use ledgerlock.Startup.{wanted_accounts, Circumstances, start, World}
use ledgerlock.Startup.Readiness.{Primary-verify, Primary}
use ledgerlock.Base.{sym, ap, subst, map, is_some, All, List, ◌≡◌, true, some, Text}

connect_to_mongo_ok :
    (uri name : Text) (reply : Result Hello) (before : MongoConnection)
    (connected : MongoConnection × DatabaseHandle)
    → connect_to_mongo uri name reply before ≡ ok connected
    → (set_name : Text) × (verify_transaction_support reply ≡ ok set_name)
      × (connected.0.replica_set_name ≡ some set_name)
unfolding connect_to_mongo
connect_to_mongo_ok uri name reply before connected h =
    on_ok (verify_transaction_support reply) _ h λ set_name e done. (
      set_name,
      e,
      ap (λ (x : MongoConnection × DatabaseHandle). x.0.replica_set_name) (sym (ok_injective done)),
    )

module _ ⦃m : Mongo⦄ where
  -- The process may serve: the server is a primary of a replica set, the schema is complete, and
  -- every currency has its SYSTEM account.
  pub record IsStarted (settings : Settings) (reply : Result Hello) (world : World) : Type 0 where
    pub set_name : Text
    pub primary : Primary reply set_name
    pub connected : world.connection.replica_set_name ≡ some set_name
    pub initialised : IsInitialised world.catalog
    pub provisioned :
        All
          (λ c. is_some (get_system_account c world.database) ≡ true)
          settings.supported_currencies

  -- If the other workers run the same program, a start that succeeds has met a writable primary of a
  -- replica set, and leaves the complete schema and a SYSTEM account for every configured currency.
  pub start-IsStarted :
      (admin : Admin) (settings : Settings) (met : Circumstances) (world world' : World)
      (ids : List (Text × ObjectId))
      → All
          (λ n.
            IsCurrent
              (map (λ c. c.0) met.seen.collections)
              n
              (lookup_text n world.catalog.collections))
          all_collections
      → ((c : Text) → IsCooperative (met.others c))
      → start admin settings met world ≡ ok (world', ids)
      → IsStarted settings met.reply world'
  unfolding start
  start-IsStarted admin settings met world world' ids current kind h =
      on_ok
        (connect_to_mongo settings.mongodb_uri settings.mongodb_db_name met.reply world.connection)
        _ h
        λ connected e1 h1.
          on_ok (initialise_database admin met.seen world.catalog) _ h1 λ catalog e2 h2.
            on_ok
              (ensure_system_accounts (wanted_accounts met settings.supported_currencies)
                world.database)
              _ h2
              λ provisioned e3 done.
                let (name, verified, kept) =
                  connect_to_mongo_ok settings.mongodb_uri settings.mongodb_db_name met.reply
                    world.connection connected e1 in
                subst (λ (w : World × List (Text × ObjectId)). IsStarted settings met.reply w.0)
                  (ok_injective done)
                  (record {
                    set_name = name;
                    primary = Primary-verify met.reply name verified;
                    connected = kept;
                    initialised =
                        initialise_database-IsInitialised admin met.seen world.catalog catalog
                          current e2;
                    provisioned =
                        (ensure_system_accounts-Provisioned met.drawn met.others kind
                          settings.supported_currencies world.database provisioned.0 provisioned.1
                          e3).0;
                  })

  -- Where all accounts are in currencies of three capital letters A to Z, a start succeeds only if
  -- every configured currency is such a code too.
  pub start-is_currency_code :
      (admin : Admin) (settings : Settings) (met : Circumstances) (world world' : World)
      (ids : List (Text × ObjectId))
      → AllCodes world.database
      → ((c : Text) → IsCooperative (met.others c))
      → start admin settings met world ≡ ok (world', ids)
      → All (λ c. is_currency_code c ≡ true) settings.supported_currencies
  unfolding start
  start-is_currency_code admin settings met world world' ids codes kind h =
      on_ok
        (connect_to_mongo settings.mongodb_uri settings.mongodb_db_name met.reply world.connection)
        _ h
        λ connected _ h1.
          on_ok (initialise_database admin met.seen world.catalog) _ h1 λ catalog _ h2.
            on_ok
              (ensure_system_accounts (wanted_accounts met settings.supported_currencies)
                world.database)
              _ h2
              λ provisioned e _.
                (ensure_system_accounts-Provisioned met.drawn met.others kind
                    settings.supported_currencies world.database provisioned.0 provisioned.1 e).2
                  codes
