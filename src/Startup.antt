-- ===== src/Startup.antt =====
-- app/main.py: the start of the application, and its two probes. A failure of the start ends the
-- process, so it has no state after it.
use ledgerlock.Config.{Settings}
use ledgerlock.Database.{Database}
use ledgerlock.Accounts.{ensure_system_accounts, AccountDraw}
use ledgerlock.Schema.{initialise_database, Admin, Catalog}
use ledgerlock.Mongo.{Mongo}
use ledgerlock.Models.{ObjectId, system, user}
pub mod Started
pub mod Readiness
use ledgerlock.Connection.{
  connect_to_mongo, get_client, close_mongo_connection, Hello, MongoConnection,
}
use ledgerlock.Errors.{◌>>◌, ◌>>=◌, Result, ok, err}
use ledgerlock.Base.{
  map, Bool, List, ℕ, codes, Option, pos, inr, inl, arith, refl, suc, zero, false, true, some, none,
  ◌∷◌, [], Text,
}

-- The process's connection, and what the server holds.
pub record World : Type 0 where
  pub connection : MongoConnection
  pub catalog : Catalog
  pub database : Database

-- What a start meets: the answer to `hello`, the catalog as it was listed, and for each currency
-- what an insert of its account draws and what other workers do before it.
pub record Circumstances : Type 0 where
  pub reply : Result Hello
  pub seen : Catalog
  pub drawn : Text → AccountDraw
  pub others : Text → Database → Database

abbrev pub wanted_accounts :
    Circumstances → List Text → List (Text × AccountDraw × (Database → Database))
wanted_accounts met currencies = map (λ c. (c, met.drawn c, met.others c)) currencies

module _ ⦃m : Mongo⦄ where
  -- `lifespan` up to its `yield`, with the ids of the SYSTEM accounts.
  unfoldable pub start :
      Admin → Settings → Circumstances → World → Result (World × List (Text × ObjectId))
  start admin settings met world = do
    connected ←
        connect_to_mongo settings.mongodb_uri settings.mongodb_db_name met.reply world.connection
    catalog ← initialise_database admin met.seen world.catalog
    provisioned ←
        ensure_system_accounts (wanted_accounts met settings.supported_currencies) world.database
    ok (
      record { connection = connected.0; catalog = catalog; database = provisioned.1 },
      provisioned.0,
    )

-- `lifespan` after its `yield`.
unfoldable pub stop : World → World
stop world = record world { connection = close_mongo_connection world.connection }

-- A probe's response: its status, and the values of `status` and of `reason` or `replica_set`.
pub record ProbeResponse : Type 0 where
  pub status_code : ℕ
  pub status : Text
  pub detail : Text

unfoldable pub health : ProbeResponse
health = record { status_code = 200; status = codes "ok"; detail = codes "Ledgerlock" }

abbrev pub not_ready : Text → ProbeResponse
not_ready reason = record { status_code = 503; status = codes "not_ready"; detail = reason }

-- The tests on the reply.
unfoldable pub primary_response : Option Text → Bool → ProbeResponse
primary_response none primary = not_ready (codes "no_transaction_capable_primary")
primary_response (some []) primary = not_ready (codes "no_transaction_capable_primary")
primary_response (some (c ∷ name)) false = not_ready (codes "no_transaction_capable_primary")
primary_response (some (c ∷ name)) true = record {
  status_code = 200;
  status = codes "ready";
  detail = c ∷ name;
}

abbrev pub reply_response : Result Hello → ProbeResponse
reply_response (err e) = not_ready (codes "database_unreachable")
reply_response (ok hello) = primary_response hello.set_name hello.is_writable_primary

-- Whatever `get_client` or the command raises, the database counts as unreachable.
unfoldable pub readiness : MongoConnection → Result Hello → ProbeResponse
readiness connection reply = reply_response (get_client connection >>= λ client. reply)
