-- ===== src/Connection.antt =====
-- app/core/db.py: the handle to the server that a process holds, and the check that the server can
-- run transactions. Its answer to the command `hello` comes from outside.
use ledgerlock.Errors.{runtime_error, raise_if, ◌>>◌, ◌>>=◌, Result, ok, err}
use ledgerlock.Base.{not, Bool, Option, some, none, ◌∷◌, [], Text}

-- `AsyncIOMotorClient(uri, ...)` and `client[database_name]`, by what they were made from.
pub record Client : Type 0 where
  pub uri : Text

pub record DatabaseHandle : Type 0 where
  pub client : Client
  pub name : Text

pub record MongoConnection : Type 0 where
  pub client : Option Client
  pub database : Option DatabaseHandle
  pub replica_set_name : Option Text

abbrev pub disconnected : MongoConnection
disconnected = record { client = none; database = none; replica_set_name = none }

-- The reply to `hello`: `setName`, and `isWritablePrimary`, which counts as false if it is missing.
pub record Hello : Type 0 where
  pub set_name : Option Text
  pub is_writable_primary : Bool

-- `hello.get("setName")` as a condition.
abbrev pub set_name_or_raise : Option Text → Result Text
set_name_or_raise none = err runtime_error
set_name_or_raise (some []) = err runtime_error
set_name_or_raise (some (c ∷ name)) = ok (c ∷ name)

-- `_verify_transaction_support`; the command itself may fail.
unfoldable pub verify_transaction_support : Result Hello → Result Text
verify_transaction_support reply = do
  hello ← reply
  replica_set_name ← set_name_or_raise hello.set_name
  raise_if (not hello.is_writable_primary) runtime_error
  ok replica_set_name

-- A failure raises; what the handle then holds is left to the end of the process.
unfoldable pub connect_to_mongo :
    Text → Text → Result Hello → MongoConnection → Result (MongoConnection × DatabaseHandle)
connect_to_mongo uri database_name reply connection = do
  let client : Client = record { uri = uri }
  let database : DatabaseHandle = record { client = client; name = database_name }
  replica_set_name ← verify_transaction_support reply
  ok (
    record {
      client = some client;
      database = some database;
      replica_set_name = some replica_set_name;
    },
    database,
  )

unfoldable pub close_mongo_connection : MongoConnection → MongoConnection
close_mongo_connection connection = disconnected

abbrev pub or_not_connected {ℓ} : {A : Type ℓ} → Option A → Result A
or_not_connected none = err runtime_error
or_not_connected (some a) = ok a

-- DatabaseNotConnectedError is a RuntimeError.
unfoldable pub get_database : MongoConnection → Result DatabaseHandle
get_database connection = or_not_connected connection.database

unfoldable pub get_client : MongoConnection → Result Client
get_client connection = or_not_connected connection.client
