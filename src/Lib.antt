-- ===== src/Lib.antt =====
-- Ledgerlock: a double-entry ledger over MongoDB, modelled from app/.
--
-- The program takes transfers over HTTP (app/routes), applies each in one MongoDB transaction
-- (app/services/ledger_service.py), computes balances from the entries (balance_service.py), keeps
-- accounts (account_service.py), and checks the whole ledger (reconciliation.py). The documents and
-- their checks are in app/models, the indexes and validators in app/core/db.py, the errors in
-- app/core/errors.py.
--
--   - Base: integers, lists, strings and tests that the rest shares.
--   - Characters: Python's methods on strings that the program uses, with the Unicode tables as an
--     interface.
--   - Errors: app/core/errors.py. A call returns a Result: a value or an exception. Errors/Handlers
--     has the handlers, with the one of app/core/rate_limit.py; Errors/Envelope is about them.
--   - Config: app/core/config.py, with the proofs in Distinct, Fields, Validated and
--     Currencies.
--   - RateLimit: app/core/rate_limit.py. Logging: app/core/logging_config.py, with the proofs in
--     Logging/Redacted.
--   - Models: app/models, a file for each of common.py, account.py, transaction.py,
--     ledger_entry.py and user.py.
--   - Mongo: the driver's calls as an interface of operations with laws. MongoDB is not in the
--     repository. Mongo/Pages is about sorted pages.
--   - Database: the collections as lists, with the validators and unique indexes of app/core/db.py.
--   - Balance: `_balance_pipeline` and what reads it.
--   - Ledger: `_validate_participants` and `_apply_transfer`, with the three steps of the latter as
--     `transaction_by_key`, `check_funds` and the inserts. Ledger/Create: `create_transfer` and the
--     reads. Ledger/Guards, Applied, Effects, Pairs, Complete, Refused, Retry and Readback are about
--     these.
--   - Accounts: app/services/account_service.py; Accounts/Provisioned is about the SYSTEM accounts.
--   - Schema and Connection: the rest of app/core/db.py, what a start creates and the handle to the
--     server. Schema/Lookup, Indexed and Ready are about the former.
--   - Startup: app/main.py, with the proofs in Started and Readiness.
--   - Reconciliation: app/services/reconciliation.py, with the proofs in Sums, Groups, Overdrawn,
--     Healthy, Detects, Uncovered and Thorough.
--   - Security and Auth: app/core/security.py and app/routes/auth.py, with the libraries for tokens,
--     hashes and object ids as the interface `Crypto`; proofs in Auth/Login and Auth/Logout.
--     Auth/Requests has the requests of app/models/user.py, Auth/Requests/Known a proof about them.
--   - Routes: the handlers of app/routes/transactions.py and app/routes/accounts.py; proofs in
--     Routes/Owned, Submitted and Shown. Routes/Pages has the list of accounts and the handler of
--     app/routes/reconciliation.py.
--   - Responses: the response models and their checks; Responses/Built is about them.
--   - App: what the application of app/main.py does with a request. App has the requests, the calls
--     and the replies, App/Parameters what FastAPI reads before a handler and what slowapi is asked,
--     App/Serve the handler's body and the reply. App/Prepared and Expected are about the
--     parameters, App/Guarded, Settled, Answered and Told about replies, with the lemmas of Reads,
--     Addresses and Owned; App/Traffic and Enrolled are about what a sequence of requests makes of
--     the database.
--   - System: workers over one database, as a step relation on the committed versions. A run reads
--     any committed version; its commit is admitted only if no document that it updated has changed
--     since, as in snapshot isolation. System/Sound, Posted, Typed and Invariant have the invariants,
--     System/Safety, Transfers, Summed, Totals, Conserved and Bounds what follows for the code's own reads;
--     System/Moves has a bank and its moves, System/Bank that the whole is one.
--   - Tests: a server and libraries that behave as documented, and runs at concrete inputs.
--
-- An ObjectId is its number and a datetime its milliseconds; the claims of a token have seconds. A
-- text is the list of its code points. Amounts are integers without a bound, as in Python. What a run
-- draws from outside (ids, the clock) is an argument. The retries of `with_transaction` run over a
-- list: the runs that fit before the driver's deadline, each with its snapshot and the exception that
-- the server raises in it, if any; so there is no fuel. An operation failure and a lost connection
-- carry a flag, whether the driver has labelled them as transient. A sorted page is a slice of the
-- documents in ascending order, and each query may order equal keys anew. A commit whose outcome the
-- driver does not learn is not modelled. Log lines are left out. A reply in App has the status and the body, or the
-- status and the code of a failure; its message is in Errors/Handlers. In App a failure of the server
-- is met in `create_transfer` only, whose runs can carry one. Not modelled: the counters of slowapi,
-- the installation of the log handler, and the web framework's part in a request, which is matching
-- its path and decoding its body.
pub mod Base
pub mod Characters
pub mod Config
pub mod RateLimit
pub mod Logging
pub mod Errors
pub mod Models
pub mod Mongo
pub mod Database
pub mod Balance
pub mod Ledger
pub mod Accounts
pub mod Security
pub mod Auth
pub mod Responses
pub mod Routes
pub mod App
pub mod Schema
pub mod Connection
pub mod Startup
pub mod System
pub mod Reconciliation
pub mod Tests
