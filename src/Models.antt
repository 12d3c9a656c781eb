-- ===== src/Models.antt =====
-- app/models: the values of the documents and the checks on them, by file.
pub mod Laws
mod Common
mod Accounts
mod Transactions
mod Entries
mod Users
unfoldable pub use Common.*
unfoldable pub use Accounts.*
unfoldable pub use Transactions.*
unfoldable pub use Entries.*
pub use Users.*
