-- ===== src/Models/Accounts.antt =====
-- app/models/account.py: the account document. It has no balance.
use ledgerlock.Base.{ℕ, Bool, true, false, Option, Text}
use ledgerlock.Models.Common.{ObjectId, Time}

pub data AccountStatus : Type 0 where
  active frozen closed : AccountStatus

pub data AccountType : Type 0 where
  user system : AccountType

-- AccountDocument, with the counter that `$inc` adds to it (0 while the field is absent).
pub record Account : Type 0 where
  pub id : ObjectId
  pub owner_id : Option ObjectId
  pub currency : Text
  pub status : AccountStatus
  pub account_type : AccountType
  pub label : Text
  pub created_at : Time
  pub updated_at : Time
  pub debit_serialisation_counter : ℕ

-- `account["status"] != AccountStatus.ACTIVE.value`
abbrev pub not_active : AccountStatus → Bool
not_active active = false
not_active frozen = true
not_active closed = true

-- `account["account_type"] == AccountType.USER.value`
abbrev pub is_user : AccountType → Bool
is_user user = true
is_user system = false
