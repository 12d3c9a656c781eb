-- ===== src/Models/Users.antt =====
-- app/models/user.py: the user document and the record of a revoked token.
use ledgerlock.Base.{Text}
use ledgerlock.Models.Common.{ObjectId, Time}

pub record User : Type 0 where
  pub id : ObjectId
  pub email : Text
  pub hashed_password : Text
  pub created_at : Time

pub record RevokedToken : Type 0 where
  pub jti : Text
  pub user_id : ObjectId
  pub expires_at : Time
  pub revoked_at : Time
