-- ===== src/Model/User.antt =====
-- packages/core/src/admin/constants.ts and the tables of users and of operations. The time of a
-- login is not set for a new user.
use cot_server.Base.{ℕ, String, Bool, Option}

-- USER_STATUS
pub data UserStatus : Type 0 where
  stop start : UserStatus

-- USER_ROLE
pub data UserRole : Type 0 where
  anyone super_admin admin : UserRole

pub record UserEntity : Type 0 where
  pub login_name : String
  pub password : String
  pub nick_name : String
  pub login_time : Option ℕ
  pub status : UserStatus
  pub role : UserRole

pub record OperateRecordEntity : Type 0 where
  pub login_name : String
  pub api : String
  pub content : String
  pub version : String
  pub result : Bool

-- The `where` object of a query on the records of operations.
pub record OperateWhere : Type 0 where
  pub login_name : Option String
  pub api : Option String
