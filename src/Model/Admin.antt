-- ===== src/Model/Admin.antt =====
-- packages/core/src/admin/@types.ts: what the pages of the administrators send. A field that the
-- client may leave out is optional; the pages of lists are two numbers beside the request.
use cot_server.Base.{ℕ, String, Option}
use cot_server.Model.Recharge.{RechargeOrderStateId}
use cot_server.Model.Redemption.{RedemptionOrderStateId}

-- COTCore.AdminAuthInfo
pub record AdminAuthInfo : Type 0 where
  pub login_name : String
  pub expired_time : ℕ
  pub token : String

-- What a request with no token, with a token that is not known, and with one that is known is taken
-- for: `undefined`, the empty object, and the information of a login.
pub data Authorization : Type 0 where
  undefined empty : Authorization
  info : AdminAuthInfo → Authorization

pub record LoginReq : Type 0 where
  pub login_name : String
  pub password : String

pub record CreateUserReq : Type 0 where
  pub login_name : String
  pub nick_name : String
  pub password : String

pub record UpdateUserReq : Type 0 where
  pub old_password : Option String
  pub new_password : Option String

pub record GetOperateRecordListReq : Type 0 where
  pub login_name : Option String
  pub api : Option String
  pub page : ℕ
  pub page_size : ℕ

-- `orderState` is a state's number in the source.
pub record GetRechargeOrdersReq : Type 0 where
  pub entity_id : Option String
  pub wallet_address : Option String
  pub wallet_tx_id : Option String
  pub internal_address : Option String
  pub order_state : Option RechargeOrderStateId
  pub page : ℕ
  pub page_size : ℕ

pub record GetRedemptionOrdersReq : Type 0 where
  pub entity_id : Option String
  pub internal_address : Option String
  pub redemption_tx_id : Option String
  pub wallet_address : Option String
  pub wallet_tx_id : Option String
  pub order_state : Option RedemptionOrderStateId
  pub page : ℕ
  pub page_size : ℕ

-- FixRechargeOrderReqDto and FixRedemptionOrderReqDto; the numbers of the types of repair are those
-- of FIX_RECHARGE_ORDER_TYPE and of FIX_REDEMPTION_ORDER_TYPE.
pub record FixOrderReq : Type 0 where
  pub entity_id : String
  pub fix_type : ℕ
