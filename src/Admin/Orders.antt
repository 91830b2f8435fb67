-- ===== src/Admin/Orders.antt =====
-- packages/server/src/module/admin/order/order.service.ts and order.controller.ts: the lists of
-- orders and the repair of a failed one. The requests of the lists and of single transactions pass
-- their values on.
pub mod Repairs
pub mod Restarts
use cot_server.Base.{
  ℕ, String, Bool, Option, none, some, List, [], ◌∷◌, ◌==◌, truthy_number, if◌then◌else◌,
}
use cot_server.Model.Admin.{
  AdminAuthInfo, FixOrderReq, GetRechargeOrdersReq, GetRedemptionOrdersReq,
}
use cot_server.Model.Recharge.{RechargeOrder, RechargeOrderStateId, RechargeWhere, any_recharge}
use cot_server.Model.Redemption.{
  RedemptionOrder, RedemptionOrderStateId, RedemptionWhere, any_redemption,
}
use cot_server.Host.{
  Service, pure, throw, host, ask, ◌>>=◌, ◌>>◌, invalid_fix_type, find_recharge_page,
  find_redemption_page, find_recharge_order, find_redemption_order,
}
use cot_server.Recharge.Retry.{retry_external_on_chain, retry_internal_on_chain}
use cot_server.Redemption.Retry.{
  retry_internal_on_chain as retry_withdrawal, retry_external_on_chain as retry_payout,
}
use cot_server.Admin.Users.{given, save_operate_record, operate_record_success}

-- `if (orderState)`: the number 0 is outside of the enumeration, and asks for nothing.
unfoldable pub recharge_state_given :
    Option RechargeOrderStateId → Option (List RechargeOrderStateId)
recharge_state_given none = none
recharge_state_given (some (RechargeOrderStateId.other n)) =
    if n == 0 then none else some (RechargeOrderStateId.other n ∷ [])
recharge_state_given (some s) = some (s ∷ [])

unfoldable pub redemption_state_given :
    Option RedemptionOrderStateId → Option (List RedemptionOrderStateId)
redemption_state_given none = none
redemption_state_given (some (RedemptionOrderStateId.other n)) =
    if n == 0 then none else some (RedemptionOrderStateId.other n ∷ [])
redemption_state_given (some s) = some (s ∷ [])

-- The query of getRechargeOrders.
unfoldable pub recharge_orders_where : GetRechargeOrdersReq → RechargeWhere
recharge_orders_where dto = record any_recharge {
  entity_id = given dto.entity_id;
  wallet_address = given dto.wallet_address;
  wallet_tx_id = given dto.wallet_tx_id;
  internal_address = given dto.internal_address;
  state = recharge_state_given dto.order_state;
}

-- getRechargeOrders
unfoldable pub get_recharge_orders : GetRechargeOrdersReq → Service (List RechargeOrder)
get_recharge_orders dto =
    ask (λ h. h.recharge_rows)
      (find_recharge_page (recharge_orders_where dto) dto.page dto.page_size)

-- getRechargeOrderDetail
unfoldable pub get_recharge_order_detail : String → Service RechargeOrder
get_recharge_order_detail entity_id =
    ask (λ h. h.recharge_row_force)
      (find_recharge_order (record any_recharge { entity_id = some entity_id }))

-- fixRechargeOrder of the service; the types are those of FIX_RECHARGE_ORDER_TYPE.
unfoldable pub fix_recharge_order : FixOrderReq → Service Bool
unfolding retry_external_on_chain retry_internal_on_chain
fix_recharge_order dto =
    if dto.fix_type == 1
    then retry_external_on_chain dto.entity_id
    else if dto.fix_type == 2
    then retry_internal_on_chain dto.entity_id
    else throw invalid_fix_type

-- The query of getRedemptionOrders.
unfoldable pub redemption_orders_where : GetRedemptionOrdersReq → RedemptionWhere
redemption_orders_where dto = record any_redemption {
  entity_id = given dto.entity_id;
  wallet_address = given dto.wallet_address;
  redemption_tx_id = given dto.redemption_tx_id;
  wallet_tx_id = given dto.wallet_tx_id;
  internal_address = given dto.internal_address;
  state = redemption_state_given dto.order_state;
}

-- getRedemptionOrders
unfoldable pub get_redemption_orders : GetRedemptionOrdersReq → Service (List RedemptionOrder)
get_redemption_orders dto =
    ask (λ h. h.redemption_rows)
      (find_redemption_page (redemption_orders_where dto) dto.page dto.page_size)

-- getRedemptionOrderDetail
unfoldable pub get_redemption_order_detail : String → Service RedemptionOrder
get_redemption_order_detail entity_id =
    ask (λ h. h.redemption_row_force)
      (find_redemption_order (record any_redemption { entity_id = some entity_id }))

-- fixRedemptionOrder of the service; the types are those of FIX_REDEMPTION_ORDER_TYPE.
unfoldable pub fix_redemption_order : FixOrderReq → Service Bool
unfolding retry_withdrawal retry_payout
fix_redemption_order dto =
    if dto.fix_type == 1
    then retry_withdrawal dto.entity_id
    else if dto.fix_type == 2
    then retry_payout dto.entity_id
    else throw invalid_fix_type

-- fixRechargeOrder of the controller: the repair between two writes of its record.
unfoldable pub repair_recharge_order : AdminAuthInfo → FixOrderReq → Service Bool
unfolding save_operate_record fix_recharge_order operate_record_success
repair_recharge_order authorization dto = do
  h ← host
  r ← save_operate_record authorization.login_name "recharge/fix" (h.fix_to_json dto)
  result ← fix_recharge_order dto
  operate_record_success r
  pure result

-- fixRedemptionOrder of the controller
unfoldable pub repair_redemption_order : AdminAuthInfo → FixOrderReq → Service Bool
unfolding save_operate_record fix_redemption_order operate_record_success
repair_redemption_order authorization dto = do
  h ← host
  r ← save_operate_record authorization.login_name "redemption/fix" (h.fix_to_json dto)
  result ← fix_redemption_order dto
  operate_record_success r
  pure result
