-- ===== src/Recharge/Order/Final.antt =====
-- The final states: success.recharge-order-state.ts, external-on-chain-fail and
-- internal-on-chain-fail. Entering a failed state only logs.
use cot_server.Base.{none, false}
use cot_server.Model.Chain.{recharge_order_success}
use cot_server.Host.{publish, Action, pure, get, call, ◌>>=◌}
use cot_server.Recharge.Order.Obj.{RechargeOrderObj}

-- Success_RechargeOrderState.onEnterState
unfoldable pub on_enter_success : Action RechargeOrderObj (Unit {0})
on_enter_success = do
  o ← get
  call (
      publish recharge_order_success (record { order_id = o.entity_id; account_type = none }) false)

-- ExternalOnChainFail_RechargeOrderState.onEnterState
unfoldable pub on_enter_external_fail : Action RechargeOrderObj (Unit {0})
on_enter_external_fail = pure tt

-- InternalOnChainFail_RechargeOrderState.onEnterState
unfoldable pub on_enter_internal_fail : Action RechargeOrderObj (Unit {0})
on_enter_internal_fail = pure tt
