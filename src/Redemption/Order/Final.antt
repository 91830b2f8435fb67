-- ===== src/Redemption/Order/Final.antt =====
-- The final states: success.redemption-order-state.ts, external-on-chain-fail and
-- internal-on-chain-fail. Entering a failed state only logs.
use cot_server.Base.{none, false}
use cot_server.Model.Chain.{redemption_order_success}
use cot_server.Host.{publish, Action, pure, get, call, ◌>>=◌}
use cot_server.Redemption.Order.Obj.{RedemptionOrderObj}

-- Success_RedemptionOrderState.onEnterState
unfoldable pub on_enter_success : Action RedemptionOrderObj (Unit {0})
on_enter_success = do
  o ← get
  call (
      publish redemption_order_success (record { order_id = o.entity_id; account_type = none })
        false)

-- ExternalOnChainFail_RedemptionOrderState.onEnterState
unfoldable pub on_enter_external_fail : Action RedemptionOrderObj (Unit {0})
on_enter_external_fail = pure tt

-- InternalOnChainFail_RedemptionOrderState.onEnterState
unfoldable pub on_enter_internal_fail : Action RedemptionOrderObj (Unit {0})
on_enter_internal_fail = pure tt
