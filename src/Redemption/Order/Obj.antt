-- ===== src/Redemption/Order/Obj.antt =====
-- redemption-order-obj.ts, and the base classes of the states (redemption-order.state.ts,
-- redemption-order-pending.state.ts, redemption-order-finally.state.ts).
use cot_server.Base.{ℕ, Bool, Option}
use cot_server.Model.Chain.{OrderType}
use cot_server.Model.Redemption.{RedemptionOrder, RedemptionOrderStateId}
use cot_server.Host.{
  redemption_order, save_entity, save_state, close_order, change_redemption_state, Action, get,
  call, ◌>>=◌,
}

-- RedemptionOrderObj, with the fields that it has from the SDK's OrderObj.
pub record RedemptionOrderObj : Type 0 where
  pub entity : RedemptionOrder
  pub open entity use *
  pub cur_state_id : RedemptionOrderStateId
  pub create_from_tx_obj_success : Bool
  pub retry_to_tx_stamp : Option ℕ
  pub retry_to_tx_num : ℕ

-- The SDK's `save()`: the row as it is now.
unfoldable pub save : Action RedemptionOrderObj (Unit {0})
save = do o ← get; call (save_entity (redemption_order o.entity))

-- The SDK's `changeState(to, from)`
unfoldable pub change_state :
    (to from : RedemptionOrderStateId) → Action RedemptionOrderObj (Unit {0})
change_state to from = do o ← get; call (change_redemption_state o.entity_id to from)

-- RedemptionOrderPendingState.beforeEnterState
unfoldable pub before_enter_pending : Action RedemptionOrderObj (Unit {0})
before_enter_pending = do o ← get; call (save_state OrderType.redemption o.entity_id)

-- RedemptionOrderFinallyState.afterEnterState
unfoldable pub after_enter_finally : Action RedemptionOrderObj (Unit {0})
after_enter_finally = do o ← get; call (close_order OrderType.redemption o.entity_id)
