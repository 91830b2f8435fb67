-- ===== src/Recharge/Order/Obj.antt =====
-- recharge-order-obj.ts, and the base classes of the states (recharge-order.state.ts,
-- recharge-order-pending.state.ts, recharge-order-finally.state.ts).
use cot_server.Base.{ℕ, Bool, Option, ltb, ◌||◌}
use cot_server.Model.Chain.{OrderType}
use cot_server.Model.Recharge.{RechargeOrder, RechargeOrderStateId}
use cot_server.Host.{
  Host, recharge_order, save_entity, save_state, close_order, change_recharge_state, Action, pure,
  get, call, ◌>>=◌,
}

-- RechargeOrderObj, with the fields that it has from the SDK's OrderObj.
pub record RechargeOrderObj : Type 0 where
  pub entity : RechargeOrder
  pub open entity use *
  pub cur_state_id : RechargeOrderStateId
  pub create_from_tx_obj_success : Bool
  pub retry_recharge_tx_stamp : Option ℕ
  pub retry_recharge_tx_num : ℕ

-- isRechargeTxFinish
unfoldable pub is_recharge_tx_finish : Host → RechargeOrderObj → Bool
is_recharge_tx_finish h o =
    o.recharge_tx_on_chain || ltb h.internal_retry_max o.retry_recharge_tx_num

-- The SDK's `save()`: the row as it is now.
unfoldable pub save : Action RechargeOrderObj (Unit {0})
save = do o ← get; call (save_entity (recharge_order o.entity))

-- The SDK's `changeState(to, from)`
unfoldable pub change_state : (to from : RechargeOrderStateId) → Action RechargeOrderObj (Unit {0})
change_state to from = do o ← get; call (change_recharge_state o.entity_id to from)

-- RechargeOrderPendingState.beforeEnterState
unfoldable pub before_enter_pending : Action RechargeOrderObj (Unit {0})
before_enter_pending = do o ← get; call (save_state OrderType.recharge o.entity_id)

-- RechargeOrderFinallyState.afterEnterState
unfoldable pub after_enter_finally : Action RechargeOrderObj (Unit {0})
after_enter_finally = do o ← get; call (close_order OrderType.recharge o.entity_id)

-- RechargeOrderState.onInternalChainTryTransferCallback: a state that does not override it only
-- logs a warning.
unfoldable pub default_try_transfer : Action RechargeOrderObj (Unit {0})
default_try_transfer = do o ← get; pure tt
