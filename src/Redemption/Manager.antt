-- ===== src/Redemption/Manager.antt =====
-- packages/server/src/module/redemption/order/redemption-order-mgr.ts: which orders are loaded and in
-- which state they start, and what the consumers of the message queue do.
use cot_server.Base.{String, none, some, List, [], ◌∷◌, true, false}
use cot_server.Model.Chain.{redemption_order_to_tx_start}
use cot_server.Model.Redemption.{
  RedemptionOrder, RedemptionOrderStateId, init, internal_wait_on_chain, external_wait_on_chain,
  RedemptionWhere, any_redemption,
}
use cot_server.Host.{Action, Service, pure, get, call, ◌>>=◌, ◌>>◌, publish}
use cot_server.GlobalValue.{ExternalAccounts}
use cot_server.Redemption.Order.Obj.{RedemptionOrderObj}
use cot_server.Redemption.Order.ExternalWait.{on_to_tx_start_callback}

-- getPendingOrderOptions
unfoldable pub get_pending_order_options : RedemptionWhere
get_pending_order_options = record any_redemption {
  state = some (internal_wait_on_chain ∷ external_wait_on_chain ∷ []);
}

-- getInitOrderOptions
unfoldable pub get_init_order_options : RedemptionWhere
get_init_order_options = record any_redemption { state = some (init ∷ []) }

-- setOrderPending
unfoldable pub set_order_pending : RedemptionOrder → RedemptionOrder
set_order_pending o = record o { state = internal_wait_on_chain }

-- newOrderObj. The SDK's constructor keeps the row and starts in its state.
unfoldable pub new_order_obj : RedemptionOrder → RedemptionOrderObj
new_order_obj o = record {
  entity = o;
  cur_state_id = o.state;
  create_from_tx_obj_success = false;
  retry_to_tx_stamp = none;
  retry_to_tx_num = 0;
}

start_again : RedemptionOrderStateId → String → Service (Unit {0})
start_again external_wait_on_chain order_id = call (
    publish redemption_order_to_tx_start (record { order_id = order_id; account_type = none }) true)
start_again _ order_id = pure tt

-- processMqReConnect, over the order objects in memory.
unfoldable pub process_mq_reconnect : List RedemptionOrderObj → Service (Unit {0})
unfolding start_again
process_mq_reconnect [] = pure tt
process_mq_reconnect (o ∷ objs) = do
  start_again o.cur_state_id o.entity_id
  process_mq_reconnect objs

to_tx_start_in : RedemptionOrderStateId → ExternalAccounts → Action RedemptionOrderObj (Unit {0})
to_tx_start_in external_wait_on_chain accounts = on_to_tx_start_callback accounts
to_tx_start_in _ accounts = pure tt

-- The consumer of __processOrderTempQueue, for an order that is found in memory; the SDK passes the
-- event to the state that the order is in, and only ExternalWaitOnChain has a handler.
unfoldable pub consume_to_tx_start : ExternalAccounts → Action RedemptionOrderObj (Unit {0})
unfolding to_tx_start_in
consume_to_tx_start accounts = do o ← get; to_tx_start_in o.cur_state_id accounts
