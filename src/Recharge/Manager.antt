-- ===== src/Recharge/Manager.antt =====
-- packages/server/src/module/recharge/order/recharge-order-mgr.ts: which orders are loaded and in
-- which state they start, and what the consumers of the message queue do. The SDK's OrderMgr keeps
-- the order objects; here they are a list.
use cot_server.Base.{String, true, false, none, some, List, [], ◌∷◌, if◌then◌else◌}
use cot_server.Model.Chain.{RwAccountType, recharge_order_to_tx_start, recharge_order_success}
use cot_server.Model.Wallet.{OrderEvent}
use cot_server.Model.Recharge.{
  RechargeOrder, RechargeOrderStateId, init, external_wait_on_chain, internal_wait_on_chain,
  RechargeType, issue, airdrop, RechargeWhere, any_recharge,
}
use cot_server.Host.{
  Action, Service, pure, get, ask, call, ◌>>=◌, ◌>>◌, publish, is_consume_complete,
  set_consume_complete, del_consume_complete,
}
use cot_server.Memory.{RwKeypairs}
use cot_server.Recharge.Order.Obj.{RechargeOrderObj, default_try_transfer}
use cot_server.Recharge.Order.InternalWait.{
  on_to_tx_start_callback, on_internal_chain_try_transfer_callback,
}

-- getPendingOrderOptions
unfoldable pub get_pending_order_options : RechargeWhere
get_pending_order_options = record any_recharge {
  state = some (external_wait_on_chain ∷ internal_wait_on_chain ∷ []);
}

-- getInitOrderOptions
unfoldable pub get_init_order_options : RechargeWhere
get_init_order_options = record any_recharge { state = some (init ∷ []) }

unfoldable pub pending_state : RechargeType → RechargeOrderStateId → RechargeOrderStateId
pending_state issue state = external_wait_on_chain
pending_state airdrop state = internal_wait_on_chain
pending_state (RechargeType.other _) state = state

-- setOrderPending: a deposit waits for its external transaction, an airdrop has none.
unfoldable pub set_order_pending : RechargeOrder → RechargeOrder
unfolding pending_state
set_order_pending o = record o { state = pending_state o.recharge_type o.state }

-- newOrderObj. The SDK's constructor keeps the row and starts in its state.
unfoldable pub new_order_obj : RechargeOrder → RechargeOrderObj
new_order_obj o = record {
  entity = o;
  cur_state_id = o.state;
  create_from_tx_obj_success = false;
  retry_recharge_tx_stamp = none;
  retry_recharge_tx_num = 0;
}

start_again : RechargeOrderStateId → String → Service (Unit {0})
start_again internal_wait_on_chain order_id =
    call (
      publish recharge_order_to_tx_start (record { order_id = order_id; account_type = none }) true)
start_again _ order_id = pure tt

-- processMqReConnect, over the order objects in memory.
unfoldable pub process_mq_reconnect : List RechargeOrderObj → Service (Unit {0})
unfolding start_again
process_mq_reconnect [] = pure tt
process_mq_reconnect (o ∷ objs) = do
  start_again o.cur_state_id o.entity_id
  process_mq_reconnect objs

-- `orderObj.onToTxStartCallback()` and `orderObj.onInternalChainTryTransferCallback(accountType)`
-- pass the event to the state that the order is in; only InternalWaitOnChain has a handler, the
-- others log a warning.
to_tx_start_in : RechargeOrderStateId → Action RechargeOrderObj (Unit {0})
to_tx_start_in internal_wait_on_chain = on_to_tx_start_callback
to_tx_start_in _ = pure tt

try_transfer_in :
    RechargeOrderStateId → RwKeypairs → RwAccountType → Action RechargeOrderObj (Unit {0})
try_transfer_in internal_wait_on_chain keypairs account_type =
    on_internal_chain_try_transfer_callback keypairs account_type
try_transfer_in _ keypairs account_type = default_try_transfer

-- The consumers of __processOrderTempQueue, for the order that the event names, if it is found in
-- memory; if it is not, they only log.
unfoldable pub consume_to_tx_start : Action RechargeOrderObj (Unit {0})
unfolding to_tx_start_in
consume_to_tx_start = do o ← get; to_tx_start_in o.cur_state_id

unfoldable pub consume_try_transfer : RwKeypairs → OrderEvent → Action RechargeOrderObj (Unit {0})
unfolding try_transfer_in
consume_try_transfer keypairs event = elim event.account_type [
  | none ↦ pure tt
  | some account_type ↦ (do o ← get; try_transfer_in o.cur_state_id keypairs account_type)
]

-- The consumer of processOrderDone, and what runs after its message is acknowledged: an event that
-- has been consumed already is not marked again.
unfoldable pub consume_success : OrderEvent → Service (Unit {0})
consume_success event = do
  complete ← ask (λ h. h.flag) (is_consume_complete recharge_order_success event)
  if complete then pure tt else call (set_consume_complete recharge_order_success event)

unfoldable pub after_ack_success : OrderEvent → Service (Unit {0})
after_ack_success event = call (del_consume_complete recharge_order_success event)
