-- ===== src/Recharge/Order/Events.antt =====
-- The methods of the five states as the events that they handle, each with the state whose class
-- declares it. The SDK's OrderObj passes an event to the state that the order is in.
use cot_server.Model.Chain.{RwAccountType}
use cot_server.Model.Wallet.{TransactionBase}
use cot_server.Model.Recharge.{
  RechargeOrderStateId, external_wait_on_chain, external_on_chain_fail, internal_wait_on_chain,
  internal_on_chain_fail, success,
}
use cot_server.Host.{Action, ◌>>◌}
use cot_server.Memory.{RwKeypairs}
use cot_server.Recharge.Order.Obj.{RechargeOrderObj, before_enter_pending, after_enter_finally}
use cot_server.Recharge.Order.ExternalWait
use cot_server.Recharge.Order.InternalWait
use cot_server.Recharge.Order.Final.{
  on_enter_success, on_enter_external_fail, on_enter_internal_fail,
}

pub data Event : Type 0 where
  external_tick external_enter : Event
  external_succeeded external_failed : TransactionBase → Event
  internal_tick internal_enter internal_queue_inited internal_to_tx_start : Event
  internal_try_transfer : RwKeypairs → RwAccountType → Event
  internal_succeeded internal_failed : TransactionBase → Event
  enter_success enter_external_fail enter_internal_fail : Event

-- The state whose class handles the event.
abbrev pub state_of : Event → RechargeOrderStateId
state_of external_tick = external_wait_on_chain
state_of external_enter = external_wait_on_chain
state_of (external_succeeded _) = external_wait_on_chain
state_of (external_failed _) = external_wait_on_chain
state_of enter_success = success
state_of enter_external_fail = external_on_chain_fail
state_of enter_internal_fail = internal_on_chain_fail
state_of _ = internal_wait_on_chain

-- Entering a state runs its three hooks, of which the base classes declare one.
unfoldable pub handle : Event → Action RechargeOrderObj (Unit {0})
handle external_tick = ExternalWait.on_tick
handle external_enter = before_enter_pending >> ExternalWait.on_enter_state
handle (external_succeeded trans) = ExternalWait.on_external_chain_success_callback trans
handle (external_failed trans) = ExternalWait.on_external_chain_fail_callback trans
handle internal_tick = InternalWait.on_tick
handle internal_enter = before_enter_pending >> InternalWait.on_enter_state
handle internal_queue_inited = InternalWait.after_queue_inited
handle internal_to_tx_start = InternalWait.on_to_tx_start_callback
handle (internal_try_transfer keypairs account_type) =
    InternalWait.on_internal_chain_try_transfer_callback keypairs account_type
handle (internal_succeeded trans) = InternalWait.on_internal_chain_success_callback trans
handle (internal_failed trans) = InternalWait.on_internal_chain_fail_callback trans
handle enter_success = on_enter_success >> after_enter_finally
handle enter_external_fail = on_enter_external_fail >> after_enter_finally
handle enter_internal_fail = on_enter_internal_fail >> after_enter_finally
