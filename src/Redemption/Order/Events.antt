-- ===== src/Redemption/Order/Events.antt =====
-- The methods of the five states as the events that they handle, each with the state whose class
-- declares it. The SDK's OrderObj passes an event to the state that the order is in.
use cot_server.Model.Wallet.{TransactionBase}
use cot_server.Model.Redemption.{
  RedemptionOrderStateId, internal_wait_on_chain, internal_on_chain_fail, external_wait_on_chain,
  external_on_chain_fail, success,
}
use cot_server.Host.{Action, ◌>>◌}
use cot_server.GlobalValue.{ExternalAccounts}
use cot_server.Redemption.Order.Obj.{RedemptionOrderObj, before_enter_pending, after_enter_finally}
use cot_server.Redemption.Order.InternalWait
use cot_server.Redemption.Order.ExternalWait
use cot_server.Redemption.Order.Final.{
  on_enter_success, on_enter_external_fail, on_enter_internal_fail,
}

pub data Event : Type 0 where
  internal_tick internal_enter : Event
  internal_succeeded internal_failed : TransactionBase → Event
  external_tick external_enter : Event
  external_to_tx_start : ExternalAccounts → Event
  external_succeeded external_failed : TransactionBase → Event
  enter_success enter_external_fail enter_internal_fail : Event

-- The state whose class handles the event.
abbrev pub state_of : Event → RedemptionOrderStateId
state_of internal_tick = internal_wait_on_chain
state_of internal_enter = internal_wait_on_chain
state_of (internal_succeeded _) = internal_wait_on_chain
state_of (internal_failed _) = internal_wait_on_chain
state_of enter_success = success
state_of enter_external_fail = external_on_chain_fail
state_of enter_internal_fail = internal_on_chain_fail
state_of _ = external_wait_on_chain

-- Entering a state runs its three hooks, of which the base classes declare one.
unfoldable pub handle : Event → Action RedemptionOrderObj (Unit {0})
handle internal_tick = InternalWait.on_tick
handle internal_enter = before_enter_pending >> InternalWait.on_enter_state
handle (internal_succeeded trans) = InternalWait.on_internal_chain_success_callback trans
handle (internal_failed trans) = InternalWait.on_internal_chain_fail_callback trans
handle external_tick = ExternalWait.on_tick
handle external_enter = before_enter_pending >> ExternalWait.on_enter_state
handle (external_to_tx_start accounts) = ExternalWait.on_to_tx_start_callback accounts
handle (external_succeeded trans) = ExternalWait.on_external_chain_success_callback trans
handle (external_failed trans) = ExternalWait.on_external_chain_fail_callback trans
handle enter_success = on_enter_success >> after_enter_finally
handle enter_external_fail = on_enter_external_fail >> after_enter_finally
handle enter_internal_fail = on_enter_internal_fail >> after_enter_finally
