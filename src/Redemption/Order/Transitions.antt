-- ===== src/Redemption/Order/Transitions.antt =====
-- Which changes of state the handlers of a redemption order ask for.
use cot_server.Base.{ℕ, Option, none, some}
use cot_server.Model.Redemption.{RedemptionOrderStateId, external_wait_on_chain}
use cot_server.Host.{Host}
use cot_server.Host.Keeps.{CallsOnly, calls_only}
use cot_server.GlobalValue.{ExternalAccounts}
use cot_server.Redemption.Helper.{is_redemption_dev_test}
use cot_server.Redemption.Order.Obj.{
  RedemptionOrderObj, save, change_state, before_enter_pending, after_enter_finally,
}
use cot_server.Redemption.Order.Diagram.{Follows, edges}
use cot_server.Redemption.Order.InternalWait
use cot_server.Redemption.Order.ExternalWait
use cot_server.Redemption.Order.ExternalWait.{
  is_due, start_transfer, transfer_of, create_transfer, wait_after_error,
}
use cot_server.Redemption.Order.Final.{
  on_enter_success, on_enter_external_fail, on_enter_internal_fail,
}
use cot_server.Redemption.Order.Events.{
  Event, internal_tick, internal_enter, internal_succeeded, internal_failed, external_tick,
  external_enter, external_to_tx_start, external_succeeded, external_failed, enter_success,
  enter_external_fail, enter_internal_fail, state_of, handle,
}

module _ (h : Host) where
  dev_test-Follows :
      (s : RedemptionOrderStateId)
      → CallsOnly {S = RedemptionOrderObj} h (Follows s) is_redemption_dev_test
  unfolding is_redemption_dev_test
  dev_test-Follows s = search calls_only depth 20

  create_transfer-Follows :
      (accounts : ExternalAccounts) (o : RedemptionOrderObj)
      → CallsOnly h (Follows external_wait_on_chain) (create_transfer accounts o)
  unfolding create_transfer save
  create_transfer-Follows accounts o = search calls_only depth 20

  wait_after_error-Follows :
      (o : RedemptionOrderObj) → CallsOnly h (Follows external_wait_on_chain) (wait_after_error h o)
  unfolding wait_after_error
  wait_after_error-Follows o = search calls_only depth 20

  start_transfer-Follows :
      (accounts : ExternalAccounts)
      → CallsOnly h (Follows external_wait_on_chain) (start_transfer accounts)
  unfolding start_transfer transfer_of
  start_transfer-Follows accounts =
      search (calls_only, create_transfer-Follows, wait_after_error-Follows) depth 20

  is_due-Follows : (stamp : Option ℕ) → CallsOnly h (Follows external_wait_on_chain) (is_due stamp)
  unfolding is_due
  is_due-Follows none = search calls_only
  is_due-Follows (some t) = search calls_only depth 20

  -- Whatever the wallet service, Redis and the message queue answer, and whatever other methods do to
  -- the order while a handler waits, a handler asks for a change of state only from the state whose
  -- class declares it, and only along an edge of the diagram.
  pub handle_withdrawal-Follows : (e : Event) → CallsOnly h (Follows (state_of e)) (handle e)
  unfolding handle InternalWait.on_tick InternalWait.on_enter_state
      InternalWait.on_internal_chain_success_callback InternalWait.on_internal_chain_fail_callback
      ExternalWait.on_tick ExternalWait.on_enter_state ExternalWait.on_to_tx_start_callback
      ExternalWait.on_external_chain_success_callback ExternalWait.on_external_chain_fail_callback
      before_enter_pending after_enter_finally on_enter_success on_enter_external_fail
      on_enter_internal_fail change_state save
  handle_withdrawal-Follows internal_tick = search calls_only depth 20
  handle_withdrawal-Follows internal_enter = search calls_only depth 20
  handle_withdrawal-Follows (internal_succeeded trans) = search (calls_only, edges) depth 20
  handle_withdrawal-Follows (internal_failed trans) = search (calls_only, edges) depth 20
  handle_withdrawal-Follows external_tick = search (calls_only, is_due-Follows) depth 20
  handle_withdrawal-Follows external_enter = search (calls_only, edges, dev_test-Follows) depth 20
  handle_withdrawal-Follows (external_to_tx_start accounts) = start_transfer-Follows accounts
  handle_withdrawal-Follows (external_succeeded trans) = search (calls_only, edges) depth 20
  handle_withdrawal-Follows (external_failed trans) = search (calls_only, edges) depth 20
  handle_withdrawal-Follows enter_success = search calls_only depth 20
  handle_withdrawal-Follows enter_external_fail = search calls_only depth 20
  handle_withdrawal-Follows enter_internal_fail = search calls_only depth 20
