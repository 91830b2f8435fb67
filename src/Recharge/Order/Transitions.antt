-- ===== src/Recharge/Order/Transitions.antt =====
-- Which changes of state the handlers of a recharge order ask for.
use cot_server.Base.{ℕ, Option, none, some}
use cot_server.Model.Wallet.{TransactionBase}
use cot_server.Model.Recharge.{
  RechargeOrderStateId, external_wait_on_chain, internal_wait_on_chain, RechargeType, issue,
  airdrop,
}
use cot_server.Host.Keeps.{CallsOnly, calls_only}
use cot_server.Host.{Host}
use cot_server.Memory.{RwKeypairs}
use cot_server.Recharge.Helper.{is_recharge_dev_test}
use cot_server.Recharge.Order.Obj.{
  RechargeOrderObj, save, change_state, before_enter_pending, after_enter_finally,
}
use cot_server.Recharge.Order.Diagram.{Follows, edges}
use cot_server.Recharge.Order.ExternalWait
use cot_server.Recharge.Order.InternalWait
use cot_server.Recharge.Order.InternalWait.{
  create_transfer, start_transfer, keep_tx_id, issue_asset, airdrop_asset, transfer_tx_id,
  transfer_of, is_due,
}
use cot_server.Recharge.Order.Final.{
  on_enter_success, on_enter_external_fail, on_enter_internal_fail,
}
use cot_server.Recharge.Order.Events.{
  Event, external_tick, external_enter, external_succeeded, external_failed, internal_tick,
  internal_enter, internal_queue_inited, internal_to_tx_start, internal_try_transfer,
  internal_succeeded, internal_failed, enter_success, enter_external_fail, enter_internal_fail,
  state_of, handle,
}

module _ (h : Host) where
  dev_test-Follows :
      (s : RechargeOrderStateId)
      → CallsOnly {S = RechargeOrderObj} h (Follows s) is_recharge_dev_test
  unfolding is_recharge_dev_test
  dev_test-Follows s = search calls_only depth 20

  create_transfer-Follows :
      (keypairs : RwKeypairs) (o : RechargeOrderObj) (t : RechargeType)
      → CallsOnly h (Follows internal_wait_on_chain) (create_transfer keypairs h o t)
  unfolding create_transfer issue_asset airdrop_asset keep_tx_id save
  create_transfer-Follows keypairs o issue = search calls_only depth 20
  create_transfer-Follows keypairs o airdrop = search calls_only depth 20
  create_transfer-Follows keypairs o (RechargeType.other _) = search calls_only depth 20

  start_transfer-Follows :
      (keypairs : RwKeypairs)
      → CallsOnly h (Follows internal_wait_on_chain) (start_transfer keypairs)
  unfolding start_transfer transfer_of transfer_tx_id
  start_transfer-Follows keypairs = search (calls_only, create_transfer-Follows) depth 20

  external_tick-Follows : CallsOnly h (Follows external_wait_on_chain) ExternalWait.on_tick
  unfolding ExternalWait.on_tick
  external_tick-Follows = search calls_only depth 20

  external_enter-Follows : CallsOnly h (Follows external_wait_on_chain) ExternalWait.on_enter_state
  unfolding ExternalWait.on_enter_state change_state
  external_enter-Follows = search (calls_only, edges, dev_test-Follows) depth 20

  is_due-Follows : (stamp : Option ℕ) → CallsOnly h (Follows internal_wait_on_chain) (is_due stamp)
  unfolding is_due
  is_due-Follows none = search calls_only
  is_due-Follows (some t) = search calls_only depth 20

  internal_tick-Follows : CallsOnly h (Follows internal_wait_on_chain) InternalWait.on_tick
  unfolding InternalWait.on_tick InternalWait.publish_try_transfer
  internal_tick-Follows = search (calls_only, is_due-Follows) depth 20

  internal_succeeded-Follows :
      (trans : TransactionBase)
      → CallsOnly h
          (Follows internal_wait_on_chain)
          (InternalWait.on_internal_chain_success_callback trans)
  unfolding InternalWait.on_internal_chain_success_callback change_state save
  internal_succeeded-Follows trans = search (calls_only, edges) depth 20

  internal_failed-Follows :
      (trans : TransactionBase)
      → CallsOnly h
          (Follows internal_wait_on_chain)
          (InternalWait.on_internal_chain_fail_callback trans)
  unfolding InternalWait.on_internal_chain_fail_callback InternalWait.retry_to_tx change_state save
  internal_failed-Follows trans = search (calls_only, edges) depth 20

  -- Whatever the wallet service, Redis and the message queue answer, and whatever other methods do to
  -- the order while a handler waits, a handler asks for a change of state only from the state whose
  -- class declares it, and only along an edge of the diagram.
  pub handle-Follows : (e : Event) → CallsOnly h (Follows (state_of e)) (handle e)
  unfolding handle ExternalWait.on_external_chain_success_callback
      ExternalWait.on_external_chain_fail_callback InternalWait.on_enter_state
      InternalWait.after_queue_inited InternalWait.on_to_tx_start_callback
      InternalWait.on_internal_chain_try_transfer_callback before_enter_pending after_enter_finally
      on_enter_success on_enter_external_fail on_enter_internal_fail change_state
  handle-Follows external_tick = external_tick-Follows
  handle-Follows external_enter = search (calls_only, external_enter-Follows) depth 10
  handle-Follows internal_tick = internal_tick-Follows
  handle-Follows (internal_try_transfer keypairs _) = start_transfer-Follows keypairs
  handle-Follows (internal_succeeded trans) = internal_succeeded-Follows trans
  handle-Follows (internal_failed trans) = internal_failed-Follows trans
  handle-Follows (external_succeeded trans) = search (calls_only, edges) depth 20
  handle-Follows (external_failed trans) = search (calls_only, edges) depth 20
  handle-Follows internal_enter = search calls_only depth 20
  handle-Follows internal_queue_inited = search calls_only depth 20
  handle-Follows internal_to_tx_start = search calls_only depth 20
  handle-Follows enter_success = search calls_only depth 20
  handle-Follows enter_external_fail = search calls_only depth 20
  handle-Follows enter_internal_fail = search calls_only depth 20
