-- ===== src/OrderApp.antt =====
-- packages/server/src/cluster/order/order.app.ts: reports about transactions go to the manager of
-- their order, and the order process waits until no report of the internal chain is left over.
pub mod Queues
pub mod Dispatch
pub mod Start
pub mod Connections
pub mod Ready
use cot_server.Base.{ℕ, zero, suc, String, Bool, true, false, ◌&&◌, ◌==◌, if◌then◌else◌}
use cot_server.Model.Chain.{
  ExternalChainName, InternalChainName, AnyChainName, TransactionLinkType, OrderType,
}
use cot_server.Model.Wallet.{TransactionBase}
use cot_server.Host.{
  Service, pure, ask, call, catch_with, ◌>>=◌, ◌>>◌, on_chain_callback, external_trans_info,
  internal_trans_info, queue_message_count, sleep,
}

forward_to : Bool → Bool → TransactionBase → TransactionLinkType → Service (Unit {0})
forward_to external status trans TransactionLinkType.recharge_order =
    call (on_chain_callback external status OrderType.recharge trans)
forward_to external status trans TransactionLinkType.redemption_order =
    call (on_chain_callback external status OrderType.redemption trans)
forward_to external status trans TransactionLinkType.none = pure tt
forward_to external status trans TransactionLinkType.other = pure tt

-- `__onExternalChainCallback` and `__onInternalChainCallback`
unfoldable pub forward : (external status : Bool) → TransactionBase → Service (Unit {0})
unfolding forward_to
forward external status trans = forward_to external status trans trans.link_type

-- TRANS_QUEUE_ROUTING_KEY: the queues of the external chains and of the internal chain.
pub data ExternalQueue : Type 0 where
  external_success external_fail : ExternalQueue

pub data InternalQueue : Type 0 where
  internal_success internal_fail : InternalQueue

-- __processExternalOnChain: the consumer of each queue.
unfoldable pub consume_external : ExternalQueue → ExternalChainName → String → Service (Unit {0})
consume_external external_success chain tx_id = do
  trans ← ask (λ h. h.transaction) (external_trans_info chain tx_id)
  forward true true trans
consume_external external_fail chain tx_id = do
  trans ← ask (λ h. h.transaction) (external_trans_info chain tx_id)
  forward true false trans

-- __processInternalOnChain
unfoldable pub consume_internal : InternalQueue → InternalChainName → String → Service (Unit {0})
consume_internal internal_success chain tx_id = do
  trans ← ask (λ h. h.transaction) (internal_trans_info (AnyChainName.internal chain) tx_id)
  forward false true trans
consume_internal internal_fail chain tx_id = do
  trans ← ask (λ h. h.transaction) (internal_trans_info (AnyChainName.internal chain) tx_id)
  forward false false trans

counts_are_zero : Service Bool
counts_are_zero = do
  successes ← ask (λ h. h.number) (queue_message_count true)
  failures ← ask (λ h. h.number) (queue_message_count false)
  pure (successes == 0 && failures == 0)

-- One round of the loop in checkInternalOnChainQueueInited; an error counts as messages left.
unfoldable pub queues_are_empty : Service Bool
unfolding counts_are_zero
queues_are_empty = catch_with counts_are_zero false

-- `await sleep(1000)`, which does not throw.
unfoldable pub wait_a_second : Service (Unit {0})
wait_a_second = catch_with (call (sleep 1000)) tt

-- The end of a round: `break`, or a second's wait and the `rest` of the rounds.
unfoldable pub after_round : Service Bool → Bool → Service Bool
after_round rest empty = if empty then pure true else (wait_a_second >> rest)

-- checkInternalOnChainQueueInited for at most so many rounds: true once the loop has ended.
unfoldable pub check_queue_inited : (rounds : ℕ) → Service Bool
unfolding after_round
check_queue_inited zero = pure false
check_queue_inited (suc rounds) =
    let rest = check_queue_inited rounds in queues_are_empty >>= after_round rest
