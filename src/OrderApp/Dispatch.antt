-- ===== src/OrderApp/Dispatch.antt =====
-- Which manager hears of a transaction.
use cot_server.Base.{◌≡◌, refl, Bool, true, false, String}
use cot_server.Model.Chain.{ExternalChainName, InternalChainName, TransactionLinkType, OrderType}
use cot_server.Model.Wallet.{TransactionBase}
use cot_server.Host.{
  Host, Call, on_chain_callback, save_entity, change_recharge_state, change_redemption_state,
  create_internal_increase_asset, create_internal_transfer, create_external_transfer,
}
use cot_server.Host.Keeps.{CallsOnly, calls_only}
use cot_server.OrderApp.{
  forward, forward_to, consume_external, consume_internal, external_success, external_fail,
  internal_success, internal_fail,
}

abbrev pub link_type_of : OrderType → TransactionLinkType
link_type_of OrderType.recharge = TransactionLinkType.recharge_order
link_type_of OrderType.redemption = TransactionLinkType.redemption_order

-- The only manager that hears of a transaction is the one for the orders of its link type, with the
-- chain's side and the status of the queue; no row is saved and nothing is paid.
abbrev pub Forwards : (external status : Bool) → Call → Type 0
Forwards external status (on_chain_callback e s type trans) =
    (e ≡ external) × (s ≡ status) × (trans.link_type ≡ link_type_of type)
Forwards external status (save_entity _) = ⊥
Forwards external status (change_recharge_state _ _ _) = ⊥
Forwards external status (change_redemption_state _ _ _) = ⊥
Forwards external status (create_internal_increase_asset _ _) = ⊥
Forwards external status (create_internal_transfer _) = ⊥
Forwards external status (create_external_transfer _) = ⊥
Forwards external status _ = Unit

module _ (h : Host) (status : Bool) where
  forward_to-Forwards :
      (external : Bool) (trans : TransactionBase) (type : TransactionLinkType)
      → trans.link_type ≡ type
      → CallsOnly h (Forwards external status) (forward_to external status trans type)
  unfolding forward_to
  forward_to-Forwards external trans TransactionLinkType.recharge_order e =
      search (calls_only, e) depth 10
  forward_to-Forwards external trans TransactionLinkType.redemption_order e =
      search (calls_only, e) depth 10
  forward_to-Forwards external trans TransactionLinkType.none e = search calls_only
  forward_to-Forwards external trans TransactionLinkType.other e = search calls_only

  forward-Forwards :
      (external : Bool) (trans : TransactionBase)
      → CallsOnly h (Forwards external status) (forward external status trans)
  unfolding forward
  forward-Forwards external trans = forward_to-Forwards external trans trans.link_type refl

module _ (h : Host) where
  -- Whatever the wallet answers, a message of one of the four queues of transactions is passed only to
  -- the manager whose orders the transaction's link type names, as a report from the queue's side, of
  -- a success from the two queues of successes and of a failure from the two queues of failures.
  pub consume-Forwards :
      (chain : ExternalChainName) (inner : InternalChainName) (tx_id : String)
      → CallsOnly h (Forwards true true) (consume_external external_success chain tx_id)
        × CallsOnly h (Forwards true false) (consume_external external_fail chain tx_id)
        × CallsOnly h (Forwards false true) (consume_internal internal_success inner tx_id)
        × CallsOnly h (Forwards false false) (consume_internal internal_fail inner tx_id)
  unfolding consume_external consume_internal
  consume-Forwards chain inner tx_id = (
    search (calls_only, forward-Forwards) depth 10,
    search (calls_only, forward-Forwards) depth 10,
    search (calls_only, forward-Forwards) depth 10,
    search (calls_only, forward-Forwards) depth 10,
  )
