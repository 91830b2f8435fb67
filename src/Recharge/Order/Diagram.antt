-- ===== src/Recharge/Order/Diagram.antt =====
-- The diagram of a recharge order, as the doc comments of the states and of
-- RECHARGE_ORDER_STATE_ID describe it.
use cot_server.Base.{◌≡◌}
use cot_server.Model.Recharge.{
  RechargeOrderStateId, external_wait_on_chain, external_on_chain_fail, internal_wait_on_chain,
  internal_on_chain_fail, success,
}
use cot_server.Host.{Call, change_recharge_state}

pub data Edge : RechargeOrderStateId → RechargeOrderStateId → Type 0 where
  deposited : Edge external_wait_on_chain internal_wait_on_chain
  deposit_failed : Edge external_wait_on_chain external_on_chain_fail
  paid_out : Edge internal_wait_on_chain success
  payout_failed : Edge internal_wait_on_chain internal_on_chain_fail

-- A call asks for no change of state, or for one along an edge that leaves `s`.
abbrev pub Follows : RechargeOrderStateId → Call → Type 0
Follows s (change_recharge_state _ to from) = (from ≡ s) × Edge from to
Follows s _ = Unit

pub ruleset edges = (deposited, deposit_failed, paid_out, payout_failed)
