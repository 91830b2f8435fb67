-- ===== src/Redemption/Order/Diagram.antt =====
-- The diagram of a redemption order, as the doc comments of the states and of
-- REDEMPTION_ORDER_STATE_ID describe it.
use cot_server.Base.{◌≡◌}
use cot_server.Model.Redemption.{
  RedemptionOrderStateId, internal_wait_on_chain, internal_on_chain_fail, external_wait_on_chain,
  external_on_chain_fail, success,
}
use cot_server.Host.{Call, change_redemption_state}

pub data Edge : RedemptionOrderStateId → RedemptionOrderStateId → Type 0 where
  destroyed : Edge internal_wait_on_chain external_wait_on_chain
  destroy_failed : Edge internal_wait_on_chain internal_on_chain_fail
  paid_out : Edge external_wait_on_chain success
  payout_failed : Edge external_wait_on_chain external_on_chain_fail

-- A call asks for no change of state, or for one along an edge that leaves `s`.
abbrev pub Follows : RedemptionOrderStateId → Call → Type 0
Follows s (change_redemption_state _ to from) = (from ≡ s) × Edge from to
Follows s _ = Unit

pub ruleset edges = (destroyed, destroy_failed, paid_out, payout_failed)
