-- ===== src/Redemption/Retry.antt =====
-- packages/server/src/module/redemption/redemption.service.ts: an administrator sets a failed order
-- going again.
pub mod Moves
use cot_server.Base.{String, Bool, true, not, some, [], ◌∷◌}
use cot_server.Model.Chain.{OrderType}
use cot_server.Model.Redemption.{
  external_wait_on_chain, external_on_chain_fail, internal_wait_on_chain, internal_on_chain_fail,
  any_redemption, RedemptionOrderStateId,
}
use cot_server.Host.{
  update_trans_failed, update_order_failed, Service, pure, ask, throw_if, ◌>>=◌, ◌>>◌,
  find_redemption_order, reset_internal_trans, update_redemption_state,
}
use cot_server.OrderHelper.{create_order_object}

-- `update({ entityId, state: from }, { state: to })`, and an error if no row has changed.
unfoldable pub move_row : String → (from to : RedemptionOrderStateId) → Service (Unit {0})
move_row order_id from to = do
  affected ← ask (λ h. h.flag) (update_redemption_state order_id from to)
  throw_if (not affected) update_order_failed

-- retryInternalOnChain
unfoldable pub retry_internal_on_chain : String → Service Bool
unfolding move_row
retry_internal_on_chain order_id = do
  o ←
      ask (λ h. h.redemption_row_force)
        (find_redemption_order (record any_redemption {
          entity_id = some order_id;
          state = some (internal_on_chain_fail ∷ []);
        }))
  reset ← ask (λ h. h.flag) (reset_internal_trans o.internal_chain o.redemption_tx_id)
  throw_if (not reset) update_trans_failed
  move_row order_id internal_on_chain_fail internal_wait_on_chain
  create_order_object OrderType.redemption order_id
  pure true

-- retryExternalOnChain
unfoldable pub retry_external_on_chain : String → Service Bool
unfolding move_row
retry_external_on_chain order_id = do
  move_row order_id external_on_chain_fail external_wait_on_chain
  create_order_object OrderType.redemption order_id
  pure true
