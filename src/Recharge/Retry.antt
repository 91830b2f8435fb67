-- ===== src/Recharge/Retry.antt =====
-- packages/server/src/module/recharge/recharge.service.ts: an administrator sets a failed order
-- going again.
pub mod Moves
use cot_server.Base.{String, Bool, true, not, some, [], ◌∷◌}
use cot_server.Model.Chain.{OrderType}
use cot_server.Model.Recharge.{
  external_wait_on_chain, external_on_chain_fail, internal_wait_on_chain, internal_on_chain_fail,
  any_recharge, RechargeOrderStateId,
}
use cot_server.Host.{
  update_trans_failed, update_order_failed, Service, pure, ask, throw_if, ◌>>=◌, ◌>>◌,
  find_recharge_order, reset_external_trans, update_recharge_state,
}
use cot_server.OrderHelper.{create_order_object}

-- `update({ entityId, state: from }, { state: to })`, and an error if no row has changed.
unfoldable pub move_row : String → (from to : RechargeOrderStateId) → Service (Unit {0})
move_row order_id from to = do
  affected ← ask (λ h. h.flag) (update_recharge_state order_id from to)
  throw_if (not affected) update_order_failed

-- retryExternalOnChain
unfoldable pub retry_external_on_chain : String → Service Bool
unfolding move_row
retry_external_on_chain order_id = do
  o ←
      ask (λ h. h.recharge_row_force)
        (find_recharge_order (record any_recharge {
          entity_id = some order_id;
          state = some (external_on_chain_fail ∷ []);
        }))
  reset ← ask (λ h. h.flag) (reset_external_trans o.wallet_chain o.wallet_tx_id)
  throw_if (not reset) update_trans_failed
  move_row order_id external_on_chain_fail external_wait_on_chain
  create_order_object OrderType.recharge order_id
  pure true

-- retryInternalOnChain
unfoldable pub retry_internal_on_chain : String → Service Bool
unfolding move_row
retry_internal_on_chain order_id = do
  move_row order_id internal_on_chain_fail internal_wait_on_chain
  create_order_object OrderType.recharge order_id
  pure true
