-- ===== src/Redemption/Order/InternalWait.antt =====
-- internal-wait-on-chain.redemption-order-state.ts: the destruction of the asset is not yet on its
-- chain.
use cot_server.Base.{String, true, not, str_eq, if◌then◌else◌}
use cot_server.Model.Wallet.{TransactionBase}
use cot_server.Model.Redemption.{
  internal_wait_on_chain, internal_on_chain_fail, external_wait_on_chain,
}
use cot_server.Host.{
  create_internal_trans_obj, tx_id_mismatch, Action, pure, get, put, call, throw_if, ◌>>=◌, ◌>>◌,
}
use cot_server.Redemption.Order.Obj.{RedemptionOrderObj, change_state}

-- onEnterState
unfoldable pub on_enter_state : Action RedemptionOrderObj (Unit {0})
on_enter_state = do
  o ← get
  call (create_internal_trans_obj o.internal_chain o.redemption_tx_id)
  o' ← get
  put (record o' { create_from_tx_obj_success = true })

-- onTick
unfoldable pub on_tick : Action RedemptionOrderObj (Unit {0})
unfolding on_enter_state
on_tick = do o ← get; if o.create_from_tx_obj_success then pure tt else on_enter_state

-- __verifyTxId
unfoldable pub verify_tx_id : String → Action RedemptionOrderObj (Unit {0})
verify_tx_id tx_id = do o ← get; throw_if (not (str_eq tx_id o.redemption_tx_id)) tx_id_mismatch

-- onInternalChainSuccessCallback
unfoldable pub on_internal_chain_success_callback :
    TransactionBase → Action RedemptionOrderObj (Unit {0})
unfolding verify_tx_id
on_internal_chain_success_callback trans = do
  verify_tx_id trans.entity_id
  change_state external_wait_on_chain internal_wait_on_chain

-- onInternalChainFailCallback
unfoldable pub on_internal_chain_fail_callback :
    TransactionBase → Action RedemptionOrderObj (Unit {0})
unfolding verify_tx_id
on_internal_chain_fail_callback trans = do
  verify_tx_id trans.entity_id
  change_state internal_on_chain_fail internal_wait_on_chain
