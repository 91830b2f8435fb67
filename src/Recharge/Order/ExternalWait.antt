-- ===== src/Recharge/Order/ExternalWait.antt =====
-- external-wait-on-chain.recharge-order-state.ts: the deposit is not yet on its chain.
use cot_server.Base.{String, true, not, str_eq, if◌then◌else◌}
use cot_server.Model.Wallet.{TransactionBase}
use cot_server.Model.Recharge.{
  external_wait_on_chain, external_on_chain_fail, internal_wait_on_chain,
}
use cot_server.Host.{
  create_external_trans_obj, tx_id_mismatch, Action, pure, get, put, call, throw_if, ◌>>=◌, ◌>>◌,
}
use cot_server.Recharge.Helper.{is_recharge_dev_test}
use cot_server.Recharge.Order.Obj.{RechargeOrderObj, change_state}

-- createExternalTransObj, and `createFromTxObjSuccess = true` once it has not thrown.
unfoldable pub create_from_tx_obj : Action RechargeOrderObj (Unit {0})
create_from_tx_obj = do
  o ← get
  call (create_external_trans_obj o.wallet_chain o.wallet_tx_id)
  o' ← get
  put (record o' { create_from_tx_obj_success = true })

-- onTick
unfoldable pub on_tick : Action RechargeOrderObj (Unit {0})
unfolding create_from_tx_obj
on_tick = do o ← get; if o.create_from_tx_obj_success then pure tt else create_from_tx_obj

-- onEnterState
unfoldable pub on_enter_state : Action RechargeOrderObj (Unit {0})
unfolding create_from_tx_obj
on_enter_state = do
  dev ← is_recharge_dev_test
  if dev then change_state internal_wait_on_chain external_wait_on_chain else create_from_tx_obj

-- __verifyTxId
unfoldable pub verify_tx_id : String → Action RechargeOrderObj (Unit {0})
verify_tx_id tx_id = do o ← get; throw_if (not (str_eq tx_id o.wallet_tx_id)) tx_id_mismatch

-- onExternalChainSuccessCallback
unfoldable pub on_external_chain_success_callback :
    TransactionBase → Action RechargeOrderObj (Unit {0})
unfolding verify_tx_id
on_external_chain_success_callback trans = do
  verify_tx_id trans.entity_id
  change_state internal_wait_on_chain external_wait_on_chain

-- onExternalChainFailCallback
unfoldable pub on_external_chain_fail_callback :
    TransactionBase → Action RechargeOrderObj (Unit {0})
unfolding verify_tx_id
on_external_chain_fail_callback trans = do
  verify_tx_id trans.entity_id
  change_state external_on_chain_fail external_wait_on_chain
