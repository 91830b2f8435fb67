-- ===== src/Redemption/Order/ExternalWait.antt =====
-- external-wait-on-chain.redemption-order-state.ts: the asset is paid out on the external chain, and
-- tried again when the chain refuses it.
use cot_server.Base.{
  ℕ, ◌+◌, ◌*◌, String, Bool, true, false, not, Option, none, some, leb, truthy_number, str_eq,
  if◌then◌else◌,
}
use cot_server.Model.Chain.{redemption_order_to_tx_start, TransactionLinkType, is_tron}
use cot_server.Model.Wallet.{TransactionBase, ExternalPayment, WalletAccount}
use cot_server.Model.Redemption.{external_wait_on_chain, external_on_chain_fail, success}
use cot_server.Host.{
  Host, tx_id_mismatch, now, sleep, publish, create_external_transfer, create_external_trans_obj,
  external_forge_interval, Action, pure, lift, host, get, put, call, ask, ask_now, throw_if, ◌>>=◌,
  ◌>>◌, catch_rethrow,
}
use cot_server.GlobalValue.{ExternalAccounts, external_keypair}
use cot_server.Redemption.Helper.{is_redemption_dev_test}
use cot_server.Redemption.Order.Obj.{RedemptionOrderObj, save, change_state}

unfoldable pub publish_to_tx_start : Action RedemptionOrderObj (Unit {0})
publish_to_tx_start = do
  o ← get
  call (
      publish redemption_order_to_tx_start (record { order_id = o.entity_id; account_type = none })
        true)

-- `stamp && Date.now() >= stamp`: the clock is read only when there is a stamp.
unfoldable pub is_due : Option ℕ → Action RedemptionOrderObj Bool
is_due none = pure false
is_due (some stamp) =
    if truthy_number (some stamp)
    then (do time ← ask_now (λ h. h.number) now; pure (leb stamp time))
    else pure false

-- onTick
unfoldable pub on_tick : Action RedemptionOrderObj (Unit {0})
unfolding publish_to_tx_start
on_tick = do
  o ← get
  due ← is_due o.retry_to_tx_stamp
  if due then (do put (record o { retry_to_tx_stamp = none }); publish_to_tx_start) else pure tt

-- onEnterState
unfoldable pub on_enter_state : Action RedemptionOrderObj (Unit {0})
unfolding publish_to_tx_start
on_enter_state = do
  dev ← is_redemption_dev_test
  if dev then change_state success external_wait_on_chain else publish_to_tx_start

-- What is paid: the order's amount of its asset, to its external address. `o` is the order as
-- __startTransfer has read it at its start.
unfoldable pub payment_of : RedemptionOrderObj → WalletAccount → ExternalPayment
payment_of o account = record {
  chain_name = o.wallet_chain;
  account = account;
  recipient_id = o.wallet_address;
  contract_address = o.contract_address;
  amount = o.wallet_amount;
  param = record { link_type = TransactionLinkType.redemption_order; link_id = o.entity_id };
}

-- The body of `try` in __startTransfer: the new id is kept, and saved at once.
unfoldable pub create_transfer :
    ExternalAccounts → RedemptionOrderObj → Action RedemptionOrderObj (Unit {0})
create_transfer accounts o = do
  account ← lift (external_keypair accounts o.wallet_chain o.wallet_asset)
  tx_id ← ask (λ h. h.text) (create_external_transfer (payment_of o account))
  o' ← get
  put (record o' { entity = record o'.entity { wallet_tx_id = tx_id } })
  save

-- The wait in `catch`.
unfoldable pub wait_after_error : Host → RedemptionOrderObj → Action RedemptionOrderObj (Unit {0})
wait_after_error h o =
    if not (is_tron o.wallet_chain)
    then (do
      interval ← ask (λ h. h.number) (external_forge_interval o.wallet_chain)
      call (sleep (interval * 1000)))
    else call (sleep h.external_retry_interval)

-- __startTransfer, on the order as it was read. The last call reads the id anew.
unfoldable pub transfer_of :
    ExternalAccounts → Host → RedemptionOrderObj → Action RedemptionOrderObj (Unit {0})
transfer_of accounts h o = do
  if str_eq o.wallet_tx_id o.entity_id
      then catch_rethrow (create_transfer accounts o) (wait_after_error h o)
      else pure tt
  o' ← get
  call (create_external_trans_obj (some o.wallet_chain) o'.wallet_tx_id)

-- __startTransfer
unfoldable pub start_transfer : ExternalAccounts → Action RedemptionOrderObj (Unit {0})
start_transfer accounts = do h ← host; o ← get; transfer_of accounts h o

-- onToTxStartCallback
unfoldable pub on_to_tx_start_callback : ExternalAccounts → Action RedemptionOrderObj (Unit {0})
on_to_tx_start_callback accounts = start_transfer accounts

-- __verifyTxId
unfoldable pub verify_tx_id : String → Action RedemptionOrderObj (Unit {0})
verify_tx_id tx_id = do o ← get; throw_if (not (str_eq tx_id o.wallet_tx_id)) tx_id_mismatch

-- onExternalChainSuccessCallback
unfoldable pub on_external_chain_success_callback :
    TransactionBase → Action RedemptionOrderObj (Unit {0})
unfolding verify_tx_id
on_external_chain_success_callback trans = do
  verify_tx_id trans.entity_id
  change_state success external_wait_on_chain

-- __retryToTx
unfoldable pub retry_to_tx : Action RedemptionOrderObj (Unit {0})
retry_to_tx = do
  h ← host
  o ← get
  time ← ask_now (λ h. h.number) now
  put (record o {
    retry_to_tx_stamp = some (time + h.external_retry_interval);
    entity = record o.entity { wallet_tx_id = o.entity_id };
    retry_to_tx_num = o.retry_to_tx_num + 1;
  })
  save
  o' ← get
  if leb o'.retry_to_tx_num h.external_retry_max
      then pure tt
      else change_state external_on_chain_fail external_wait_on_chain

-- onExternalChainFailCallback
unfoldable pub on_external_chain_fail_callback :
    TransactionBase → Action RedemptionOrderObj (Unit {0})
unfolding verify_tx_id retry_to_tx
on_external_chain_fail_callback trans = do verify_tx_id trans.entity_id; retry_to_tx
