-- ===== src/Recharge/Order/InternalWait.antt =====
-- internal-wait-on-chain.recharge-order-state.ts: the asset is issued or transferred to the
-- receiver on the internal chain, and tried again when the chain refuses it.
use cot_server.Base.{
  ℕ, ◌+◌, String, Bool, true, false, not, ◌&&◌, Option, none, some, leb, truthy_number, str_eq,
  if◌then◌else◌,
}
use cot_server.Base.BigInt.{pos, ltb_ℤ, is_zero}
use cot_server.Model.Chain.{
  RwAccountType, rechargev2_account, airdrop_account, recharge_order_to_tx_start,
  recharge_order_try_transfer, TransactionLinkType, text_of_account_type,
}
use cot_server.Model.Wallet.{TransactionBase, LinkParam, InternalPayment}
use cot_server.Model.Recharge.{
  RechargeOrderStateId, internal_wait_on_chain, internal_on_chain_fail, success, RechargeType,
  issue, airdrop,
}
use cot_server.Host.{
  not_support_recharge_type, tx_id_mismatch, now, sleep, publish, get_recharge_config,
  wait_internal_queue, create_internal_increase_asset, create_internal_transfer,
  create_internal_trans_obj, Action, pure, throw, lift, host, get, put, call, ask, ask_now, Host,
  throw_if, when, ◌>>=◌, ◌>>◌, catch_rethrow,
}
use cot_server.Memory.{RwKeypairs, force_get_rw_keypair}
use cot_server.Recharge.Helper.{check_chain_asset_item}
use cot_server.Recharge.Order.Obj.{RechargeOrderObj, is_recharge_tx_finish, save, change_state}

abbrev pub concat : String → String → String
concat s t = Prim.Native.String.◌++◌ s t

unfoldable pub publish_try_transfer : Action RechargeOrderObj (Unit {0})
publish_try_transfer = do
  o ← get
  call (
      publish recharge_order_try_transfer
        (record { order_id = o.entity_id; account_type = some rechargev2_account }) true)

-- `stamp && Date.now() >= stamp`: the clock is read only when there is a stamp.
unfoldable pub is_due : Option ℕ → Action RechargeOrderObj Bool
is_due none = pure false
is_due (some stamp) =
    if truthy_number (some stamp)
    then (do time ← ask_now (λ h. h.number) now; pure (leb stamp time))
    else pure false

-- onTick
unfoldable pub on_tick : Action RechargeOrderObj (Unit {0})
unfolding is_due publish_try_transfer
on_tick = do
  o ← get
  due ← is_due o.retry_recharge_tx_stamp
  if due
      then (do put (record o { retry_recharge_tx_stamp = none }); publish_try_transfer)
      else pure tt

-- onEnterState does not wait for the queue: `after_queue_inited` runs later, on the object as it
-- is then.
unfoldable pub on_enter_state : Action RechargeOrderObj (Unit {0})
on_enter_state = do o ← get; call (wait_internal_queue o.entity_id)

abbrev pub is_internal_wait : RechargeOrderStateId → Bool
is_internal_wait internal_wait_on_chain = true
is_internal_wait _ = false

unfoldable pub after_queue_inited : Action RechargeOrderObj (Unit {0})
after_queue_inited = do
  o ← get
  if is_internal_wait o.cur_state_id
      then call (
          publish recharge_order_to_tx_start
            (record { order_id = o.entity_id; account_type = none }) true)
      else pure tt

-- onToTxStartCallback
unfoldable pub on_to_tx_start_callback : Action RechargeOrderObj (Unit {0})
unfolding publish_try_transfer
on_to_tx_start_callback = do
  h ← host
  o ← get
  if ltb_ℤ (pos 0) o.recharge_amount && not (is_recharge_tx_finish h o)
      then publish_try_transfer
      else pure tt

abbrev pub link_of : RechargeOrderObj → LinkParam
link_of o = record { link_type = TransactionLinkType.recharge_order; link_id = o.entity_id }

-- The last three statements of both branches: the new id is kept, and saved at once.
unfoldable pub keep_tx_id : String → Action RechargeOrderObj String
keep_tx_id tx_id = do
  o ← get
  put (record o { entity = record o.entity { recharge_tx_id = tx_id } })
  save
  pure tx_id

-- What is paid: the order's amount, to its internal address. `o` is the order as __startTransfer
-- has read it at its start.
unfoldable pub payment_of : RechargeOrderObj → (secret : String) → InternalPayment
payment_of o secret = record {
  chain_name = o.internal_chain;
  secret = secret;
  recipient_id = o.internal_address;
  amount = o.recharge_amount;
  asset_type = o.recharge_asset_type;
  param = link_of o;
}

-- The key of the platform account that issues the order's asset.
unfoldable pub issue_key : Host → RechargeOrderObj → String
issue_key h o = concat (text_of_account_type rechargev2_account) (
    concat "_"
      (concat (h.text_of_internal_chain o.internal_chain) (concat "_" o.recharge_asset_type)))

unfoldable pub issue_asset : RwKeypairs → Host → RechargeOrderObj → Action RechargeOrderObj String
issue_asset keypairs h o = do
  recharge ← ask (λ h. h.config) get_recharge_config
  account ← lift (force_get_rw_keypair h (issue_key h o) keypairs)
  item ← lift (check_chain_asset_item recharge o.internal_chain o.recharge_asset_type)
  tx_id ←
      ask (λ h. h.text)
        (create_internal_increase_asset (payment_of o account.secret) item.apply_address)
  keep_tx_id tx_id

unfoldable pub airdrop_asset : RwKeypairs → Host → RechargeOrderObj → Action RechargeOrderObj String
airdrop_asset keypairs h o = do
  account ← lift (force_get_rw_keypair h (text_of_account_type airdrop_account) keypairs)
  tx_id ← ask (λ h. h.text) (create_internal_transfer (payment_of o account.secret))
  keep_tx_id tx_id

-- The body of `try` in __startTransfer.
unfoldable pub create_transfer :
    RwKeypairs → Host → RechargeOrderObj → RechargeType → Action RechargeOrderObj String
create_transfer keypairs h o issue = issue_asset keypairs h o
create_transfer keypairs h o airdrop = airdrop_asset keypairs h o
create_transfer keypairs h o (RechargeType.other _) = throw not_support_recharge_type

-- The id of the transfer: the one that the order has, or that of a new transfer.
unfoldable pub transfer_tx_id :
    RwKeypairs → Host → RechargeOrderObj → Action RechargeOrderObj String
transfer_tx_id keypairs h o =
    if str_eq o.recharge_tx_id o.entity_id
    then catch_rethrow (create_transfer keypairs h o o.recharge_type)
        (call (sleep h.internal_retry_interval))
    else pure o.recharge_tx_id

-- The two early returns and the rest of __startTransfer, on the order as it was read.
unfoldable pub transfer_of :
    RwKeypairs → Host → RechargeOrderObj → Action RechargeOrderObj (Unit {0})
transfer_of keypairs h o =
    if is_zero o.recharge_amount
    then pure tt
    else if is_recharge_tx_finish h o
    then pure tt
    else (do
      tx_id ← transfer_tx_id keypairs h o
      call (create_internal_trans_obj o.internal_chain tx_id))

-- __startTransfer. Its `accountType` is not read.
unfoldable pub start_transfer : RwKeypairs → Action RechargeOrderObj (Unit {0})
start_transfer keypairs = do h ← host; o ← get; transfer_of keypairs h o

-- onInternalChainTryTransferCallback
unfoldable pub on_internal_chain_try_transfer_callback :
    RwKeypairs → RwAccountType → Action RechargeOrderObj (Unit {0})
on_internal_chain_try_transfer_callback keypairs account_type = start_transfer keypairs

-- __verifyTxId
unfoldable pub verify_tx_id : String → Action RechargeOrderObj (Unit {0})
verify_tx_id tx_id = do o ← get; throw_if (not (str_eq tx_id o.recharge_tx_id)) tx_id_mismatch

-- onInternalChainSuccessCallback
unfoldable pub on_internal_chain_success_callback :
    TransactionBase → Action RechargeOrderObj (Unit {0})
unfolding verify_tx_id
on_internal_chain_success_callback trans = do
  verify_tx_id trans.entity_id
  o ← get
  when (str_eq o.recharge_tx_id trans.entity_id)
      (put (record o { entity = record o.entity { recharge_tx_on_chain = true } }))
  save
  o' ← get
  if o'.recharge_tx_on_chain then change_state success internal_wait_on_chain else pure tt

-- __retryToTx
unfoldable pub retry_to_tx : Action RechargeOrderObj (Unit {0})
retry_to_tx = do
  h ← host
  o ← get
  time ← ask_now (λ h. h.number) now
  put (record o {
    retry_recharge_tx_stamp = some (time + h.internal_retry_interval);
    entity = record o.entity { recharge_tx_id = o.entity_id };
    retry_recharge_tx_num = o.retry_recharge_tx_num + 1;
  })
  save
  o' ← get
  if leb o'.retry_recharge_tx_num h.internal_retry_max
      then pure tt
      else if is_recharge_tx_finish h o'
      then change_state internal_on_chain_fail internal_wait_on_chain
      else pure tt

-- onInternalChainFailCallback
unfoldable pub on_internal_chain_fail_callback :
    TransactionBase → Action RechargeOrderObj (Unit {0})
unfolding verify_tx_id retry_to_tx
on_internal_chain_fail_callback trans = do
  verify_tx_id trans.entity_id
  o ← get
  if str_eq o.recharge_tx_id trans.entity_id then retry_to_tx else pure tt
