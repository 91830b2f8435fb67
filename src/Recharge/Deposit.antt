-- ===== src/Recharge/Deposit.antt =====
-- packages/server/src/module/recharge/recharge.service.ts: rechargeV2 and its private methods. The
-- order of a deposit is created, and an airdrop order for an address that has none of the chain's
-- main asset.
use cot_server.Base.{
  ℕ, ◌*◌, String, false, not, ◌||◌, Option, none, some, truthy, str_eq, is_some, if◌then◌else◌,
  text_or_empty,
}
use cot_server.Base.BigInt.{pos, ltb_ℤ}
use cot_server.Base.BigIntText.{to_text}
use cot_server.Model.Chain.{
  ExternalChainName, eth, bsc, tron, TransactionLinkType, OrderType, truthy_chain,
}
use cot_server.Model.Wallet.{FromTrJson, ExternalTransDetail, ExternalTrJson, signed, tron_trans}
use cot_server.Model.Recharge.{
  RechargeOrder, RechargeOrderStateId, issue, airdrop, TransDetail, ToTrInfo, any_recharge,
  SignatureInfo, encode_message,
}
use cot_server.Host.{
  Host, Result, ok, err, response_error, recharge_tran_sign_missing, recharge_not_support_chain,
  not_support_chain, receiver_undefined, recharge_closed, detail_error, balance_too_small,
  not_bcf_address, Service, pure, lift, or_throw, host, ask, ask_now, call, throw_if, ◌>>=◌, ◌>>◌,
  random_one_to_ten, get_uuid, new_order, get_recharge_config, external_contract_balance,
  external_balance, internal_balance, save_external_transfer, save_entity, recharge_order,
  find_recharge_order, is_bcf_address,
}
use cot_server.OrderHelper.{big_int, get_external_chain_detail, token_info_of}
use cot_server.Verify.{verify_signature}
use cot_server.Recharge.Helper.{
  is_recharge_dev_test, check_chain_asset_item, verify_recharge_trans_detail,
  get_recharge_main_asset_type,
}

-- __verifyBalance
unfoldable pub verify_balance : TransDetail → Service (Unit {0})
verify_balance detail = do
  dev ← is_recharge_dev_test
  let from = detail.from_detail
  if dev then pure tt else (do
    balance_amount ←
        ask (λ h. h.text)
          (if truthy from.contract_address
            then external_contract_balance from.chain_name from.from
                (text_or_empty from.contract_address)
            else external_balance from.chain_name from.from)
    balance ← lift (big_int balance_amount)
    amount ← lift (big_int from.amount)
    throw_if (ltb_ℤ balance amount) balance_too_small)

unfoldable pub signed_trans : Option String → String → Result ExternalTrJson
signed_trans none tx_hash = err (response_error recharge_tran_sign_missing)
signed_trans (some sign_trans_data) tx_hash = ok (signed sign_trans_data tx_hash)

-- `fromTrJson.tron ?? fromTrJson.trc20`
unfoldable pub tron_transaction : Option String → Option String → Result ExternalTrJson
tron_transaction (some t) _ = ok (tron_trans t)
tron_transaction none (some t) = ok (tron_trans t)
tron_transaction none none = err (response_error recharge_tran_sign_missing)

-- `getTrJson` of __createExternalTrans
unfoldable pub get_tr_json : ExternalChainName → FromTrJson → String → Result ExternalTrJson
unfolding signed_trans tron_transaction
get_tr_json eth from_tr_json tx_hash = signed_trans from_tr_json.eth tx_hash
get_tr_json bsc from_tr_json tx_hash = signed_trans from_tr_json.bsc tx_hash
get_tr_json tron from_tr_json tx_hash = tron_transaction from_tr_json.tron from_tr_json.trc20
get_tr_json (ExternalChainName.other _) from_tr_json tx_hash =
    err (response_error recharge_not_support_chain)

-- __createExternalTrans: the id of the saved transaction.
unfoldable pub create_external_trans : String → FromTrJson → TransDetail → Service String
create_external_trans order_id from_tr_json detail = do
  dev ← is_recharge_dev_test
  let from = detail.from_detail
  if dev then ask_now (λ h. h.text) get_uuid else (do
    tr_json ← lift (get_tr_json from.chain_name from_tr_json from.tx_hash)
    ask (λ h. h.text)
        (save_external_transfer from.chain_name tr_json from detail.from_asset_symbol
          (record { link_type = TransactionLinkType.recharge_order; link_id = order_id })))

-- The detail that is made up in a development test.
unfoldable pub dev_detail : ToTrInfo → Service TransDetail
dev_detail to = do
  n ← ask_now (λ h. h.number) random_one_to_ten
  let amount = to_text (pos (n * 100000000))
  uuid ← ask_now (λ h. h.text) get_uuid
  to_amount ← lift (big_int amount)
  pure (record {
    from_detail = record {
      chain_name = eth;
      from = "0x785f8ee0c83ab7cf398008d0428233fc17735521";
      to = "0xf563CEa8C4777E2E32629a9FBba7B1E91C182e56";
      amount = amount;
      contract_address = none;
      tx_hash = uuid;
    };
    to_detail = to;
    from_asset_symbol = "USDT";
    from_decimals = 18;
    to_amount = to_amount;
  })

-- The symbol and the decimals of a chain's main asset.
unfoldable pub main_asset : Host → ExternalChainName → Result (String × ℕ)
main_asset h bsc = ok (h.asset_bnb, 18)
main_asset h eth = ok (h.asset_eth, 18)
main_asset h tron = ok (h.asset_trx, 6)
main_asset h (ExternalChainName.other _) = err not_support_chain

-- The symbol and the decimals of the asset that is deposited.
unfoldable pub symbol_of : ExternalTransDetail → Service (String × ℕ)
symbol_of from = do
  h ← host
  if not (truthy from.contract_address) then lift (main_asset h from.chain_name) else (do
    info ← token_info_of from.chain_name (text_or_empty from.contract_address)
    pure (info.symbol, info.decimals))

-- The part of __getRechargeTransDetailV2 outside of a development test.
unfoldable pub read_detail : FromTrJson → ToTrInfo → Service TransDetail
read_detail from_tr_json to = do
  h ← host
  recharge ← ask (λ h. h.config) get_recharge_config
  item ← lift (check_chain_asset_item recharge to.chain_name to.asset_type)
  throw_if (not (truthy_chain to.chain_name) || str_eq to.address "") receiver_undefined
  throw_if (not item.enable) recharge_closed
  found ← get_external_chain_detail from_tr_json item
  from ← or_throw found detail_error
  asset ← symbol_of from
  to_amount ← lift (h.decimal_to_bcf asset.1 from.amount)
  pure (record {
    from_detail = from;
    to_detail = to;
    from_asset_symbol = asset.0;
    from_decimals = asset.1;
    to_amount = to_amount;
  })

-- __getRechargeTransDetailV2
unfoldable pub get_recharge_trans_detail : FromTrJson → ToTrInfo → Service TransDetail
get_recharge_trans_detail from_tr_json to = do
  dev ← is_recharge_dev_test
  if dev then dev_detail to else read_detail from_tr_json to

-- __verifyRechargeParamV2
unfoldable pub verify_recharge_param : TransDetail → Service (Unit {0})
verify_recharge_param detail = do
  h ← host
  recharge ← ask (λ h. h.config) get_recharge_config
  lift (verify_recharge_trans_detail h detail recharge)
  verify_balance detail

-- The row of a deposit's order.
unfoldable pub order_of : (entity_id wallet_tx_id : String) → TransDetail → RechargeOrder
order_of entity_id wallet_tx_id detail = record {
  entity_id = entity_id;
  state = RechargeOrderStateId.init;
  wallet_address = some detail.from_detail.from;
  wallet_chain = some detail.from_detail.chain_name;
  wallet_tx_id = wallet_tx_id;
  wallet_amount = some detail.from_detail.amount;
  wallet_asset = some detail.from_asset_symbol;
  wallet_decimals = some detail.from_decimals;
  contract_address = detail.from_detail.contract_address;
  internal_chain = detail.to_detail.chain_name;
  internal_address = detail.to_detail.address;
  recharge_tx_id = entity_id;
  recharge_amount = detail.to_amount;
  recharge_tx_on_chain = false;
  recharge_asset_type = detail.to_detail.asset_type;
  recharge_type = issue;
}

-- __createRechargeOrderV2
unfoldable pub create_recharge_order : TransDetail → FromTrJson → Service RechargeOrder
create_recharge_order detail from_tr_json = do
  entity_id ← ask_now (λ h. h.text) (new_order OrderType.recharge)
  wallet_tx_id ← create_external_trans entity_id from_tr_json detail
  call (save_entity (recharge_order (order_of entity_id wallet_tx_id detail)))
  pure (order_of entity_id wallet_tx_id detail)

-- The row of an airdrop order.
unfoldable pub airdrop_order : String → ToTrInfo → (main_asset_type : String) → RechargeOrder
airdrop_order entity_id to main_asset_type = record {
  entity_id = entity_id;
  state = RechargeOrderStateId.init;
  wallet_address = none;
  wallet_chain = none;
  wallet_tx_id = entity_id;
  wallet_amount = none;
  wallet_asset = none;
  wallet_decimals = none;
  contract_address = none;
  internal_chain = to.chain_name;
  internal_address = to.address;
  recharge_tx_id = entity_id;
  recharge_amount = pos 1000000;
  recharge_tx_on_chain = false;
  recharge_asset_type = main_asset_type;
  recharge_type = airdrop;
}

-- __createRechargeAirDropOrderV2
unfoldable pub create_airdrop_order : TransDetail → Service (Unit {0})
create_airdrop_order detail = do
  h ← host
  let to = detail.to_detail
  main_asset_type ← lift (get_recharge_main_asset_type h to.chain_name)
  balance_amount ← ask (λ h. h.text) (internal_balance to.chain_name to.address main_asset_type)
  balance ← lift (big_int balance_amount)
  if ltb_ℤ (pos 0) balance then pure tt else (do
    found ←
        ask (λ h. h.recharge_row)
          (find_recharge_order (record any_recharge {
            internal_address = some to.address;
            recharge_type = some airdrop;
          }))
    if is_some found then pure tt else (do
      entity_id ← ask_now (λ h. h.text) (new_order OrderType.recharge)
      call (save_entity (recharge_order (airdrop_order entity_id to main_asset_type)))))

-- The end of rechargeV2: both orders, and the id of the first.
unfoldable pub create_orders : TransDetail → FromTrJson → Service String
create_orders detail from_tr_json = do
  order ← create_recharge_order detail from_tr_json
  create_airdrop_order detail
  pure order.entity_id

-- rechargeV2: the id of the order.
unfoldable pub recharge_v2 : FromTrJson → ToTrInfo → Service String
recharge_v2 from_tr_json message = do
  detail ← get_recharge_trans_detail from_tr_json message
  verify_recharge_param detail
  create_orders detail from_tr_json

-- RechargeController.rechargeV2 of recharge.controller.ts
unfoldable pub recharge_request : FromTrJson → ToTrInfo → SignatureInfo → Service String
recharge_request from_tr_json message info = do
  valid ← ask (λ h. h.flag) (is_bcf_address message.address)
  throw_if (not valid) not_bcf_address
  verify_signature info (encode_message message) message.address
  recharge_v2 from_tr_json message
