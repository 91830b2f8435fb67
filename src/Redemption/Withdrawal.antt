-- ===== src/Redemption/Withdrawal.antt =====
-- packages/server/src/module/redemption/redemption.service.ts: redemptionV2 and its private methods.
use cot_server.Base.{ℕ, String, not, none, some, truthy, if◌then◌else◌, text_or_empty}
use cot_server.Base.BigInt.{ℤ, pos, ltb_ℤ, leb_ℤ, is_zero, ◌-ℤ◌, ◌*ℤ◌, ◌/ℤ◌}
use cot_server.Base.BigIntText.{to_text}
use cot_server.Model.Chain.{ExternalChainName, InternalChainName, TransactionLinkType, OrderType}
use cot_server.Model.Wallet.{RedemptionTr, ToTrDetail, Fraction}
use cot_server.Model.Config.{RedemptionConfig}
use cot_server.Model.Redemption.{RedemptionOrder, RedemptionOrderStateId, destroy, TransDetail}
use cot_server.Host.{
  Host, Result, ok, err, undefined_value, division_by_zero, detail_error, redemption_closed,
  wallet_amount_not_positive, balance_too_small, trans_undefined, Service, pure, lift, or_throw,
  ◌then◌, host, ask, ask_now, call, throw_if, ◌>>=◌, ◌>>◌, new_order, get_recharge_config,
  external_contract_balance, external_balance, internal_balance, save_internal_transaction,
  save_entity, redemption_order, injected_external_address_obj,
}
use cot_server.OrderHelper.{big_int, get_internal_chain_destroy_asset_detail, token_info_of}
use cot_server.Verify.{verify_external_address}
use cot_server.Recharge.Helper.{check_chain_asset_item}
use cot_server.GlobalValue.Addresses.{injected_address}
use cot_server.Redemption.Helper.{
  is_redemption_dev_test, get_to_tr_detail, verify_redemption_trans_detail, get_main_asset_decimals,
}

-- The part of __verifyBalance for the platform's account on the external chain. Its address is
-- that of GlobalValueRedisRepository.getInjectExternalAddress, which may ask the order process.
unfoldable pub verify_platform_balance : TransDetail → Service (Unit {0})
verify_platform_balance detail = do
  let to = detail.to_detail
  address_obj ← ask (λ h. h.address_obj) injected_external_address_obj
  address ← lift (injected_address address_obj to.chain_name to.asset_type)
  balance_amount ←
      ask (λ h. h.text)
        (if truthy to.contract_address
          then external_contract_balance to.chain_name address (text_or_empty to.contract_address)
          else external_balance to.chain_name address)
  balance ← lift (big_int balance_amount)
  throw_if (ltb_ℤ balance detail.to_amount) balance_too_small

-- __verifyBalance
unfoldable pub verify_balance : TransDetail → Service (Unit {0})
unfolding verify_platform_balance
verify_balance detail = do
  let from = detail.from_detail
  balance_amount ← ask (λ h. h.text) (internal_balance from.chain_name from.from from.asset_type)
  balance ← lift (big_int balance_amount)
  amount ← lift (big_int from.amount)
  throw_if (ltb_ℤ balance amount) balance_too_small
  dev ← is_redemption_dev_test
  if dev then pure tt else verify_platform_balance detail

-- `a / b` on BigInts throws for b = 0.
unfoldable pub divide : ℤ → ℤ → Result ℤ
divide a b = if is_zero b then err division_by_zero else ok (a /ℤ b)

-- `BigInt(redemption.fee[chainName])`
unfoldable pub fee_on : RedemptionConfig → ExternalChainName → Result ℤ
fee_on redemption chain = elim (redemption.fee chain) [
  | none ↦ err undefined_value
  | some fee ↦ big_int fee
]

-- What is paid out of the amount: the fee of the chain and the part of the ratio are kept back.
pub record Payout : Type 0 where
  pub wallet_amount : ℤ
  pub minus_fee : ℤ
  pub redemption_fee : ℤ
  pub ratio : Fraction

-- The computation in __getRedemptionTransDetailV2.
unfoldable pub payout_of :
    Host → RedemptionConfig → ExternalChainName → (amount : String) → Result Payout
unfolding divide fee_on
payout_of h redemption chain amount = h.to_fraction redemption.radio_fee then λ ratio.
    fee_on redemption chain then λ redemption_fee. big_int amount then λ a.
    big_int ratio.numerator then λ n. big_int ratio.denominator then λ d.
    divide (a *ℤ n) d then λ minus_fee.
    let wallet_amount = a -ℤ redemption_fee -ℤ minus_fee in
    if leb_ℤ wallet_amount (pos 0)
    then err wallet_amount_not_positive
    else ok (record {
      wallet_amount = wallet_amount;
      minus_fee = minus_fee;
      redemption_fee = redemption_fee;
      ratio = ratio;
    })

-- The decimals of the asset that is paid out.
unfoldable pub decimals_of : ToTrDetail → Service ℕ
decimals_of to =
    if truthy to.contract_address
    then (do
      info ← token_info_of to.chain_name (text_or_empty to.contract_address)
      pure info.decimals)
    else lift (get_main_asset_decimals to.chain_name)

-- __getRedemptionTransDetailV2
unfoldable pub get_redemption_trans_detail : RedemptionTr → Service TransDetail
unfolding decimals_of
get_redemption_trans_detail from_tr_json = do
  h ← host
  recharge ← ask (λ h. h.config) get_recharge_config
  found ← or_throw (get_internal_chain_destroy_asset_detail h from_tr_json) detail_error
  let from = found.0
  item ← lift (check_chain_asset_item recharge from.chain_name from.asset_type)
  to ← lift (get_to_tr_detail found.1 item)
  throw_if (not item.redemption.enable) redemption_closed
  decimals ← decimals_of to
  payout ← lift (payout_of h item.redemption to.chain_name from.amount)
  to_amount ← lift (h.decimal_to_contract decimals payout.wallet_amount)
  pure (record {
    from_detail = from;
    to_detail = to;
    to_amount = to_amount;
    redemption_ratio = payout.ratio;
    redemption_fee = payout.redemption_fee;
  })

-- __verifyRedemptionParamV2
unfoldable pub verify_redemption_param : TransDetail → Service (Unit {0})
verify_redemption_param detail = do
  h ← host
  lift (verify_external_address h detail.to_detail.chain_name detail.to_detail.address)
  recharge ← ask (λ h. h.config) get_recharge_config
  item ←
      lift (
        check_chain_asset_item recharge detail.from_detail.chain_name detail.from_detail.asset_type)
  lift (verify_redemption_trans_detail detail item)
  verify_balance detail

-- __createInternalDestroyAssetTrans: the id of the saved transaction.
unfoldable pub create_internal_destroy_asset_trans :
    String → RedemptionTr → InternalChainName → Service String
create_internal_destroy_asset_trans order_id from_tr_json chain = do
  bcf ← or_throw from_tr_json.bcf trans_undefined
  ask (λ h. h.text)
      (save_internal_transaction chain bcf.tr_json
        (record { link_type = TransactionLinkType.redemption_order; link_id = order_id }))

-- The row of the order.
unfoldable pub order_of :
    Host → (entity_id redemption_tx_id : String) → ℤ → TransDetail → RedemptionOrder
order_of h entity_id redemption_tx_id amount detail = record {
  entity_id = entity_id;
  state = RedemptionOrderStateId.init;
  internal_chain = detail.from_detail.chain_name;
  internal_address = detail.from_detail.from;
  redemption_tx_id = redemption_tx_id;
  redemption_amount = amount;
  redemption_asset_type = detail.from_detail.asset_type;
  redemption_ratio =
      h.number_quotient detail.redemption_ratio.numerator detail.redemption_ratio.denominator;
  redemption_fee = detail.redemption_fee;
  wallet_address = detail.to_detail.address;
  wallet_chain = detail.to_detail.chain_name;
  wallet_tx_id = entity_id;
  contract_address = detail.to_detail.contract_address;
  wallet_amount = to_text detail.to_amount;
  wallet_asset = detail.to_detail.asset_type;
  redemption_type = destroy;
}

-- __createRedemptionOrderV2
unfoldable pub create_redemption_order : TransDetail → RedemptionTr → Service RedemptionOrder
create_redemption_order detail from_tr_json = do
  h ← host
  entity_id ← ask_now (λ h. h.text) (new_order OrderType.redemption)
  redemption_tx_id ←
      create_internal_destroy_asset_trans entity_id from_tr_json detail.from_detail.chain_name
  amount ← lift (big_int detail.from_detail.amount)
  call (save_entity (redemption_order (order_of h entity_id redemption_tx_id amount detail)))
  pure (order_of h entity_id redemption_tx_id amount detail)

-- redemptionV2: the id of the order.
unfoldable pub redemption_v2 : RedemptionTr → Service String
redemption_v2 from_tr_json = do
  detail ← get_redemption_trans_detail from_tr_json
  verify_redemption_param detail
  order ← create_redemption_order detail from_tr_json
  pure order.entity_id
