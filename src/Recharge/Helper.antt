-- ===== src/Recharge/Helper.antt =====
-- packages/server/src/helper/recharge.helper.ts
use cot_server.Base.{
  String, Bool, false, not, Option, none, some, List, [], ◌∷◌, lookup, truthy, text_or_empty,
  str_eq, if◌then◌else◌,
}
use cot_server.Model.Chain.{InternalChainName, pmchain, biwmeta}
use cot_server.Model.Config.{
  ExternalAssetInfoItem, RechargeItem, RechargeObject, chain_items, support_item, AssetItems,
}
use cot_server.Model.Recharge.{
  RechargeOrderStateId, init, external_wait_on_chain, external_on_chain_fail,
  internal_wait_on_chain, internal_on_chain_fail, success, RechargeRecordState, pending,
  to_be_posted, posted, fail, TransDetail,
}
use cot_server.Host.{
  Host, Result, ok, err, wrong_state, wrong_record_state, config_chain_error, config_asset_error,
  not_support_chain, deposit_mismatch, contract_empty, contract_mismatch, redis_exists, redis_get,
  ◌then◌, Action, pure, host, ask, ◌>>=◌,
}

-- isRechargeDevTest: only in a development process, and switched by a key in Redis.
unfoldable pub is_recharge_dev_test : {S : Type 0} → Action S Bool
is_recharge_dev_test = do
  h ← host
  if not h.is_dev then pure false else do
    there ← ask (λ h. h.flag) (redis_exists "rechargeDevTest")
    if not there then pure false else do
      value ← ask (λ h. h.optional_text) (redis_get "rechargeDevTest")
      pure (not (elim value [ none ↦ false | some v ↦ str_eq v "0" ]))

-- getRecordState
unfoldable pub get_record_state : RechargeOrderStateId → Result RechargeRecordState
get_record_state init = ok pending
get_record_state external_wait_on_chain = ok pending
get_record_state internal_wait_on_chain = ok to_be_posted
get_record_state success = ok posted
get_record_state external_on_chain_fail = ok fail
get_record_state internal_on_chain_fail = ok fail
get_record_state (RechargeOrderStateId.other _) = err wrong_state

-- getOrderStateArray
unfoldable pub get_order_state_array : RechargeRecordState → Result (List RechargeOrderStateId)
get_order_state_array pending = ok (init ∷ external_wait_on_chain ∷ [])
get_order_state_array to_be_posted = ok (internal_wait_on_chain ∷ [])
get_order_state_array posted = ok (success ∷ [])
get_order_state_array fail = ok (external_on_chain_fail ∷ internal_on_chain_fail ∷ [])
get_order_state_array (RechargeRecordState.other _) = err wrong_record_state

item_of_asset : String → AssetItems → Result RechargeItem
item_of_asset asset items = elim (lookup asset items) [
  | none ↦ err config_asset_error
  | some item ↦ ok item
]

-- checkChainAssetItem
unfoldable pub check_chain_asset_item :
    RechargeObject → InternalChainName → String → Result RechargeItem
unfolding item_of_asset
check_chain_asset_item recharge chain asset = elim (chain_items chain recharge) [
  | none ↦ err config_chain_error
  | some items ↦ item_of_asset asset items
]

-- The contract's part of verifyRechargeTransDetailV2; an item with no contract takes any token.
unfoldable pub verify_contract : Host → Option String → Option String → Result (Unit {0})
verify_contract h contract contract_address =
    if not (truthy contract)
    then ok tt
    else if not (truthy contract_address)
    then err contract_empty
    else if not (h.same_lower_case (text_or_empty contract) (text_or_empty contract_address))
    then err contract_mismatch
    else ok tt

unfoldable pub support_or_error : Option ExternalAssetInfoItem → Result ExternalAssetInfoItem
support_or_error none = err not_support_chain
support_or_error (some item) = ok item

unfoldable pub verify_deposit :
    Host → ExternalAssetInfoItem → String → Option String → Result (Unit {0})
unfolding verify_contract
verify_deposit h item to contract_address =
    if not (h.same_lower_case item.deposit_address to)
    then err deposit_mismatch
    else verify_contract h item.contract contract_address

-- verifyRechargeTransDetailV2
unfoldable pub verify_recharge_trans_detail :
    Host → TransDetail → RechargeObject → Result (Unit {0})
unfolding verify_deposit support_or_error
verify_recharge_trans_detail h detail recharge =
    let from = detail.from_detail in
    let to = detail.to_detail in
    check_chain_asset_item recharge to.chain_name to.asset_type then λ item.
    support_or_error (support_item item.support_chain from.chain_name) then λ support.
    verify_deposit h support from.to from.contract_address

-- getRechargeMainAssetType
unfoldable pub get_recharge_main_asset_type : Host → InternalChainName → Result String
get_recharge_main_asset_type h pmchain = ok h.asset_pmc
get_recharge_main_asset_type h biwmeta = ok h.asset_biw
get_recharge_main_asset_type h (InternalChainName.other _) = err not_support_chain
