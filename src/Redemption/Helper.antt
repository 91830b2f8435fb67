-- ===== src/Redemption/Helper.antt =====
-- packages/server/src/helper/redemption.helper.ts
use cot_server.Base.{ℕ, String, Bool, false, not, ◌||◌, Option, none, some, str_eq, if◌then◌else◌}
use cot_server.Base.BigInt.{ltb_ℤ}
use cot_server.Model.Chain.{ExternalChainName, eth, bsc, tron, truthy_external}
use cot_server.Model.Wallet.{ToTrDetail, DestroyAssetTransaction}
use cot_server.Model.Config.{RechargeItem, ExternalAssetInfoItem, support_item}
use cot_server.Model.Redemption.{
  RedemptionOrderStateId, init, internal_wait_on_chain, internal_on_chain_fail,
  external_wait_on_chain, external_on_chain_fail, success, RedemptionRecordState, pending,
  to_be_posted, posted, fail, TransDetail,
}
use cot_server.Host.{
  Result, ok, err, wrong_state, remark_undefined, not_support_chain, not_platform_address,
  less_than_min, more_than_max, asset_type_wrong, redis_exists, redis_get, ◌then◌, Action, pure,
  host, ask, ◌>>=◌,
}
use cot_server.OrderHelper.{big_int}

-- isRedemptionDevTest
unfoldable pub is_redemption_dev_test : {S : Type 0} → Action S Bool
is_redemption_dev_test = do
  h ← host
  if not h.is_dev then pure false else do
    there ← ask (λ h. h.flag) (redis_exists "redemptionDevTest")
    if not there then pure false else do
      value ← ask (λ h. h.optional_text) (redis_get "redemptionDevTest")
      pure (not (elim value [ none ↦ false | some v ↦ str_eq v "0" ]))

-- The three fields of the remark, if all of them are there and not empty.
unfoldable pub remark_of :
    Option ExternalChainName
    → Option String
    → Option String
    → Option (ExternalChainName × String × String)
remark_of (some chain) (some address) (some asset) =
    if not (truthy_external chain) || str_eq address "" || str_eq asset ""
    then none
    else some (chain, address, asset)
remark_of _ _ _ = none

to_detail_on :
    Option ExternalAssetInfoItem → ExternalChainName × String × String → Result ToTrDetail
to_detail_on none _ = err not_support_chain
to_detail_on (some item) (chain, address, asset) = ok (record {
  chain_name = chain;
  address = address;
  asset_type = asset;
  contract_address = item.contract;
})

-- getToTrDetail
unfoldable pub get_to_tr_detail : DestroyAssetTransaction → RechargeItem → Result ToTrDetail
unfolding remark_of to_detail_on
get_to_tr_detail tr_json item =
    elim (remark_of tr_json.remark.chain_name tr_json.remark.address tr_json.remark.asset_type) [
      | none ↦ err remark_undefined
      | some fields ↦ to_detail_on (support_item item.support_chain fields.0) fields
    ]

-- getRecordState
unfoldable pub get_record_state : RedemptionOrderStateId → Result RedemptionRecordState
get_record_state init = ok pending
get_record_state internal_wait_on_chain = ok pending
get_record_state external_wait_on_chain = ok to_be_posted
get_record_state success = ok posted
get_record_state external_on_chain_fail = ok fail
get_record_state internal_on_chain_fail = ok fail
get_record_state (RedemptionOrderStateId.other _) = err wrong_state

unfoldable pub support_or_error : Option ExternalAssetInfoItem → Result ExternalAssetInfoItem
support_or_error none = err not_support_chain
support_or_error (some item) = ok item

unfoldable pub verify_asset : ExternalAssetInfoItem → String → Result (Unit {0})
verify_asset item asset = if str_eq item.asset_type asset then ok tt else err asset_type_wrong

-- verifyRedemptionTransDetailV2
unfoldable pub verify_redemption_trans_detail : TransDetail → RechargeItem → Result (Unit {0})
unfolding verify_asset support_or_error
verify_redemption_trans_detail detail item =
    if not (str_eq detail.from_detail.to item.apply_address)
    then err not_platform_address
    else (big_int detail.from_detail.amount then λ amount.
        if ltb_ℤ amount item.redemption.min
        then err less_than_min
        else if ltb_ℤ item.redemption.max amount
        then err more_than_max
        else (support_or_error (support_item item.support_chain detail.to_detail.chain_name)
            then λ support. verify_asset support detail.to_detail.asset_type))

-- getMainAssetDecimals
unfoldable pub get_main_asset_decimals : ExternalChainName → Result ℕ
get_main_asset_decimals bsc = ok 18
get_main_asset_decimals eth = ok 18
get_main_asset_decimals tron = ok 6
get_main_asset_decimals (ExternalChainName.other _) = err not_support_chain
