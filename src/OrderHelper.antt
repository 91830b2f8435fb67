-- ===== src/OrderHelper.antt =====
-- packages/server/src/helper/order.helper.ts, with BigInt(text) as a step that can throw.
pub mod Sent
use cot_server.Base.{String, Bool, false, Option, none, some, if◌then◌else◌}
use cot_server.Base.BigInt.{ℤ}
use cot_server.Base.BigIntText.{parse_big_int}
use cot_server.Model.Chain.{
  ExternalChainName, eth, bsc, tron, AnyChainName, external, internal, undefined, OrderType,
}
use cot_server.Model.Wallet.{
  FromTrJson, ExternalTransDetail, InternalTransDetail, DestroyAssetTransaction, RedemptionTr,
  TokenInfo,
}
use cot_server.Model.Config.{RechargeItem, ExternalAssetInfoItem}
use cot_server.Host.{
  Host, Result, ok, err, not_a_bigint, eth_closed, bsc_closed, tron_closed, Error, Action, Service,
  pure, throw, host, ask, ◌>>=◌, create_order_obj, external_trans_detail, external_trans_info,
  internal_trans_info, external_trans_fee, get_contract_token_info, Call,
}
use cot_server.Host.Keeps.{CallsOnly, calls_only, CallsOnly-pure}

abbrev of_parsed : Option ℤ → Result ℤ
of_parsed none = err not_a_bigint
of_parsed (some z) = ok z

-- `BigInt(text)`
unfoldable pub big_int : String → Result ℤ
big_int s = of_parsed (parse_big_int s)

-- createRechargeOrderObj and createRedemptionOrderObj: a refused request is only logged.
unfoldable pub create_order_object : OrderType → String → Service (Unit {0})
create_order_object type order_id = do
  done ← ask (λ h. h.flag) (create_order_obj type order_id)
  pure tt

-- `supportChain.X && supportChain.X.enable`
unfoldable pub is_open : Option ExternalAssetInfoItem → Bool
is_open none = false
is_open (some item) = item.enable

detail_if_open :
    Option ExternalAssetInfoItem
    → Error
    → ExternalChainName
    → String
    → Service (Option ExternalTransDetail)
detail_if_open item closed chain body =
    if is_open item
    then (do
      detail ← ask (λ h. h.trans_detail) (external_trans_detail chain body)
      pure (some detail))
    else throw closed

-- `if (body) { ... } else ...`, for a body that may be missing.
when_there :
    Option String
    → (String → Service (Option ExternalTransDetail))
    → Service (Option ExternalTransDetail)
    → Service (Option ExternalTransDetail)
when_there none f m = m
when_there (some body) f m = f body

-- getExternalChainDetail: the first of the four transactions that is there.
unfoldable pub get_external_chain_detail :
    FromTrJson → RechargeItem → Service (Option ExternalTransDetail)
unfolding detail_if_open when_there
get_external_chain_detail from_tr_json item =
    let chains = item.support_chain in
    when_there from_tr_json.eth (detail_if_open chains.eth_item eth_closed eth) (
      when_there from_tr_json.bsc (detail_if_open chains.bsc_item bsc_closed bsc) (
        when_there from_tr_json.trc20 (detail_if_open chains.tron_item tron_closed tron) (
          when_there from_tr_json.tron (detail_if_open chains.tron_item tron_closed tron)
            (pure none))))

module _ (h : Host) (P : Call → Type 0)
    (k : (chain : ExternalChainName) (body : String) → P (external_trans_detail chain body)) where
  detail_if_open-CallsOnly :
      (item : Option ExternalAssetInfoItem) (closed : Error) (chain : ExternalChainName)
      (body : String)
      → CallsOnly {S = Unit {0}} h P (detail_if_open item closed chain body)
  unfolding detail_if_open
  detail_if_open-CallsOnly item closed chain body = search (calls_only, k) depth 20

  when_there-CallsOnly :
      (o : Option String) (f : String → Service (Option ExternalTransDetail))
      (m : Service (Option ExternalTransDetail))
      → ((body : String) → CallsOnly h P (f body))
      → CallsOnly h P m
      → CallsOnly h P (when_there o f m)
  unfolding when_there
  when_there-CallsOnly none f m kf km = km
  when_there-CallsOnly (some body) f m kf km = kf body

  -- It asks for nothing but the detail of a transaction.
  pub get_external_chain_detail-CallsOnly :
      (from_tr_json : FromTrJson) (item : RechargeItem)
      → CallsOnly h P (get_external_chain_detail from_tr_json item)
  unfolding get_external_chain_detail
  get_external_chain_detail-CallsOnly from_tr_json item =
      search (when_there-CallsOnly, detail_if_open-CallsOnly, CallsOnly-pure) depth 20

-- getInternalChainDestroyAssetDetail
unfoldable pub get_internal_chain_destroy_asset_detail :
    Host → RedemptionTr → Option (InternalTransDetail × DestroyAssetTransaction)
get_internal_chain_destroy_asset_detail h from_tr_json = elim from_tr_json.bcf [
  | none ↦ none
  | some bcf ↦ some (h.destroy_detail bcf.chain_name bcf.tr_json, bcf.tr_json)
]

-- getContractTokenInfo. The wallet SDK's decorator caches the answer.
unfoldable pub token_info_of : {S : Type 0} → ExternalChainName → String → Action S TokenInfo
token_info_of chain contract_address = do
  h ← host
  ask (λ h. h.token_info) (get_contract_token_info (h.text_of_chain chain) contract_address)

pub record TxInfo : Type 0 where
  pub tx_hash : String
  pub fail_reason : Option String
  pub fee : Option String

external_tx_info : ExternalChainName → String → Service TxInfo
external_tx_info chain tx_id = do
  info ← ask (λ h. h.trans_info) (external_trans_info chain tx_id)
  if info.is_success
      then (do
        fee ← ask (λ h. h.text) (external_trans_fee chain tx_id)
        pure (record { tx_hash = info.tx_hash; fail_reason = none; fee = some fee }))
      else pure (record { tx_hash = info.tx_hash; fail_reason = info.fail_reason; fee = none })

internal_tx_info : AnyChainName → String → Service TxInfo
internal_tx_info chain tx_id = do
  info ← ask (λ h. h.trans_info) (internal_trans_info chain tx_id)
  pure (record { tx_hash = info.tx_hash; fail_reason = info.fail_reason; fee = some info.fee })

-- getTxInfo: a chain that is no external one, `undefined` too, is asked for as an internal one.
unfoldable pub get_tx_info : AnyChainName → String → Service TxInfo
unfolding external_tx_info internal_tx_info
get_tx_info (external (ExternalChainName.other s)) tx_id =
    internal_tx_info (external (ExternalChainName.other s)) tx_id
get_tx_info (external chain) tx_id = external_tx_info chain tx_id
get_tx_info (internal chain) tx_id = internal_tx_info (internal chain) tx_id
get_tx_info undefined tx_id = internal_tx_info undefined tx_id
