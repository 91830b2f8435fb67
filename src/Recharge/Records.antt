-- ===== src/Recharge/Records.antt =====
-- packages/server/src/module/recharge/recharge.service.ts: getRecords, getRecordDetail and
-- getRechageSupport.
use cot_server.Base.{
  ℕ, String, not, Option, none, some, List, [], ◌∷◌, map, str_eq, truthy, if◌then◌else◌,
}
use cot_server.Base.BigIntText.{to_text}
use cot_server.Model.Chain.{InternalChainName, internal, wallet_chain_name}
use cot_server.Model.Config.{RechargeObject}
use cot_server.Model.Recharge.{
  RechargeOrder, RechargeRecordState, RechargeWhere, any_recharge, issue, RecordTxInfo,
  RechargeRecord, RecordDetailTxInfo, RechargeRecordDetail,
}
use cot_server.Host.{
  Host, Result, ok, err, ◌then◌, Service, pure, lift, host, ask, ◌>>=◌, find_recharge_order,
  find_recharge_page, get_recharge_config,
}
use cot_server.OrderHelper.{get_tx_info}
use cot_server.Recharge.Helper.{get_record_state, get_order_state_array}

-- RechargeRecordsReqDto
pub record RecordsReq : Type 0 where
  pub internal_chain : Option InternalChainName
  pub internal_address : String
  pub record_state : Option RechargeRecordState
  pub page : ℕ
  pub page_size : ℕ

unfoldable pub records_base : RecordsReq → RechargeWhere
records_base dto = record any_recharge {
  internal_chain = dto.internal_chain;
  internal_address = some dto.internal_address;
  recharge_type = some issue;
}

unfoldable pub filter_states : Option RechargeRecordState → RechargeWhere → Result RechargeWhere
filter_states none options = ok options
filter_states (some record_state) options =
    get_order_state_array record_state then λ states. ok (record options { state = some states })

-- The query of getRecords. The values of RECHARGE_RECORD_STATE are not 0, so a state that is given
-- counts as true.
unfoldable pub records_where : RecordsReq → Result RechargeWhere
unfolding records_base filter_states
records_where dto = filter_states dto.record_state (records_base dto)

from_tx_info_of : RechargeOrder → RecordTxInfo
from_tx_info_of o = record {
  chain_name = wallet_chain_name o.wallet_chain;
  amount = o.wallet_amount;
  asset = o.wallet_asset;
  decimals = o.wallet_decimals;
}

-- The payment is shown once it has a transaction of its own.
to_tx_info_array_of : Host → RechargeOrder → List RecordTxInfo
to_tx_info_array_of h o =
    if not (str_eq o.recharge_tx_id o.entity_id)
    then record {
      chain_name = internal o.internal_chain;
      amount = some (to_text o.recharge_amount);
      asset = some o.recharge_asset_type;
      decimals = some h.bcf_default_decimals;
    }
      ∷ []
    else []

unfoldable pub record_in_state :
    Host → RechargeOrder → Result RechargeRecordState → Result RechargeRecord
unfolding from_tx_info_of to_tx_info_array_of
record_in_state h o (err e) = err e
record_in_state h o (ok state) = ok (record {
  order_id = o.entity_id;
  state = state;
  order_state = o.state;
  from_tx_info = from_tx_info_of o;
  to_tx_info_array = to_tx_info_array_of h o;
})

-- What getRecords makes of a row.
unfoldable pub recharge_record : Host → RechargeOrder → Result RechargeRecord
unfolding record_in_state
recharge_record h o = record_in_state h o (get_record_state o.state)

-- getRecords; the page's numbers are left out.
unfoldable pub get_records : RecordsReq → Service (List RechargeRecord)
get_records dto = do
  h ← host
  options ← lift (records_where dto)
  rows ← ask (λ h. h.recharge_rows) (find_recharge_page options dto.page dto.page_size)
  lift (h.all_recharge_records (map (recharge_record h) rows))

-- What the payment's transaction adds: its information, and its reason of failure if it has one.
payment_info :
    RechargeOrder → Option String → Service (List (String × RecordDetailTxInfo) × Option String)
payment_info o fail_reason =
    if not (str_eq o.recharge_tx_id o.entity_id)
    then (do
      info ← get_tx_info (internal o.internal_chain) o.recharge_tx_id
      let to_tx_info : RecordDetailTxInfo = record {
        chain_name = internal o.internal_chain;
        address = some o.internal_address;
        tx_id = some o.recharge_tx_id;
        tx_hash = some info.tx_hash;
        contract_address = none;
        fee = info.fee;
      }
      pure (
        (o.recharge_asset_type, to_tx_info) ∷ [],
        if truthy info.fail_reason then info.fail_reason else fail_reason,
      ))
    else pure ([], fail_reason)

-- getRecordDetail. The row is looked up by its entityId, so that is the order's id.
unfoldable pub get_record_detail : String → Service RechargeRecordDetail
unfolding payment_info
get_record_detail order_id = do
  o ←
      ask (λ h. h.recharge_row_force)
        (find_recharge_order (record any_recharge { entity_id = some order_id }))
  info ← get_tx_info (wallet_chain_name o.wallet_chain) o.wallet_tx_id
  payment ← payment_info o info.fail_reason
  state ← lift (get_record_state o.state)
  pure (record {
    state = state;
    order_state = o.state;
    from_tx_info = record {
      chain_name = wallet_chain_name o.wallet_chain;
      address = o.wallet_address;
      tx_id = some o.wallet_tx_id;
      tx_hash = some info.tx_hash;
      contract_address = o.contract_address;
      fee = info.fee;
    };
    to_tx_infos = payment.0;
    order_fail_reason = payment.1;
  })

-- getRechageSupport
unfoldable pub get_recharge_support : Service RechargeObject
get_recharge_support = ask (λ h. h.config) get_recharge_config
