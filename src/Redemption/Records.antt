-- ===== src/Redemption/Records.antt =====
-- packages/server/src/module/redemption/redemption.service.ts: getRecordDetail, and what getRecords
-- asks for and makes of one row.
use cot_server.Base.{
  ℕ, String, not, Option, none, some, str_eq, truthy, text_or_empty, if◌then◌else◌,
}
use cot_server.Base.BigIntText.{to_text}
use cot_server.Model.Chain.{InternalChainName, external, internal}
use cot_server.Model.Recharge.{RecordTxInfo, RecordDetailTxInfo}
use cot_server.Model.Redemption.{
  RedemptionOrder, RedemptionOrderStateId, RedemptionRecordState, RedemptionWhere, any_redemption,
}
use cot_server.Host.{Service, pure, lift, host, ask, ◌>>=◌, find_redemption_order}
use cot_server.OrderHelper.{get_tx_info, token_info_of}
use cot_server.Redemption.Helper.{get_record_state, get_main_asset_decimals}

-- COTCore.Redemption.RedemptionRecord; the time of creation is left out.
pub record RedemptionRecord : Type 0 where
  pub order_id : String
  pub state : RedemptionRecordState
  pub order_state : RedemptionOrderStateId
  pub from_tx_info : RecordTxInfo
  pub to_tx_info : RecordTxInfo
  pub redemption_fee : String

-- RedemptionRecordDetailResDto; the time of the last change is left out.
pub record RedemptionRecordDetail : Type 0 where
  pub state : RedemptionRecordState
  pub order_state : RedemptionOrderStateId
  pub redemption_ratio : String
  pub from_tx_info : RecordDetailTxInfo
  pub to_tx_info : RecordDetailTxInfo
  pub order_fail_reason : Option String

-- The query of getRecords.
unfoldable pub records_where : Option InternalChainName → Option String → RedemptionWhere
records_where internal_chain internal_address = record any_redemption {
  internal_chain = internal_chain;
  internal_address = internal_address;
}

wallet_decimals_of : RedemptionOrder → Service ℕ
wallet_decimals_of o =
    if truthy o.contract_address
    then (do
      info ← token_info_of o.wallet_chain (text_or_empty o.contract_address)
      pure info.decimals)
    else lift (get_main_asset_decimals o.wallet_chain)

-- What getRecords makes of a row; the rows of a page are worked on side by side.
unfoldable pub redemption_record : RedemptionOrder → Service RedemptionRecord
unfolding wallet_decimals_of
redemption_record o = do
  h ← host
  to_decimals ← wallet_decimals_of o
  state ← lift (get_record_state o.state)
  pure (record {
    order_id = o.entity_id;
    state = state;
    order_state = o.state;
    from_tx_info = record {
      chain_name = internal o.internal_chain;
      amount = some (to_text o.redemption_amount);
      asset = some o.redemption_asset_type;
      decimals = some h.bcf_default_decimals;
    };
    to_tx_info = record {
      chain_name = external o.wallet_chain;
      amount = some o.wallet_amount;
      asset = some o.wallet_asset;
      decimals = some to_decimals;
    };
    redemption_fee = to_text o.redemption_fee;
  })

payee_info : RedemptionOrder → RecordDetailTxInfo
payee_info o = record {
  chain_name = external o.wallet_chain;
  address = some o.wallet_address;
  tx_id = none;
  tx_hash = none;
  contract_address = o.contract_address;
  fee = none;
}

-- What the payout's transaction adds. Its reason of failure takes the place of the first one, even
-- if there is none.
payout_info :
    RedemptionOrder → String → Option String → Service (RecordDetailTxInfo × Option String)
unfolding payee_info
payout_info o order_id fail_reason =
    if not (str_eq o.wallet_tx_id order_id)
    then (do
      info ← get_tx_info (external o.wallet_chain) o.wallet_tx_id
      pure (
        record (payee_info o) {
          tx_id = some o.wallet_tx_id;
          tx_hash = some info.tx_hash;
          fee = info.fee;
        },
        info.fail_reason,
      ))
    else pure (payee_info o, fail_reason)

-- getRecordDetail
unfoldable pub get_record_detail : String → Service RedemptionRecordDetail
unfolding payout_info
get_record_detail order_id = do
  o ←
      ask (λ h. h.redemption_row_force)
        (find_redemption_order (record any_redemption { entity_id = some order_id }))
  info ← get_tx_info (internal o.internal_chain) o.redemption_tx_id
  payout ← payout_info o order_id info.fail_reason
  state ← lift (get_record_state o.state)
  pure (record {
    state = state;
    order_state = o.state;
    redemption_ratio = o.redemption_ratio;
    from_tx_info = record {
      chain_name = internal o.internal_chain;
      address = some o.internal_address;
      tx_id = some o.redemption_tx_id;
      tx_hash = some info.tx_hash;
      contract_address = none;
      fee = info.fee;
    };
    to_tx_info = payout.0;
    order_fail_reason = payout.1;
  })
