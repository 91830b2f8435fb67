-- ===== src/Model/Redemption.antt =====
-- packages/core/src/redemption/constants.ts and the table of redemption orders.
use cot_server.Base.{ℕ, String, Option, none, List}
use cot_server.Base.BigInt.{ℤ}
use cot_server.Model.Chain.{ExternalChainName, InternalChainName}
use cot_server.Model.Wallet.{InternalTransDetail, ToTrDetail, Fraction}

-- REDEMPTION_ORDER_STATE_ID
pub data RedemptionOrderStateId : Type 0 where
  init internal_wait_on_chain internal_on_chain_fail : RedemptionOrderStateId
  external_wait_on_chain external_on_chain_fail success : RedemptionOrderStateId
  other : ℕ → RedemptionOrderStateId

-- REDEMPTION_RECORD_STATE
pub data RedemptionRecordState : Type 0 where
  pending to_be_posted posted fail : RedemptionRecordState

-- REDEMPTION_TYPE
pub data RedemptionType : Type 0 where
  transfer destroy : RedemptionType

-- RedemptionOrder. The ratio is a float in the source; here it is the text that the number is
-- printed as.
pub record RedemptionOrder : Type 0 where
  pub entity_id : String
  pub state : RedemptionOrderStateId
  pub internal_chain : InternalChainName
  pub internal_address : String
  pub redemption_tx_id : String
  pub redemption_amount : ℤ
  pub redemption_asset_type : String
  pub redemption_ratio : String
  pub redemption_fee : ℤ
  pub wallet_address : String
  pub wallet_chain : ExternalChainName
  pub wallet_tx_id : String
  pub contract_address : Option String
  pub wallet_amount : String
  pub wallet_asset : String
  pub redemption_type : RedemptionType

-- COTServer.Redemption.TransDetail
pub record TransDetail : Type 0 where
  pub from_detail : InternalTransDetail
  pub to_detail : ToTrDetail
  pub to_amount : ℤ
  pub redemption_ratio : Fraction
  pub redemption_fee : ℤ

-- The `where` object of a query on the redemption orders.
pub record RedemptionWhere : Type 0 where
  pub entity_id : Option String
  pub wallet_address : Option String
  pub redemption_tx_id : Option String
  pub wallet_tx_id : Option String
  pub internal_chain : Option InternalChainName
  pub internal_address : Option String
  pub state : Option (List RedemptionOrderStateId)

abbrev pub any_redemption : RedemptionWhere
any_redemption = record {
  entity_id = none;
  wallet_address = none;
  redemption_tx_id = none;
  wallet_tx_id = none;
  internal_chain = none;
  internal_address = none;
  state = none;
}
