-- ===== src/Model/Recharge.antt =====
-- packages/core/src/recharge/constants.ts and the table of recharge orders. A state or a type
-- read from the database is a number: `other` holds one outside the enumeration.
use cot_server.Base.{ℕ, String, Bool, Option, none, List}
use cot_server.Base.BigInt.{ℤ}
use cot_server.Model.Chain.{ExternalChainName, InternalChainName, AnyChainName}
use cot_server.Model.Wallet.{ExternalTransDetail}

-- RECHARGE_ORDER_STATE_ID
pub data RechargeOrderStateId : Type 0 where
  init external_wait_on_chain external_on_chain_fail : RechargeOrderStateId
  internal_wait_on_chain internal_on_chain_fail success : RechargeOrderStateId
  other : ℕ → RechargeOrderStateId

-- RECHARGE_RECORD_STATE
pub data RechargeRecordState : Type 0 where
  pending to_be_posted posted fail : RechargeRecordState
  other : ℕ → RechargeRecordState

-- RECHARGE_TYPE
pub data RechargeType : Type 0 where
  issue airdrop : RechargeType
  other : ℕ → RechargeType

-- RechargeOrder with the fields that it has from FSMEntity. The wallet's fields of an airdrop order
-- are never set.
pub record RechargeOrder : Type 0 where
  pub entity_id : String
  pub state : RechargeOrderStateId
  pub wallet_address : Option String
  pub wallet_chain : Option ExternalChainName
  pub wallet_tx_id : String
  pub wallet_amount : Option String
  pub wallet_asset : Option String
  pub wallet_decimals : Option ℕ
  pub contract_address : Option String
  pub internal_chain : InternalChainName
  pub internal_address : String
  pub recharge_tx_id : String
  pub recharge_amount : ℤ
  pub recharge_tx_on_chain : Bool
  pub recharge_asset_type : String
  pub recharge_type : RechargeType

-- COTCore.Recharge.RechargeV2ToTrInfoData: the receiver, as the client asks for it.
pub record ToTrInfo : Type 0 where
  pub chain_name : InternalChainName
  pub address : String
  pub asset_type : String
  pub timestamp : ℕ

-- COTServer.Recharge.TransDetail
pub record TransDetail : Type 0 where
  pub from_detail : ExternalTransDetail
  pub to_detail : ToTrInfo
  pub from_asset_symbol : String
  pub from_decimals : ℕ
  pub to_amount : ℤ

-- The `where` object of a query on the recharge orders; a field that is not there is `none`, and a
-- single state is a list of one.
pub record RechargeWhere : Type 0 where
  pub entity_id : Option String
  pub wallet_address : Option String
  pub wallet_tx_id : Option String
  pub internal_chain : Option InternalChainName
  pub internal_address : Option String
  pub recharge_type : Option RechargeType
  pub state : Option (List RechargeOrderStateId)

abbrev pub any_recharge : RechargeWhere
any_recharge = record {
  entity_id = none;
  wallet_address = none;
  wallet_tx_id = none;
  internal_chain = none;
  internal_address = none;
  recharge_type = none;
  state = none;
}

-- What encodeRechargeV2ToTrInfoData of packages/core/src/recharge/helper.ts puts into the JSON text
-- that is signed; the record stands for that text.
pub record SignedMessage : Type 0 where
  pub chain_name : InternalChainName
  pub address : String
  pub timestamp : ℕ

unfoldable pub encode_message : ToTrInfo → SignedMessage
encode_message to = record {
  chain_name = to.chain_name;
  address = to.address;
  timestamp = to.timestamp;
}

-- COTCore.Verify.SignatureInfo
pub record SignatureInfo : Type 0 where
  pub signature : String
  pub public_key : String
  pub timestamp : ℕ

-- WalletTypings.Order.RecordTxInfo
pub record RecordTxInfo : Type 0 where
  pub chain_name : AnyChainName
  pub amount : Option String
  pub asset : Option String
  pub decimals : Option ℕ

-- COTCore.Recharge.RechargeRecord; the time of creation is left out.
pub record RechargeRecord : Type 0 where
  pub order_id : String
  pub state : RechargeRecordState
  pub order_state : RechargeOrderStateId
  pub from_tx_info : RecordTxInfo
  pub to_tx_info_array : List RecordTxInfo

-- WalletTypings.Order.RecordDetailTxInfo
pub record RecordDetailTxInfo : Type 0 where
  pub chain_name : AnyChainName
  pub address : Option String
  pub tx_id : Option String
  pub tx_hash : Option String
  pub contract_address : Option String
  pub fee : Option String

-- RechargeRecordDetailResDto; the time of the last change is left out.
pub record RechargeRecordDetail : Type 0 where
  pub state : RechargeRecordState
  pub order_state : RechargeOrderStateId
  pub from_tx_info : RecordDetailTxInfo
  pub to_tx_infos : List (String × RecordDetailTxInfo)
  pub order_fail_reason : Option String

-- ExternalChainInfo
pub record ExternalChainInfo : Type 0 where
  pub chain_name : ExternalChainName
  pub asset_type : String

-- RechargeContractPoolItem
pub record RechargeContractPoolItem : Type 0 where
  pub chain_name : InternalChainName
  pub asset_type : String
  pub external_chain_info : List ExternalChainInfo
  pub total_minted : String
  pub total_circulation : String
  pub total_burned : String
  pub total_staked : String
