-- ===== src/Model/Config.antt =====
-- COTCore.Config of packages/core/src/typings/@types.ts: the business configuration.
use cot_server.Base.{String, Bool, Option, none, some, List, [], ◌∷◌, if◌then◌else◌}
use cot_server.Base.BigInt.{ℤ}
use cot_server.Model.Chain.{ExternalChainName, InternalChainName, eth, bsc, tron, same_chain}

pub record ExternalAssetInfoItem : Type 0 where
  pub enable : Bool
  pub contract : Option String
  pub deposit_address : String
  pub asset_type : String
  pub logo : Option String

pub record SupportChain : Type 0 where
  pub eth_item : Option ExternalAssetInfoItem
  pub bsc_item : Option ExternalAssetInfoItem
  pub tron_item : Option ExternalAssetInfoItem

-- `supportChain[chainName]`
abbrev pub support_item : SupportChain → ExternalChainName → Option ExternalAssetInfoItem
support_item s eth = s.eth_item
support_item s bsc = s.bsc_item
support_item s tron = s.tron_item
support_item s (ExternalChainName.other _) = none

-- `fee` is an object from a chain's name to an amount.
pub record RedemptionConfig : Type 0 where
  pub enable : Bool
  pub min : ℤ
  pub max : ℤ
  pub fee : ExternalChainName → Option String
  pub radio_fee : String

pub record RechargeItem : Type 0 where
  pub enable : Bool
  pub chain_name : InternalChainName
  pub asset_type : String
  pub apply_address : String
  pub support_chain : SupportChain
  pub redemption : RedemptionConfig
  pub logo : Option String

abbrev pub AssetItems : Type 0
AssetItems = List (String × RechargeItem)

abbrev pub RechargeObject : Type 0
RechargeObject = List (InternalChainName × AssetItems)

-- `recharge[chainName]`
unfoldable pub chain_items : InternalChainName → RechargeObject → Option AssetItems
chain_items c [] = none
chain_items c ((d, items) ∷ config) = if same_chain d c then some items else chain_items c config
