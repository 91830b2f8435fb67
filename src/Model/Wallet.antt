-- ===== src/Model/Wallet.antt =====
-- The values that the wallet SDK takes and returns, as far as the source reads them. A transaction
-- body that the source only passes on is its text.
use cot_server.Base.{ℕ, String, Option, List}
use cot_server.Base.BigInt.{ℤ}
use cot_server.Model.Chain.{
  ExternalChainName, InternalChainName, RwAccountType, TransactionLinkType,
}

-- WalletTypings.ExternalChain.FromTrJson: the sender's signed transaction, on one of the chains.
pub record FromTrJson : Type 0 where
  pub eth : Option String
  pub bsc : Option String
  pub tron : Option String
  pub trc20 : Option String

-- WalletTypings.ExternalChain.TransDetail
pub record ExternalTransDetail : Type 0 where
  pub chain_name : ExternalChainName
  pub from : String
  pub to : String
  pub amount : String
  pub contract_address : Option String
  pub tx_hash : String

-- The `transactionJSON` that is saved: signed bytes with their hash, or a TRON transaction.
pub data ExternalTrJson : Type 0 where
  signed : (sign_trans_data tx_hash : String) → ExternalTrJson
  tron_trans : String → ExternalTrJson

-- WalletTypings.InternalChain.TransDetail
pub record InternalTransDetail : Type 0 where
  pub chain_name : InternalChainName
  pub from : String
  pub to : String
  pub amount : String
  pub asset_type : String

-- The remark of a redemption transaction (COTCore.Redemption.TransRemark); fields may be missing.
pub record TransRemark : Type 0 where
  pub chain_name : Option ExternalChainName
  pub address : Option String
  pub asset_type : Option String

-- WalletTypings.InternalChain.DestroyAssetTransaction: the body and its remark.
pub record DestroyAssetTransaction : Type 0 where
  pub body : String
  pub remark : TransRemark

-- The `bcf` part of COTCore.Redemption.RedemptionV2Tr.
pub record BcfTrans : Type 0 where
  pub chain_name : InternalChainName
  pub tr_json : DestroyAssetTransaction

-- COTCore.Redemption.RedemptionV2Tr
pub record RedemptionTr : Type 0 where
  pub bcf : Option BcfTrans

-- WalletTypings.ExternalChain.ToTrDetail
pub record ToTrDetail : Type 0 where
  pub chain_name : ExternalChainName
  pub address : String
  pub asset_type : String
  pub contract_address : Option String

-- What getEthContractBalance and its like answer.
pub record ContractBalance : Type 0 where
  pub decimal : ℕ
  pub balance : String

-- What getAssetDetails answers, as far as the source reads it.
pub record AssetDetails : Type 0 where
  pub issued_asset_prealnum : String
  pub remain_asset_prealnum : String
  pub icon_url : String

pub record TokenInfo : Type 0 where
  pub symbol : String
  pub decimals : ℕ
  pub icon : String

-- A transaction as the wallet reports it to the order callbacks.
pub record TransactionBase : Type 0 where
  pub entity_id : String
  pub link_type : TransactionLinkType
  pub link_id : String

-- The `param` that ties a transaction to an order.
pub record LinkParam : Type 0 where
  pub link_type : TransactionLinkType
  pub link_id : String

-- COTCore.Fraction; a number is held as its decimal text.
pub record Fraction : Type 0 where
  pub numerator : String
  pub denominator : String

-- WalletTypings.ExternalChain.WalletAccount
pub record WalletAccount : Type 0 where
  pub secret : String
  pub address : String
  pub private_key : String
  pub public_key : String

-- The data of an order event on the message queue.
pub record OrderEvent : Type 0 where
  pub order_id : String
  pub account_type : Option RwAccountType

-- What the wallet needs to issue or to transfer on an internal chain.
pub record InternalPayment : Type 0 where
  pub chain_name : InternalChainName
  pub secret : String
  pub recipient_id : String
  pub amount : ℤ
  pub asset_type : String
  pub param : LinkParam

pub record ExternalPayment : Type 0 where
  pub chain_name : ExternalChainName
  pub account : WalletAccount
  pub recipient_id : String
  pub contract_address : Option String
  pub amount : String
  pub param : LinkParam

-- What getInjectExternalAddressObj returns: an address for a chain and an asset. The properties that
-- every JavaScript object inherits are left out.
abbrev pub AddressObj : Type 0
AddressObj = List (ExternalChainName × List (String × String))
