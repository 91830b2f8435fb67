-- ===== src/Model/Chain.antt =====
-- The chains that the source names, and the constants of
-- packages/core/src/typings/constants.ts and packages/server/src/common/constants. The
-- enumerations of chains are the wallet SDK's; `other` is a value that the source does not name.
use cot_server.Base.{Bool, true, false, not, String, str_eq, Option, some}

pub data ExternalChainName : Type 0 where
  eth bsc tron : ExternalChainName
  other : String → ExternalChainName

abbrev pub is_tron : ExternalChainName → Bool
is_tron ExternalChainName.tron = true
is_tron _ = false

pub data InternalChainName : Type 0 where
  pmchain biwmeta : InternalChainName
  other : String → InternalChainName

-- `===` on chain names
abbrev pub same_chain : InternalChainName → InternalChainName → Bool
same_chain InternalChainName.pmchain InternalChainName.pmchain = true
same_chain InternalChainName.biwmeta InternalChainName.biwmeta = true
same_chain (InternalChainName.other s) (InternalChainName.other t) = str_eq s t
same_chain _ _ = false

-- INTERNAL_CHAIN_RW_ACCOUNT_TYPE
pub data RwAccountType : Type 0 where
  rechargev2_account airdrop_account : RwAccountType

-- TRANSACTION_LINK_TYPE; `other` is a number outside the enumeration.
pub data TransactionLinkType : Type 0 where
  none recharge_order redemption_order other : TransactionLinkType

-- ORDER_TYPE
pub data OrderType : Type 0 where
  recharge redemption : OrderType

-- ORDER_QUEUE_ROUTING_KEY and ORDER_TEMP_QUEUE_ROUTING_KEY
pub data RoutingKey : Type 0 where
  recharge_order_success redemption_order_success : RoutingKey
  recharge_order_to_tx_start recharge_order_try_transfer redemption_order_to_tx_start : RoutingKey

-- The value of an INTERNAL_CHAIN_RW_ACCOUNT_TYPE
abbrev pub text_of_account_type : RwAccountType → String
text_of_account_type rechargev2_account = "RECHARGEV2_ACCOUNT"
text_of_account_type airdrop_account = "AIRDROP_ACCOUNT"

-- A chain name as the order helper takes it: an external or an internal one, or `undefined`, which
-- an airdrop order has for its wallet's chain.
pub data AnyChainName : Type 0 where
  external : ExternalChainName → AnyChainName
  internal : InternalChainName → AnyChainName
  undefined : AnyChainName

abbrev pub wallet_chain_name : Option ExternalChainName → AnyChainName
wallet_chain_name Option.none = undefined
wallet_chain_name (some c) = external c

-- A chain name counts as true if it is not the empty text.
abbrev pub truthy_chain : InternalChainName → Bool
truthy_chain (InternalChainName.other s) = not (str_eq s "")
truthy_chain _ = true

abbrev pub truthy_external : ExternalChainName → Bool
truthy_external (ExternalChainName.other s) = not (str_eq s "")
truthy_external _ = true

abbrev pub same_external : ExternalChainName → ExternalChainName → Bool
same_external eth eth = true
same_external bsc bsc = true
same_external tron tron = true
same_external (ExternalChainName.other s) (ExternalChainName.other t) = str_eq s t
same_external _ _ = false
