-- ===== src/Recharge/Pool.antt =====
-- packages/server/src/module/recharge/recharge.service.ts: getContractPoolInfo. The items are worked
-- on side by side there; here each of them is an action of its own.
pub mod Staked
pub mod Sums
use cot_server.Base.{
  ℕ, String, Option, none, some, List, [], ◌∷◌, ◌++◌, map, truthy, text_or_empty, if◌then◌else◌,
}
use cot_server.Base.BigInt.{ℤ, pos, ◌+ℤ◌, ◌-ℤ◌}
use cot_server.Base.BigIntText.{to_text}
use cot_server.Model.Chain.{ExternalChainName, InternalChainName, eth, bsc, tron}
use cot_server.Model.Wallet.{ContractBalance, AssetDetails}
use cot_server.Model.Config.{ExternalAssetInfoItem, RechargeItem, AssetItems, RechargeObject}
use cot_server.Model.Recharge.{ExternalChainInfo, RechargeContractPoolItem}
use cot_server.Host.{
  Host, Result, ok, err, ◌then◌, Service, pure, lift, host, ask, ◌>>=◌, catch_with,
  contract_balance_item, external_balance, get_asset_details, get_recharge_config,
}
use cot_server.OrderHelper.{big_int}

-- What is inside `try` in getETHContractBalance, getBSCContractBalance and getTRONContractBalance;
-- the chain's main asset has `main_decimal` decimals.
unfoldable pub read_balance :
    ExternalChainName → (main_decimal : ℕ) → (address : String) → Option String → Service ℤ
read_balance chain main_decimal address contract = do
  h ← host
  if truthy contract
      then (do
        item ←
            ask (λ h. h.contract_balance)
              (contract_balance_item chain address (text_or_empty contract))
        lift (h.decimal_to_bcf item.decimal item.balance))
      else (do
        balance ← ask (λ h. h.text) (external_balance chain address)
        lift (h.decimal_to_bcf main_decimal balance))

-- These three functions: 0 after any error.
unfoldable pub balance_or_zero :
    ExternalChainName → (main_decimal : ℕ) → (address : String) → Option String → Service ℤ
unfolding read_balance
balance_or_zero chain main_decimal address contract =
    catch_with (read_balance chain main_decimal address contract) (pos 0)

-- What an external chain adds to `totalStaked`.
unfoldable pub staked_on :
    ExternalChainName → (main_decimal : ℕ) → Option ExternalAssetInfoItem → Service ℤ
unfolding balance_or_zero
staked_on chain main_decimal none = pure (pos 0)
staked_on chain main_decimal (some item) =
    balance_or_zero chain main_decimal item.deposit_address item.contract

-- What an external chain adds to `externalChainInfo`.
unfoldable pub chain_info :
    ExternalChainName → Option ExternalAssetInfoItem → List ExternalChainInfo
chain_info chain none = []
chain_info chain (some item) = record { chain_name = chain; asset_type = item.asset_type } ∷ []

unfoldable pub supported_chains : RechargeItem → List ExternalChainInfo
unfolding chain_info
supported_chains item =
    chain_info eth item.support_chain.eth_item
    ++ chain_info bsc item.support_chain.bsc_item
    ++ chain_info tron item.support_chain.tron_item

-- `BigInt(issued) - BigInt(remain)`
unfoldable pub burned : AssetDetails → Result ℤ
burned result = big_int result.issued_asset_prealnum then λ issued.
    (big_int result.remain_asset_prealnum then λ remain. ok (issued -ℤ remain))

-- The rest of `_func`, once the balances are there.
unfoldable pub pool_with :
    RechargeItem → (on_eth on_bsc on_tron : ℤ) → Service RechargeContractPoolItem
unfolding supported_chains burned
pool_with item on_eth on_bsc on_tron = do
  result ← ask (λ h. h.asset_details) (get_asset_details item.chain_name item.asset_type)
  total_burned ← lift (burned result)
  pure (record {
    chain_name = item.chain_name;
    asset_type = item.asset_type;
    external_chain_info = supported_chains item;
    total_minted = result.issued_asset_prealnum;
    total_circulation = result.remain_asset_prealnum;
    total_burned = to_text total_burned;
    total_staked = to_text (pos 0 +ℤ on_eth +ℤ on_bsc +ℤ on_tron);
  })

-- `_func`: what is pushed for an item. Its parameters are the item's chain and asset.
unfoldable pub pool_item : RechargeItem → Service RechargeContractPoolItem
unfolding staked_on pool_with
pool_item item = do
  on_eth ← staked_on eth 18 item.support_chain.eth_item
  on_bsc ← staked_on bsc 18 item.support_chain.bsc_item
  on_tron ← staked_on tron 6 item.support_chain.tron_item
  pool_with item on_eth on_bsc on_tron

items_of : AssetItems → List RechargeItem
items_of [] = []
items_of ((asset_type, item) ∷ items) = item ∷ items_of items

all_items : RechargeObject → List RechargeItem
unfolding items_of
all_items [] = []
all_items ((chain, items) ∷ config) = items_of items ++ all_items config

-- getContractPoolInfo, up to `Promise.all`: the actions that it starts.
unfoldable pub get_contract_pool_info : Service (List (Service RechargeContractPoolItem))
unfolding all_items pool_item
get_contract_pool_info = do
  recharge ← ask (λ h. h.config) get_recharge_config
  pure (map pool_item (all_items recharge))
