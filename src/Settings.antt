-- ===== src/Settings.antt =====
-- Who completes and saves the business configuration: setConfig of
-- packages/server/src/module/redis/global-value.redis-repository.ts, setRecharge of
-- packages/server/src/module/admin/config/config.service.ts, and the start of the order process,
-- onModuleInit of packages/server/src/cluster/order/order.app.ts. Their nested loops, which change
-- the configuration in place, are traversals that give the changed one.
pub mod Chains
pub mod Kept
pub mod Traversals
pub mod Items
pub mod Starts
pub mod Saved
use cot_server.Base.{
  String, Bool, true, false, not, Option, none, some, List, [], ◌∷◌, truthy, text_or_empty,
  if◌then◌else◌,
}
use cot_server.Model.Chain.{ExternalChainName, InternalChainName, eth, bsc, tron, is_tron}
use cot_server.Model.Config.{
  ExternalAssetInfoItem, SupportChain, RechargeItem, AssetItems, RechargeObject,
}
use cot_server.Host.{
  Host, config_validate_error, Action, Service, pure, host, ask, ask_now, call, throw_if, ◌>>=◌,
  ◌>>◌, catch_with, verify_key, validate_config, get_asset_details, address_to_hex, save_config,
  get_business_config, get_contract_token_info,
}
use cot_server.OrderHelper.{token_info_of}
use cot_server.GlobalValue.{ExternalAccounts, init_external_account}

module _ {S : Type 0} where
  -- A change of an external chain's item, if the chain has one.
  unfoldable pub if_there :
      (ExternalAssetInfoItem → Action S ExternalAssetInfoItem)
      → Option ExternalAssetInfoItem
      → Action S (Option ExternalAssetInfoItem)
  if_there f none = pure none
  if_there f (some item) = do changed ← f item; pure (some changed)

  unfoldable pub change_chain :
      (ExternalChainName → ExternalAssetInfoItem → Action S ExternalAssetInfoItem)
      → ExternalChainName
      → SupportChain
      → Action S SupportChain
  unfolding if_there
  change_chain f eth chains = do
    changed ← if_there (f eth) chains.eth_item
    pure (record chains { eth_item = changed })
  change_chain f bsc chains = do
    changed ← if_there (f bsc) chains.bsc_item
    pure (record chains { bsc_item = changed })
  change_chain f tron chains = do
    changed ← if_there (f tron) chains.tron_item
    pure (record chains { tron_item = changed })
  change_chain f (ExternalChainName.other _) chains = pure chains

  unfoldable pub each_key :
      (ExternalChainName → ExternalAssetInfoItem → Action S ExternalAssetInfoItem)
      → List ExternalChainName
      → SupportChain
      → Action S SupportChain
  unfolding change_chain
  each_key f [] chains = pure chains
  each_key f (chain ∷ keys) chains = do
    changed ← change_chain f chain chains
    each_key f keys changed

  -- `for (const _chain in item.supportChain)`: the keys come in the order that the object has them.
  unfoldable pub each_chain :
      (ExternalChainName → ExternalAssetInfoItem → Action S ExternalAssetInfoItem)
      → SupportChain
      → Action S SupportChain
  unfolding each_key
  each_chain f chains = do h ← host; each_key f (h.chain_keys chains) chains

  -- `for (const assetType in recharge[chainName])`
  unfoldable pub each_asset :
      (String → RechargeItem → Action S RechargeItem) → AssetItems → Action S AssetItems
  each_asset f [] = pure []
  each_asset f ((asset_type, item) ∷ rest) = do
    changed ← f asset_type item
    others ← each_asset f rest
    pure ((asset_type, changed) ∷ others)

  -- `for (const chainName in recharge)`
  unfoldable pub each_item :
      (InternalChainName → String → RechargeItem → Action S RechargeItem)
      → RechargeObject
      → Action S RechargeObject
  unfolding each_asset
  each_item f [] = pure []
  each_item f ((chain, items) ∷ rest) = do
    changed ← each_asset (f chain) items
    others ← each_item f rest
    pure ((chain, changed) ∷ others)

-- The symbol and the icon of a token, for an item that names one.
unfoldable pub with_token :
    ExternalChainName → ExternalAssetInfoItem → Action ExternalAccounts ExternalAssetInfoItem
unfolding token_info_of
with_token chain item =
    if truthy item.contract
    then (do
      info ← token_info_of chain (text_or_empty item.contract)
      pure (record item { asset_type = info.symbol; logo = some info.icon }))
    else pure item

-- The address of an account as it is shown: for TRON in another form.
unfoldable pub shown_address : ExternalChainName → String → Action ExternalAccounts String
shown_address chain address =
    if is_tron chain then ask (λ h. h.text) (address_to_hex address) else pure address

-- The address for deposits is that of the chain's account for the asset.
unfoldable pub with_address :
    ExternalChainName → ExternalAssetInfoItem → Action ExternalAccounts ExternalAssetInfoItem
unfolding shown_address
with_address chain item = do
  account ← init_external_account chain item.asset_type
  address ← shown_address chain account.address
  pure (record item { deposit_address = address })

-- The body of the inner loop of setConfig.
unfoldable pub complete_external :
    ExternalChainName → ExternalAssetInfoItem → Action ExternalAccounts ExternalAssetInfoItem
unfolding with_token with_address
complete_external chain item = do named ← with_token chain item; with_address chain named

-- The body of the two outer loops of setConfig.
unfoldable pub complete_item :
    InternalChainName → String → RechargeItem → Action ExternalAccounts RechargeItem
unfolding each_chain complete_external
complete_item chain asset_type item = do
  info ← ask (λ h. h.asset_details) (get_asset_details chain asset_type)
  chains ← each_chain complete_external item.support_chain
  pure (record item { logo = some info.icon_url; support_chain = chains })

-- setConfig, once the configuration is decrypted.
unfoldable pub install_config : RechargeObject → Action ExternalAccounts Bool
unfolding each_item complete_item
install_config config = do
  valid ← ask (λ h. h.flag) (validate_config config)
  throw_if (not valid) config_validate_error
  completed ← each_item complete_item config
  call (save_config completed)
  pure true

-- setConfig
unfoldable pub set_config : String → Action ExternalAccounts Bool
unfolding install_config
set_config encrypt_config = do
  config ← ask (λ h. h.config) (verify_key encrypt_config)
  install_config config

-- The body of the inner loop of setRecharge, which asks for the token on the chain `chainName`, the
-- internal one.
unfoldable pub name_external :
    InternalChainName → ExternalAssetInfoItem → Service ExternalAssetInfoItem
name_external chain item = do
  h ← host
  if truthy item.contract
      then (do
        info ←
            ask (λ h. h.token_info)
              (get_contract_token_info (h.text_of_internal_chain chain)
                (text_or_empty item.contract))
        pure (record item { asset_type = info.symbol }))
      else pure item

unfoldable pub name_item : InternalChainName → String → RechargeItem → Service RechargeItem
unfolding each_chain name_external
name_item chain asset_type item = do
  chains ← each_chain (λ _. name_external chain) item.support_chain
  pure (record item { support_chain = chains })

-- setRecharge. The error that it throws has the text of the one that is caught, so it stands here
-- for that one.
unfoldable pub set_recharge : RechargeObject → Service (Unit {0})
unfolding each_item name_item
set_recharge config = do
  valid ← ask (λ h. h.flag) (validate_config config)
  throw_if (not valid) config_validate_error
  named ← each_item name_item config
  call (save_config named)

-- The body of the loops of onModuleInit: BSC comes first there.
unfoldable pub start_item :
    InternalChainName → String → RechargeItem → Action ExternalAccounts RechargeItem
unfolding if_there with_address
start_item chain asset_type item = do
  let chains = item.support_chain
  bsc_item ← if_there (with_address bsc) chains.bsc_item
  eth_item ← if_there (with_address eth) chains.eth_item
  tron_item ← if_there (with_address tron) chains.tron_item
  pure (record item {
    support_chain = record { eth_item = eth_item; bsc_item = bsc_item; tron_item = tron_item };
  })

-- onModuleInit outside of a development process, for a configuration that is there. The write is
-- not waited for, and its error is lost.
unfoldable pub start_config : RechargeObject → Action ExternalAccounts (Unit {0})
unfolding each_item start_item
start_config config = do
  completed ← each_item start_item config
  catch_with (ask_now (λ h. h.done) (save_config completed)) tt

-- `if (rechargeConfig)`
unfoldable pub start_found : Option RechargeObject → Action ExternalAccounts (Unit {0})
unfolding start_config
start_found none = pure tt
start_found (some config) = start_config config

-- onModuleInit outside of a development process, between `start` and the queues.
unfoldable pub start_accounts : Action ExternalAccounts (Unit {0})
unfolding start_found
start_accounts = ask (λ h. h.optional_config) get_business_config >>= start_found
