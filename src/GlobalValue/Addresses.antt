-- ===== src/GlobalValue/Addresses.antt =====
-- packages/server/src/module/redis/global-value.redis-repository.ts: the addresses of the accounts
-- that the order process holds, for all processes.
use cot_server.Base.{
  String, Option, none, some, List, [], ◌∷◌, lookup, insert, truthy, text_or_empty, if◌then◌else◌,
}
use cot_server.Model.Chain.{ExternalChainName}
use cot_server.Model.Wallet.{AddressObj}
use cot_server.Host.{
  not_injected, Result, ok, err, Action, pure, lift, host, get, ask, ◌>>=◌, forward_to_order_worker,
}
use cot_server.GlobalValue.{ExternalAccounts, AssetMap, chain_map, set_chain_map, or_empty}

-- `addressObj[chainName]`
abbrev pub AssetAddresses : Type 0
AssetAddresses = List (String × String)

-- The inner loop: `addressObj[chainName][assetType] = account.address`.
unfoldable pub add_addresses : AssetMap → AssetAddresses → AssetAddresses
add_addresses [] addresses = addresses
add_addresses ((asset_type, account) ∷ m) addresses =
    add_addresses m (insert asset_type account.address addresses)

-- The outer loop, with `addressObj[chainName] ?? {}`.
unfoldable pub add_chains : ExternalAccounts → AddressObj → AddressObj
unfolding or_empty
add_chains [] obj = obj
add_chains ((chain, m) ∷ accounts) obj =
    add_chains accounts (set_chain_map chain (add_addresses m (or_empty (chain_map chain obj))) obj)

-- getInjectExternalAddressObj
unfoldable pub get_inject_external_address_obj : Action ExternalAccounts AddressObj
unfolding add_chains
get_inject_external_address_obj = do
  h ← host
  if h.is_order_worker
      then (do accounts ← get; pure (add_chains accounts []))
      else ask (λ h. h.address_obj) (forward_to_order_worker "GET_INJECT_EXTERNAL_ADDRESS")

unfoldable pub asset_address : String → Option AssetAddresses → Option String
asset_address asset_type none = none
asset_address asset_type (some addresses) = lookup asset_type addresses

unfoldable pub address_or_error : Option String → Result String
address_or_error address = if truthy address then ok (text_or_empty address) else err not_injected

-- What getInjectExternalAddress reads from the object. An empty address counts as none.
unfoldable pub injected_address : AddressObj → ExternalChainName → String → Result String
unfolding address_or_error asset_address
injected_address obj chain asset_type =
    address_or_error (asset_address asset_type (chain_map chain obj))

-- getInjectExternalAddress
unfoldable pub get_inject_external_address :
    ExternalChainName → String → Action ExternalAccounts String
unfolding get_inject_external_address_obj injected_address
get_inject_external_address chain asset_type = do
  obj ← get_inject_external_address_obj
  lift (injected_address obj chain asset_type)
