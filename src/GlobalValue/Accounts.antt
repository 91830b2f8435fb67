-- ===== src/GlobalValue/Accounts.antt =====
-- The calls that initExternalAccount makes.
use cot_server.Base.{String, Option, none, some}
use cot_server.Model.Chain.{ExternalChainName, eth, bsc, tron}
use cot_server.Model.Wallet.{WalletAccount}
use cot_server.Host.{
  Host, Call, encrypt, decrypt, derive_account, get_account_value, set_account_value,
  generate_mnemonic, get_server_keypair,
}
use cot_server.Host.Keeps.{CallsOnly, calls_only, CallsOnly-throw}
use cot_server.GlobalValue.{
  force_map, set_account, transform_account, init_account, restore_account, account_from_redis,
  account_of_redis, account_or_redis, init_external_account,
}

-- The calls of the keys and of the accounts.
abbrev pub KeyCall : Call → Type 0
KeyCall get_server_keypair = Unit
KeyCall generate_mnemonic = Unit
KeyCall (encrypt _) = Unit
KeyCall (decrypt _) = Unit
KeyCall (derive_account _ _) = Unit
KeyCall (get_account_value _) = Unit
KeyCall (set_account_value _ _) = Unit
KeyCall _ = ⊥

module _ (h : Host) (chain : ExternalChainName) where
  force_map-KeyCall : CallsOnly h KeyCall (force_map chain)
  unfolding force_map
  force_map-KeyCall = search (calls_only) depth 20

  set_account-KeyCall :
      (asset_type : String) (account : WalletAccount)
      → CallsOnly h KeyCall (set_account chain asset_type account)
  unfolding set_account
  set_account-KeyCall asset_type account = search (calls_only) depth 20

transform_account-KeyCall :
    (h : Host) (chain : ExternalChainName) (secret : String)
    → CallsOnly h KeyCall (transform_account chain secret)
unfolding transform_account
transform_account-KeyCall h (ExternalChainName.other s) secret = CallsOnly-throw _
transform_account-KeyCall h eth secret = search (calls_only) depth 20
transform_account-KeyCall h bsc secret = search (calls_only) depth 20
transform_account-KeyCall h tron secret = search (calls_only) depth 20

module _ (h : Host) (chain : ExternalChainName) (asset_type : String) where
  init_account-KeyCall : CallsOnly h KeyCall (init_account chain asset_type)
  unfolding init_account
  init_account-KeyCall =
      search (calls_only, force_map-KeyCall, set_account-KeyCall, transform_account-KeyCall) depth
        20

  restore_account-KeyCall :
      (redis_value : String) → CallsOnly h KeyCall (restore_account chain asset_type redis_value)
  unfolding restore_account
  restore_account-KeyCall redis_value =
      search (calls_only, set_account-KeyCall, transform_account-KeyCall) depth 20

  account_from_redis-KeyCall :
      (o : Option String) → CallsOnly h KeyCall (account_from_redis chain asset_type o)
  unfolding account_from_redis
  account_from_redis-KeyCall none = init_account-KeyCall
  account_from_redis-KeyCall (some v) = restore_account-KeyCall v

  account_of_redis-KeyCall : CallsOnly h KeyCall (account_of_redis chain asset_type)
  unfolding account_of_redis
  account_of_redis-KeyCall = search (calls_only, account_from_redis-KeyCall) depth 20

  account_or_redis-KeyCall :
      (o : Option WalletAccount) → CallsOnly h KeyCall (account_or_redis chain asset_type o)
  unfolding account_or_redis
  account_or_redis-KeyCall (some account) = search (calls_only) depth 20
  account_or_redis-KeyCall none = account_of_redis-KeyCall

  pub init_external_account-KeyCall : CallsOnly h KeyCall (init_external_account chain asset_type)
  unfolding init_external_account
  init_external_account-KeyCall =
      search (calls_only, force_map-KeyCall, account_or_redis-KeyCall) depth 20
