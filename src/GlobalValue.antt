-- ===== src/GlobalValue.antt =====
-- packages/server/src/module/redis/global-value.redis-repository.ts: the accounts of the external
-- chains, held in memory by the order process.
pub mod Addresses
pub mod Keys
pub mod Injection
pub mod Requests
pub mod Store
pub mod Accounts
use cot_server.Base.{
  String, Bool, true, false, Option, none, some, List, [], ◌∷◌, lookup, insert, is_some,
  if◌then◌else◌,
}
use cot_server.Model.Chain.{ExternalChainName, same_external}
use cot_server.Model.Wallet.{WalletAccount}
use cot_server.Host.{
  Host, not_injected, not_support_chain, decrypt_fail, Result, ok, err, Action, pure, throw,
  or_throw, lift, host, get, put, ask, ask_now, call, ◌>>=◌, ◌>>◌, catch_with, decrypt, encrypt,
  forward_to_order_worker, derive_account, get_account_value, set_account_value, generate_mnemonic,
  get_server_keypair,
}

-- The inner maps of `__externalkeypairMap`.
abbrev pub AssetMap : Type 0
AssetMap = List (String × WalletAccount)

-- `__externalkeypairMap`
abbrev pub ExternalAccounts : Type 0
ExternalAccounts = List (ExternalChainName × AssetMap)

-- What a Map or an object whose keys are chains has for a chain.
unfoldable pub chain_map :
    {A : Type 0} → ExternalChainName → List (ExternalChainName × A) → Option A
chain_map chain [] = none
chain_map chain ((c, m) ∷ rest) = if same_external c chain then some m else chain_map chain rest

-- The same after a chain has been set: it keeps its place, a new one comes last.
unfoldable pub set_chain_map :
    {A : Type 0}
    → ExternalChainName
    → A
    → List (ExternalChainName × A)
    → List (ExternalChainName × A)
set_chain_map chain m [] = (chain, m) ∷ []
set_chain_map chain m ((c, n) ∷ rest) =
    if same_external c chain then (c, m) ∷ rest else (c, n) ∷ set_chain_map chain m rest

unfoldable pub account_in : Option AssetMap → String → Option WalletAccount
account_in none asset_type = none
account_in (some m) asset_type = lookup asset_type m

unfoldable pub find_account : ExternalAccounts → ExternalChainName → String → Option WalletAccount
unfolding account_in chain_map
find_account accounts chain asset_type = account_in (chain_map chain accounts) asset_type

unfoldable pub account_or_error : Option WalletAccount → Result WalletAccount
account_or_error none = err not_injected
account_or_error (some account) = ok account

-- The result of forceGetExternalKeypair.
unfoldable pub external_keypair :
    ExternalAccounts → ExternalChainName → String → Result WalletAccount
unfolding account_or_error
external_keypair accounts chain asset_type =
    account_or_error (find_account accounts chain asset_type)

unfoldable pub or_empty : {A : Type 0} → Option (List A) → List A
or_empty none = []
or_empty (some m) = m

-- `__externalkeypairMap.forceGet(chainName)`: a chain that has no map gets an empty one.
unfoldable pub force_map : ExternalChainName → Action ExternalAccounts AssetMap
unfolding or_empty
force_map chain = do
  accounts ← get
  let found = chain_map chain accounts
  if is_some found then pure tt else put (set_chain_map chain [] accounts)
  pure (or_empty found)

-- forceGetExternalKeypair, with the empty map that a chain may get.
unfoldable pub force_get_external_keypair :
    ExternalChainName → String → Action ExternalAccounts WalletAccount
unfolding force_map account_or_error
force_get_external_keypair chain asset_type = do
  m ← force_map chain
  lift (account_or_error (lookup asset_type m))

-- `assetMap.set(assetType, account)`, on the map that the chain has then.
unfoldable pub set_account :
    ExternalChainName → String → WalletAccount → Action ExternalAccounts (Unit {0})
unfolding or_empty
set_account chain asset_type account = do
  accounts ← get
  put (
      set_chain_map chain (insert asset_type account (or_empty (chain_map chain accounts)))
        accounts)

-- __setExternalKeypair: false, and no change, when the asset has an account already.
unfoldable pub set_external_keypair :
    ExternalChainName → String → WalletAccount → Action ExternalAccounts Bool
unfolding force_map set_account
set_external_keypair chain asset_type account = do
  m ← force_map chain
  if is_some (lookup asset_type m)
      then pure false
      else do set_account chain asset_type account; pure true

-- __transformAccount: the wallet library derives the account of a mnemonic.
unfoldable pub transform_account :
    ExternalChainName → String → Action ExternalAccounts WalletAccount
transform_account (ExternalChainName.other _) secret = throw not_support_chain
transform_account chain secret = ask (λ h. h.account) (derive_account chain secret)

-- The part of injectExternalAddress inside `try`.
inject_mnemonic : ExternalChainName → String → String → Action ExternalAccounts Bool
unfolding set_external_keypair transform_account
inject_mnemonic chain asset_type mnemonic = do
  account ← transform_account chain mnemonic
  set_external_keypair chain asset_type account

-- injectExternalAddress
unfoldable pub inject_external_address :
    ExternalChainName → String → String → Action ExternalAccounts Bool
unfolding inject_mnemonic
inject_external_address chain asset_type keypair_str = do
  h ← host
  if h.is_order_worker
      then (do
        call get_server_keypair
        secret ← ask_now (λ h. h.optional_text) (decrypt keypair_str)
        elim secret [
          | none ↦ pure false
          | some s ↦ catch_with (inject_mnemonic chain asset_type s) false
        ])
      else ask (λ h. h.flag) (forward_to_order_worker "INJECT_EXTERNAL_SECRET")

-- __getAccountKey
unfoldable pub get_account_key : Host → ExternalChainName → String → String
get_account_key h chain asset_type =
    Prim.Native.String.◌++◌ (h.text_of_chain chain) (Prim.Native.String.◌++◌ "_" asset_type)

-- __initAccount: a new account, whose encrypted mnemonic is kept in Redis.
unfoldable pub init_account : ExternalChainName → String → Action ExternalAccounts WalletAccount
unfolding force_map set_account transform_account
init_account chain asset_type = do
  h ← host
  m ← force_map chain
  call get_server_keypair
  secret ← ask_now (λ h. h.text) generate_mnemonic
  message ← ask_now (λ h. h.text) (encrypt secret)
  call (set_account_value (get_account_key h chain asset_type) message)
  account ← transform_account chain secret
  set_account chain asset_type account
  pure account

-- The account whose encrypted mnemonic Redis has kept.
unfoldable pub restore_account :
    ExternalChainName → String → String → Action ExternalAccounts WalletAccount
unfolding set_account transform_account
restore_account chain asset_type redis_value = do
  found ← ask_now (λ h. h.optional_text) (decrypt redis_value)
  secret ← or_throw found decrypt_fail
  account ← transform_account chain secret
  set_account chain asset_type account
  pure account

unfoldable pub account_from_redis :
    ExternalChainName → String → Option String → Action ExternalAccounts WalletAccount
unfolding init_account restore_account
account_from_redis chain asset_type none = init_account chain asset_type
account_from_redis chain asset_type (some v) = restore_account chain asset_type v

-- An account that is not in memory.
unfoldable pub account_of_redis : ExternalChainName → String → Action ExternalAccounts WalletAccount
unfolding account_from_redis
account_of_redis chain asset_type = do
  h ← host
  call get_server_keypair
  redis_value ← ask (λ h. h.optional_text) (get_account_value (get_account_key h chain asset_type))
  account_from_redis chain asset_type redis_value

-- An account from memory, if it is there.
unfoldable pub account_or_redis :
    ExternalChainName → String → Option WalletAccount → Action ExternalAccounts WalletAccount
unfolding account_of_redis
account_or_redis chain asset_type (some account) = pure account
account_or_redis chain asset_type none = account_of_redis chain asset_type

-- initExternalAccount: from memory, else from Redis, else new. Redis answers a text that is not
-- empty, or nothing.
unfoldable pub init_external_account :
    ExternalChainName → String → Action ExternalAccounts WalletAccount
unfolding force_map account_or_redis
init_external_account chain asset_type = do
  call get_server_keypair
  m ← force_map chain
  account_or_redis chain asset_type (lookup asset_type m)
