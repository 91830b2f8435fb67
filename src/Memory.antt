-- ===== src/Memory.antt =====
-- packages/server/src/module/memory/memory.service.ts: the keypairs that administrators inject into
-- the order process, held in memory only.
pub mod Injection
use cot_server.Base.{
  String, Bool, true, false, Option, none, some, List, [], ◌∷◌, lookup, insert, is_some,
  if◌then◌else◌,
}
use cot_server.Host.{
  call, get_server_keypair, ◌>>◌, Host, wrong_worker, not_injected, Result, ok, err, decrypt,
  create_keypair, address_from_secret, forward_to_order_worker, Action, pure, lift, host, get, put,
  ask, ask_now, ◌>>=◌, ◌>>◌, catch_with,
}

-- COTCore.Verify.AccountType: the secret and the keypair made from it.
pub record AccountType : Type 0 where
  pub secret : String
  pub keypair : String

-- `__rwkeypairMap`
abbrev pub RwKeypairs : Type 0
RwKeypairs = List (String × AccountType)

-- ProcessCheck.checkInOrderWorker
unfoldable pub check_in_order_worker : Host → Result (Unit {0})
check_in_order_worker h = if h.is_order_worker then ok tt else err wrong_worker

or_not_injected : Option AccountType → Result AccountType
or_not_injected none = err not_injected
or_not_injected (some keypair) = ok keypair

-- forceGetRWKeypair; `keypair` is an object, so it counts as true when it is there.
unfoldable pub force_get_rw_keypair : Host → String → RwKeypairs → Result AccountType
unfolding check_in_order_worker or_not_injected
force_get_rw_keypair h account_type keypairs = elim (check_in_order_worker h) [
  | err e ↦ err e
  | ok _ ↦ or_not_injected (lookup account_type keypairs)
]

-- setRWKeypair: false, and no change, when the type has a keypair already.
unfoldable pub set_rw_keypair : String → AccountType → Action RwKeypairs Bool
set_rw_keypair account_type keypair = do
  h ← host
  lift (check_in_order_worker h)
  keypairs ← get
  if is_some (lookup account_type keypairs)
      then pure false
      else do put (insert account_type keypair keypairs); pure true

-- The part of injectRWAddress inside `try`.
inject_secret : String → String → Action RwKeypairs Bool
unfolding set_rw_keypair
inject_secret account_type secret = do
  keypair ← ask (λ h. h.text) (create_keypair secret)
  set_rw_keypair account_type (record { secret = secret; keypair = keypair })

-- injectRWAddress. The host's `decrypt` gives the decrypted and parsed text, or `undefined` if it
-- cannot be decrypted; a parse error there is an error inside `try`, so `false` as well.
unfoldable pub inject_rw_address : String → String → Action RwKeypairs Bool
unfolding inject_secret
inject_rw_address account_type keypair_str = do
  h ← host
  if h.is_order_worker
      then (do
        call get_server_keypair
        secret ← ask_now (λ h. h.optional_text) (decrypt keypair_str)
        elim secret [
          | none ↦ pure false
          | some s ↦ catch_with (inject_secret account_type s) false
        ])
      else ask (λ h. h.flag) (forward_to_order_worker "INJECT_RW_SECRET")

-- getAllRWKeypair
unfoldable pub get_all_rw_keypair : Action RwKeypairs RwKeypairs
unfolding check_in_order_worker
get_all_rw_keypair = do h ← host; lift (check_in_order_worker h); get

-- The loop of getInjectAddress, over the keypairs that are there when it starts; one that is
-- injected while the loop waits would come last.
unfoldable pub addresses_of : RwKeypairs → Action RwKeypairs (List (String × String))
addresses_of [] = pure []
addresses_of ((account_type, info) ∷ rest) = do
  address ← ask (λ h. h.text) (address_from_secret info.secret)
  others ← addresses_of rest
  pure ((account_type, address) ∷ others)

-- getInjectAddress
unfoldable pub get_inject_address : Action RwKeypairs (List (String × String))
unfolding get_all_rw_keypair addresses_of
get_inject_address = do
  h ← host
  if h.is_order_worker
      then get_all_rw_keypair >>= addresses_of
      else ask (λ h. h.account_addresses) (forward_to_order_worker "GET_INJECT_RW_ADDRESS")
