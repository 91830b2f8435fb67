-- ===== src/Verify/AuthInfos.antt =====
-- packages/server/src/helper/verify.helper.ts: the addresses that a user has authorized, and the
-- keys of the locks that a request for a token takes.
use cot_server.Base.{String, Bool, ◌&&◌, Option, List, [], ◌∷◌, map, any, str_eq, if◌then◌else◌}
use cot_server.Model.Chain.{ExternalChainName}
use cot_server.Host.{Host, Result, ok, err, not_in_auth_infos}

-- COTCore.Verify.AuthInfo; CHAIN_ID is an enumeration of texts of the wallet SDK.
pub record AuthInfo : Type 0 where
  pub chain_id : String
  pub address : String
  pub public_key : Option String
  pub signature : String

-- getKey
abbrev pub get_key : String → String
get_key token = Prim.Native.String.◌++◌ "login:" token

-- getTokenLockKey
abbrev pub get_token_lock_key : String → String
get_token_lock_key value = Prim.Native.String.◌++◌ "tokenLock:" value

-- The texts of a list without a text.
unfoldable pub remove : String → List String → List String
remove x [] = []
remove x (y ∷ ys) = let others = remove x ys in if str_eq x y then others else y ∷ others

-- `Array.from(new Set(texts))`: each text where it comes first.
unfoldable pub unique : List String → List String
unfolding remove
unique [] = []
unique (x ∷ xs) = x ∷ remove x (unique xs)

unfoldable pub sorted_insert : (String → String → Bool) → String → List String → List String
sorted_insert leq x [] = x ∷ []
sorted_insert leq x (y ∷ ys) =
    let others = sorted_insert leq x ys in if leq x y then x ∷ y ∷ ys else y ∷ others

-- `sort`, which keeps the order of texts that compare as equal.
unfoldable pub sort : (String → String → Bool) → List String → List String
unfolding sorted_insert
sort leq [] = []
sort leq (x ∷ xs) = sorted_insert leq x (sort leq xs)

-- The keys, without repetition.
unfoldable pub token_lock_keys : String → List AuthInfo → List String
unfolding unique
token_lock_keys device_id auth_infos =
    unique (get_token_lock_key device_id ∷ map (λ v. get_token_lock_key v.address) auth_infos)

-- getAllTokenLockKey
unfoldable pub get_all_token_lock_key : Host → String → List AuthInfo → List String
unfolding sort
get_all_token_lock_key h device_id auth_infos =
    sort h.locale_leq (token_lock_keys device_id auth_infos)

-- verifyWalletAddressInAuthInfos
unfoldable pub verify_wallet_address_in_auth_infos :
    Host → String → ExternalChainName → List AuthInfo → Result (Unit {0})
verify_wallet_address_in_auth_infos h wallet_address wallet_chain auth_infos =
    if any
      (λ v.
        str_eq (h.text_of_chain wallet_chain) v.chain_id
        && h.same_lower_case wallet_address v.address)
      auth_infos
    then ok tt
    else err not_in_auth_infos

-- verifyInternalAddressInAuthInfos
unfoldable pub verify_internal_address_in_auth_infos :
    Host → String → List AuthInfo → Result (Unit {0})
verify_internal_address_in_auth_infos h internal_address auth_infos =
    if any (λ v. str_eq h.bioforest_chain v.chain_id && str_eq internal_address v.address)
      auth_infos
    then ok tt
    else err not_in_auth_infos

-- getAllMyAddresses
unfoldable pub get_all_my_addresses : List AuthInfo → List String
get_all_my_addresses auth_infos = map (λ v. v.address) auth_infos
