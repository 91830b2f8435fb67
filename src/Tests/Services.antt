-- ===== src/Tests/Services.antt =====
-- Examples for signatures and for injected keys.
use cot_server.Base.{◌≡◌, ◌↔◌, refl, List, [], ◌∷◌, true, false, none, some, arith, String, lookup}
use cot_server.Model.Recharge.{encode_message}
use cot_server.Host.{ok, err, not_injected, alone}
use cot_server.Verify.{verify_signature}
use cot_server.Verify.AuthInfos.{
  AuthInfo, get_token_lock_key, token_lock_keys, get_all_token_lock_key,
}
use cot_server.Verify.LockOrder.{before, get_all_token_lock_key-SameOrder}
use cot_server.Verify.Signature.{IsSigned, verify_signature-IsSigned}
use cot_server.Memory.{AccountType, set_rw_keypair}
use cot_server.Memory.Injection.{set_rw_keypair_lem}
use cot_server.Model.Chain.{bsc}
use cot_server.Model.Wallet.{WalletAccount}
use cot_server.GlobalValue.Requests.{
  Request, inject, look_up, show_address, was_new, found, shown, serve_all,
}
use cot_server.GlobalValue.{account_or_error}
use cot_server.GlobalValue.Addresses.{address_or_error}
use cot_server.GlobalValue.Store.{accounts-Refines}
use cot_server.Tests.Data.{example_host, signature, receiver, keypairs, account}

verify_signature-IsSigned_example :
    ((verify_signature signature (encode_message receiver) "5000" example_host (alone tt [])).0
      ≡ ok tt)
    ↔ IsSigned example_host signature (encode_message receiver) "5000" []
verify_signature-IsSigned_example =
    verify_signature-IsSigned example_host signature (encode_message receiver) "5000" (alone tt [])

abbrev other_keypair : AccountType
other_keypair = record { secret = "s2"; keypair = "k2" }

set_rw_keypair_lem_example :
    lookup "rechargev2"
      (set_rw_keypair "rechargev2" other_keypair example_host (alone keypairs [])).1.self
    ≡ some (record { secret = "s"; keypair = "k" })
unfolding lookup
set_rw_keypair_lem_example =
    set_rw_keypair_lem example_host "rechargev2" other_keypair (alone keypairs []) refl "rechargev2"

abbrev other_account : WalletAccount
other_account = record { secret = "s2"; address = "0xd2"; private_key = "p2"; public_key = "q2" }

-- Another account for the same chain and asset is refused, and one for another asset is unknown.
abbrev requests : List Request
requests =
    inject bsc "USDT" account
    ∷ inject bsc "USDT" other_account
    ∷ look_up bsc "USDT"
    ∷ show_address bsc "USDT"
    ∷ show_address bsc "TUSD"
    ∷ []

accounts-Refines_example :
    serve_all example_host requests (alone [] [])
    ≡ was_new (ok true)
      ∷ was_new (ok false)
      ∷ found (ok account)
      ∷ shown (ok account.address)
      ∷ shown (err not_injected)
      ∷ []
unfolding account_or_error address_or_error
accounts-Refines_example = accounts-Refines example_host refl requests (alone [] []) refl

abbrev auth_info : String → AuthInfo
auth_info a = record { chain_id = "BSC"; address = a; public_key = none; signature = "s" }

total_example :
    (a b : String) → example_host.locale_leq a b ≡ false → example_host.locale_leq b a ≡ true
total_example a b e = ground (arith, e)

transitive_example :
    (a b c : String)
    → example_host.locale_leq a b ≡ true
    → example_host.locale_leq b c ≡ true
    → example_host.locale_leq a c ≡ true
transitive_example a b c d e = ground (arith, d, e)

-- The keys of two devices with the same two addresses, in another order.
get_all_token_lock_key-SameOrder_example :
    before
      (get_token_lock_key "bb")
      (get_token_lock_key "ccc")
      (get_all_token_lock_key example_host "d2" (auth_info "ccc" ∷ auth_info "bb" ∷ []))
    ≡ true
unfolding get_all_token_lock_key token_lock_keys
get_all_token_lock_key-SameOrder_example =
    get_all_token_lock_key-SameOrder example_host total_example transitive_example "d" "d2"
      (auth_info "bb" ∷ auth_info "ccc" ∷ []) (auth_info "ccc" ∷ auth_info "bb" ∷ [])
      (get_token_lock_key "bb") (get_token_lock_key "ccc") (λ d e. absurd (ground (arith, e))) refl
      refl refl
