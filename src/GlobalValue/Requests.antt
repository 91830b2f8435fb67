-- ===== src/GlobalValue/Requests.antt =====
-- The accounts of the external chains as one map: what is asked of the repository, and what a map
-- from chains and assets to accounts, where the first account stays, answers.
use cot_server.Base.{
  Bool, not, ◌&&◌, String, Option, none, some, List, [], ◌∷◌, str_eq, is_some, if◌then◌else◌,
}
use cot_server.Model.Chain.{ExternalChainName, same_external}
use cot_server.Model.Wallet.{WalletAccount}
use cot_server.Host.{Host, World, Result, ok}
use cot_server.GlobalValue.{
  ExternalAccounts, set_external_keypair, force_get_external_keypair, account_or_error,
}
use cot_server.GlobalValue.Addresses.{get_inject_external_address, address_or_error}

-- What is asked of the repository.
pub data Request : Type 0 where
  inject : ExternalChainName → String → WalletAccount → Request
  look_up : ExternalChainName → String → Request
  show_address : ExternalChainName → String → Request

-- What it answers, by request.
pub data Answer : Type 0 where
  was_new : Result Bool → Answer
  found : Result WalletAccount → Answer
  shown : Result String → Answer

-- The methods that answer the requests.
abbrev pub serve : Host → Request → World ExternalAccounts → Answer × World ExternalAccounts
serve h (inject chain asset account) w =
    let (r, v) = set_external_keypair chain asset account h w in (was_new r, v)
serve h (look_up chain asset) w =
    let (r, v) = force_get_external_keypair chain asset h w in (found r, v)
serve h (show_address chain asset) w =
    let (r, v) = get_inject_external_address chain asset h w in (shown r, v)

-- The abstract view: the account, if any, of a chain and an asset.
abbrev pub Accounts : Type 0
Accounts = ExternalChainName → String → Option WalletAccount

abbrev pub with_account : ExternalChainName → String → WalletAccount → Accounts → Accounts
with_account chain asset account s c a =
    if is_some (s c a)
    then s c a
    else if same_external chain c && str_eq asset a
    then some account
    else none

abbrev pub address_of : Option WalletAccount → Option String
address_of none = none
address_of (some account) = some account.address

-- What is expected for a request: an injection says whether the account is new and never replaces
-- one, a look-up finds the account or is an error, and an address is that of the account.
abbrev pub expected : Request → Accounts → Answer × Accounts
expected (inject chain asset account) s =
    (was_new (ok (not (is_some (s chain asset)))), with_account chain asset account s)
expected (look_up chain asset) s = (found (account_or_error (s chain asset)), s)
expected (show_address chain asset) s = (shown (address_or_error (address_of (s chain asset))), s)

abbrev pub serve_all : Host → List Request → World ExternalAccounts → List Answer
serve_all h [] w = []
serve_all h (r ∷ requests) w = (serve h r w).0 ∷ serve_all h requests (serve h r w).1

abbrev pub expected_all : List Request → Accounts → List Answer
expected_all [] s = []
expected_all (r ∷ requests) s = (expected r s).0 ∷ expected_all requests (expected r s).1
