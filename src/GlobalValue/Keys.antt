-- ===== src/GlobalValue/Keys.antt =====
-- The keys of the Maps of accounts: each stands there once, so the object of the addresses has for
-- every chain and asset what a look-up finds.
use cot_server.Base.{
  ◌≡◌, refl, ap, ◌∙◌, String, Option, none, some, [], ◌∷◌, Bool-cases, inl, inr, subst, insert,
  lookup, lookup-insert, str_eq, eq_iff, arith, if◌then◌else◌, Option-cases,
}
use cot_server.Model.Chain.{ExternalChainName, same_external}
use cot_server.Model.Wallet.{WalletAccount, AddressObj}
use cot_server.GlobalValue.{
  ExternalAccounts, AssetMap, chain_map, set_chain_map, find_account, account_in, or_empty,
}
use cot_server.GlobalValue.Addresses.{AssetAddresses, add_addresses, add_chains, asset_address}
use cot_server.GlobalValue.Requests.{address_of}
use cot_server.GlobalValue.Injection.{same_external-eq, same_external_self, chain_map-set_chain_map}

-- The keys of a Map differ from each other.
abbrev pub IsMap : AssetMap → Type 0
IsMap [] = Unit
IsMap ((asset, account) ∷ m) = (lookup asset m ≡ none) × IsMap m

abbrev pub AreMaps : ExternalAccounts → Type 0
AreMaps [] = Unit
AreMaps ((chain, m) ∷ accounts) = (chain_map chain accounts ≡ none) × IsMap m × AreMaps accounts

pub insert-IsMap :
    (asset : String) (account : WalletAccount) (m : AssetMap)
    → IsMap m
    → IsMap (insert asset account m)
unfolding lookup insert
insert-IsMap asset account [] d = (refl, tt)
insert-IsMap asset account ((a, old) ∷ m) (fresh, d) = elim (Bool-cases (str_eq a asset)) [
  | inl t ↦ rw t (subst (λ x. lookup x m ≡ none) ((eq_iff a asset).0 t) fresh, d)
  | inr f ↦ rw f (
    lookup-insert asset a account m ∙ ground (arith, f, fresh, eq_iff a asset, eq_iff asset a),
    insert-IsMap asset account m d,
  )
]

pub set_chain_map-AreMaps :
    (chain : ExternalChainName) (m : AssetMap) (accounts : ExternalAccounts)
    → IsMap m
    → AreMaps accounts
    → AreMaps (set_chain_map chain m accounts)
unfolding chain_map set_chain_map
set_chain_map-AreMaps chain m [] k d = (refl, k, tt)
set_chain_map-AreMaps chain m ((c, old) ∷ accounts) k (fresh, o, d) =
    elim (Bool-cases (same_external c chain)) [
      | inl t ↦ rw t (fresh, k, d)
      | inr f ↦ rw f (
        chain_map-set_chain_map chain c m accounts
            ∙ ground (
              arith,
              f,
              fresh,
              same_external-eq chain c,
              same_external_self chain,
              ap (λ x. same_external x chain),
            ),
        o,
        set_chain_map-AreMaps chain m accounts k d,
      )
    ]

pub chain_map-IsMap :
    (chain : ExternalChainName) (accounts : ExternalAccounts)
    → AreMaps accounts
    → IsMap (or_empty (chain_map chain accounts))
unfolding chain_map or_empty
chain_map-IsMap chain [] d = tt
chain_map-IsMap chain ((c, m) ∷ accounts) (fresh, k, d) =
    elim (Bool-cases (same_external c chain)) [
      | inl t ↦ rw t k
      | inr f ↦ rw f (chain_map-IsMap chain accounts d)
    ]

-- The address of an account, or what the object had.
abbrev pub address_over : Option WalletAccount → Option String → Option String
address_over none address = address
address_over (some account) address = some account.address

lookup-add_addresses :
    (asset : String) (m : AssetMap) (addresses : AssetAddresses)
    → IsMap m
    → lookup asset (add_addresses m addresses)
      ≡ address_over (lookup asset m) (lookup asset addresses)
unfolding add_addresses lookup
lookup-add_addresses asset [] addresses d = refl
lookup-add_addresses asset ((a, account) ∷ m) addresses (fresh, d) =
    lookup-add_addresses asset m (insert a account.address addresses) d
    ∙ rw (lookup-insert a asset account.address addresses) (elim (Bool-cases (str_eq a asset)) [
      | inl t ↦ rw (t, subst (λ x. lookup x m ≡ none) ((eq_iff a asset).0 t) fresh) refl
      | inr f ↦ rw f refl
    ])

abbrev pub addresses_over : Option AssetMap → Option AssetAddresses → Option AssetAddresses
addresses_over none found = found
addresses_over (some m) found = some (add_addresses m (or_empty found))

chain_map-add_chains :
    (chain : ExternalChainName) (accounts : ExternalAccounts) (obj : AddressObj)
    → AreMaps accounts
    → chain_map chain (add_chains accounts obj)
      ≡ addresses_over (chain_map chain accounts) (chain_map chain obj)
unfolding add_chains chain_map
chain_map-add_chains chain [] obj d = refl
chain_map-add_chains chain ((c, m) ∷ accounts) obj (fresh, k, d) =
    chain_map-add_chains chain accounts
      (set_chain_map c (add_addresses m (or_empty (chain_map c obj))) obj) d
    ∙ rw (chain_map-set_chain_map c chain (add_addresses m (or_empty (chain_map c obj))) obj)
        (elim (Bool-cases (same_external c chain)) [
          | inl t ↦
              subst
                (λ x.
                  addresses_over (chain_map x accounts) (
                    if same_external c x
                    then some (add_addresses m (or_empty (chain_map c obj)))
                    else chain_map x obj)
                  ≡ addresses_over (if same_external c x then some m else chain_map x accounts)
                      (chain_map x obj))
                (same_external-eq c chain t) (rw (same_external_self c, fresh) refl)
          | inr f ↦ rw f refl
        ])

address_over_none :
    (account : Option WalletAccount) → address_over account none ≡ address_of account
address_over_none none = refl
address_over_none (some account) = refl

-- The object has the address of the account that is found, and nothing else.
pub address-add_chains :
    (chain : ExternalChainName) (asset : String) (accounts : ExternalAccounts)
    → AreMaps accounts
    → asset_address asset (chain_map chain (add_chains accounts []))
      ≡ address_of (find_account accounts chain asset)
unfolding asset_address find_account account_in chain_map or_empty lookup
address-add_chains chain asset accounts d =
    rw (chain_map-add_chains chain accounts [] d) (elim (Option-cases (chain_map chain accounts)) [
      | inl e ↦ rw e refl
      | inr (m, e) ↦
          let k = subst (λ x. IsMap (or_empty x)) e (chain_map-IsMap chain accounts d) in
          rw e (lookup-add_addresses asset m [] k ∙ address_over_none (lookup asset m))
    ])
