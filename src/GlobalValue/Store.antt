-- ===== src/GlobalValue/Store.antt =====
-- The Maps of the order process implement the map of GlobalValue/Requests.
use cot_server.Base.{
  ◌≡◌, refl, sym, ap, ◌∙◌, true, not, ◌&&◌, String, none, some, List, [], ◌∷◌, Bool-cases, inl, inr,
  lookup, str_eq, is_some, subst, if◌then◌else◌, insert,
}
use cot_server.Model.Chain.{ExternalChainName, same_external}
use cot_server.Model.Wallet.{WalletAccount}
use cot_server.Host.{Host, World, ok, lift, ◌>>=◌}
use cot_server.GlobalValue.{
  ExternalAccounts, AssetMap, chain_map, find_account, account_in, or_empty, set_external_keypair,
  force_get_external_keypair, account_or_error, set_account,
}
use cot_server.GlobalValue.Addresses.{
  get_inject_external_address, get_inject_external_address_obj, injected_address, address_or_error,
}
use cot_server.GlobalValue.Requests.{
  Request, inject, look_up, show_address, Accounts, was_new, found, shown, serve, serve_all,
  expected, expected_all, address_of,
}
use cot_server.GlobalValue.Keys.{
  AreMaps, set_chain_map-AreMaps, chain_map-IsMap, insert-IsMap, address-add_chains,
}
use cot_server.GlobalValue.Injection.{
  set_external_keypair_lem, set_external_keypair_steps, force_map_lem, lookup-or_empty, forced,
  set_in, find-forced,
}

-- The Maps of the process hold the abstract map.
abbrev pub Represents : ExternalAccounts → Accounts → Type 0
Represents accounts s =
    AreMaps accounts × ((c : ExternalChainName) (a : String) → find_account accounts c a ≡ s c a)

forced-AreMaps :
    (chain : ExternalChainName) (accounts : ExternalAccounts)
    → AreMaps accounts
    → AreMaps (forced chain accounts)
forced-AreMaps chain accounts d = elim (Bool-cases (is_some (chain_map chain accounts))) [
  | inl t ↦ rw t d
  | inr f ↦ rw f (set_chain_map-AreMaps chain [] accounts tt d)
]

module _ (h : Host) (chain : ExternalChainName) (asset : String) (w : World ExternalAccounts) where
  set_in-AreMaps :
      (account : WalletAccount) (m : AssetMap)
      → AreMaps w.self
      → AreMaps (set_in chain asset account m h w).1.self
  unfolding set_account
  set_in-AreMaps account m d = elim (Bool-cases (is_some (lookup asset m))) [
    | inl t ↦ rw t d
    | inr f ↦ rw f (
        set_chain_map-AreMaps chain (insert asset account (or_empty (chain_map chain w.self)))
          w.self
          (insert-IsMap asset account (or_empty (chain_map chain w.self))
            (chain_map-IsMap chain w.self d))
          d)
  ]

  set_in_result :
      (account : WalletAccount) (m : AssetMap)
      → (set_in chain asset account m h w).0 ≡ ok (not (is_some (lookup asset m)))
  unfolding set_account
  set_in_result account m = elim (Bool-cases (is_some (lookup asset m))) [
    | inl t ↦ rw t refl
    | inr f ↦ rw f refl
  ]

module _ (h : Host) (chain : ExternalChainName) (asset : String) (w : World ExternalAccounts) where
  force_get_external_keypair_lem : force_get_external_keypair chain asset h w ≡ (
    account_or_error (find_account w.self chain asset),
    record w { self = forced chain w.self },
  )
  unfolding force_get_external_keypair find_account
  force_get_external_keypair_lem =
      ap (λ p. ◌>>=◌ (λ _ _. p) (λ m. lift (account_or_error (lookup asset m))) h w)
        (force_map_lem h chain w)
      ∙ ap (λ x. (account_or_error x, record w { self = forced chain w.self }))
          (lookup-or_empty asset (chain_map chain w.self))

  get_inject_external_address_lem :
      h.is_order_worker ≡ true
      → AreMaps w.self
      → get_inject_external_address chain asset h w
        ≡ (address_or_error (address_of (find_account w.self chain asset)), w)
  unfolding get_inject_external_address get_inject_external_address_obj injected_address
  get_inject_external_address_lem worker d =
      rw worker (ap (λ x. (address_or_error x, w)) (address-add_chains chain asset w.self d))

  set_external_keypair_result :
      (account : WalletAccount)
      → (set_external_keypair chain asset account h w).0
        ≡ ok (not (is_some (find_account w.self chain asset)))
  unfolding find_account
  set_external_keypair_result account =
      ap (λ p. p.0) (set_external_keypair_steps h chain asset account w)
      ∙ set_in_result h chain asset (record w { self = forced chain w.self }) account
          (or_empty (chain_map chain w.self))
      ∙ ap (λ x. ok (not (is_some x))) (lookup-or_empty asset (chain_map chain w.self))

module _ (h : Host) (w : World ExternalAccounts) (s : Accounts) (r : Represents w.self s)
    (worker : h.is_order_worker ≡ true) where
  serve-expected : (q : Request) → (serve h q w).0 ≡ (expected q s).0
  serve-expected (inject chain asset account) =
      ap was_new (set_external_keypair_result h chain asset w account)
      ∙ ap (λ x. was_new (ok (not (is_some x)))) (r.1 chain asset)
  serve-expected (look_up chain asset) =
      ap (λ p. found p.0) (force_get_external_keypair_lem h chain asset w)
      ∙ ap (λ x. found (account_or_error x)) (r.1 chain asset)
  serve-expected (show_address chain asset) =
      ap (λ p. shown p.0) (get_inject_external_address_lem h chain asset w worker r.0)
      ∙ ap (λ x. shown (address_or_error (address_of x))) (r.1 chain asset)

  serve-Represents : (q : Request) → Represents (serve h q w).1.self (expected q s).1
  serve-Represents (inject chain asset account) = (
    subst (λ p. AreMaps p.1.self) (sym (set_external_keypair_steps h chain asset account w))
        (set_in-AreMaps h chain asset (record w { self = forced chain w.self }) account
          (or_empty (chain_map chain w.self)) (forced-AreMaps chain w.self r.0)),
    λ c a.
        set_external_keypair_lem h chain asset account w c a
        ∙ ap
            (λ x.
              if is_some x
              then x
              else if same_external chain c && str_eq asset a
              then some account
              else none)
            (r.1 c a),
  )
  serve-Represents (look_up chain asset) =
      subst (λ p. Represents p.1.self s) (sym (force_get_external_keypair_lem h chain asset w))
        (forced-AreMaps chain w.self r.0, λ c a. find-forced chain c a w.self ∙ r.1 c a)
  serve-Represents (show_address chain asset) =
      subst (λ p. Represents p.1.self s)
        (sym (get_inject_external_address_lem h chain asset w worker r.0)) r

module _ (h : Host) (worker : h.is_order_worker ≡ true) where
  serve_all-expected :
      (requests : List Request) (w : World ExternalAccounts) (s : Accounts)
      → Represents w.self s
      → serve_all h requests w ≡ expected_all requests s
  serve_all-expected [] w s r = refl
  serve_all-expected (q ∷ requests) w s r =
      ap (λ a. a ∷ serve_all h requests (serve h q w).1) (serve-expected h w s r worker q)
      ∙ ap (λ rest. (expected q s).0 ∷ rest)
          (serve_all-expected requests (serve h q w).1 (expected q s).1
            (serve-Represents h w s r worker q))

  -- In the order process, which starts without accounts, the answers to any sequence of calls
  -- of __setExternalKeypair, forceGetExternalKeypair and getInjectExternalAddress are those of
  -- a map from chains and assets to accounts in which an account is never replaced.
  pub accounts-Refines :
      (requests : List Request) (w : World ExternalAccounts)
      → w.self ≡ []
      → serve_all h requests w ≡ expected_all requests (λ _ _. none)
  unfolding find_account chain_map account_in
  accounts-Refines requests w e =
      serve_all-expected requests w (λ _ _. none)
        (subst (λ x. Represents x (λ _ _. none)) (sym e) (tt, λ c a. refl))
