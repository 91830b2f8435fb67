-- ===== src/GlobalValue/Injection.antt =====
-- An account of an external chain that has been injected stays.
use cot_server.Base.{
  ◌≡◌, refl, sym, ap, ◌∙◌, Bool, true, false, ◌&&◌, String, Option, none, some, List, [], ◌∷◌,
  Bool-cases, inl, inr, subst, insert, lookup, lookup-insert, str_eq, str_eq_self, eq_iff, arith,
  is_some, Option-cases, if◌then◌else◌,
}
use cot_server.Model.Chain.{ExternalChainName, eth, bsc, tron, same_external}
use cot_server.Model.Wallet.{WalletAccount}
use cot_server.Host.{Host, World, ok, Action, pure, ◌>>=◌, ◌>>◌}
use cot_server.GlobalValue.{
  ExternalAccounts, AssetMap, chain_map, set_chain_map, find_account, account_in, or_empty,
  force_map, set_account, set_external_keypair,
}

pub same_external-eq : (a b : ExternalChainName) → same_external a b ≡ true → a ≡ b
same_external-eq eth eth _ = refl
same_external-eq bsc bsc _ = refl
same_external-eq tron tron _ = refl
same_external-eq (ExternalChainName.other s) (ExternalChainName.other t) e =
    ap ExternalChainName.other ((eq_iff s t).0 e)
same_external-eq a b e = ground (arith, e)

pub same_external_self : (a : ExternalChainName) → same_external a a ≡ true
same_external_self eth = refl
same_external_self bsc = refl
same_external_self tron = refl
same_external_self (ExternalChainName.other s) = str_eq_self s

pub chain_map-set_chain_map :
    {A : Type 0}
    → (chain c : ExternalChainName) (m : A) (accounts : List (ExternalChainName × A))
    → chain_map c (set_chain_map chain m accounts)
      ≡ (if same_external chain c then some m else chain_map c accounts)
unfolding chain_map set_chain_map
chain_map-set_chain_map chain c m [] = refl
chain_map-set_chain_map chain c m ((d, n) ∷ accounts) = ground (
  arith,
  chain_map-set_chain_map chain c m accounts,
  same_external-eq d chain,
  same_external-eq d c,
  same_external-eq chain c,
  same_external_self c,
  same_external_self chain,
)

pub lookup-or_empty : (a : String) (o : Option AssetMap) → lookup a (or_empty o) ≡ account_in o a
unfolding or_empty account_in lookup
lookup-or_empty a none = refl
lookup-or_empty a (some m) = refl

module _ (chain : ExternalChainName) (accounts : ExternalAccounts) (c : ExternalChainName)
    (a : String) where
  -- An empty map in the place of a missing one.
  find-force :
      chain_map chain accounts ≡ none
      → find_account (set_chain_map chain [] accounts) c a ≡ find_account accounts c a
  unfolding find_account account_in lookup
  find-force e =
      rw (chain_map-set_chain_map chain c [] accounts) (elim (Bool-cases (same_external chain c)) [
        | inl t ↦
            rw (t, subst (λ x. chain_map x accounts ≡ none) (same_external-eq chain c t) e) refl
        | inr f ↦ rw f refl
      ])

module _ (chain : ExternalChainName) (asset : String) (account : WalletAccount)
    (accounts : ExternalAccounts) (c : ExternalChainName) (a : String) where
  find-insert :
      find_account
        (set_chain_map chain (insert asset account (or_empty (chain_map chain accounts))) accounts)
        c
        a
      ≡ (if same_external chain c && str_eq asset a
          then some account
          else find_account accounts c a)
  unfolding find_account account_in or_empty
  find-insert =
      rw
        (chain_map-set_chain_map chain c
          (insert asset account (or_empty (chain_map chain accounts))) accounts)
        (elim (Bool-cases (same_external chain c)) [
          | inl t ↦
              subst
                (λ x.
                  account_in
                    (if same_external chain x
                      then some (insert asset account (or_empty (chain_map chain accounts)))
                      else chain_map x accounts)
                    a
                  ≡ (if same_external chain x && str_eq asset a
                      then some account
                      else account_in (chain_map x accounts) a))
                (same_external-eq chain c t)
                (rw
                  (
                    same_external_self chain,
                    lookup-insert asset a account (or_empty (chain_map chain accounts)),
                  )
                  (rw (lookup-or_empty a (chain_map chain accounts)) refl))
          | inr f ↦ rw f refl
        ])

-- The accounts once the chain has a map.
abbrev pub forced : ExternalChainName → ExternalAccounts → ExternalAccounts
forced chain accounts =
    if is_some (chain_map chain accounts) then accounts else set_chain_map chain [] accounts

pub force_map_lem :
    (h : Host) (chain : ExternalChainName) (w : World ExternalAccounts)
    → force_map chain h w
      ≡ (ok (or_empty (chain_map chain w.self)), record w { self = forced chain w.self })
unfolding force_map
force_map_lem h chain w = ground arith

pub find-forced :
    (chain c : ExternalChainName) (a : String) (accounts : ExternalAccounts)
    → find_account (forced chain accounts) c a ≡ find_account accounts c a
find-forced chain c a accounts = elim (Option-cases (chain_map chain accounts)) [
  | inl e ↦ rw e (find-force chain accounts c a e)
  | inr (m, e) ↦ rw e refl
]

first_wins :
    (x y : Option WalletAccount) (account : WalletAccount) (same : Bool)
    → (same ≡ true → x ≡ y)
    → (if is_some y then x else if same then some account else x)
      ≡ (if is_some x then x else if same then some account else none)
first_wins x y account same e = ground (arith, e)

both : (b c : Bool) → (b && c) ≡ true → (b ≡ true) × (c ≡ true)
both true true e = (refl, refl)
both true false e = ground (arith, e)
both false c e = ground (arith, e)

-- What the rest of __setExternalKeypair does once the map is there.
abbrev pub set_in :
    ExternalChainName → String → WalletAccount → AssetMap → Action ExternalAccounts Bool
set_in chain asset account m =
    if is_some (lookup asset m) then pure false else set_account chain asset account >> pure true

module _ (h : Host) (chain : ExternalChainName) (asset : String) (account : WalletAccount)
    (w : World ExternalAccounts) where
  pub set_external_keypair_steps :
      set_external_keypair chain asset account h w
      ≡ set_in chain asset account
          (or_empty (chain_map chain w.self))
          h
          (record w { self = forced chain w.self })
  unfolding set_external_keypair
  set_external_keypair_steps =
      ap (λ p. ◌>>=◌ (λ _ _. p) (set_in chain asset account) h w) (force_map_lem h chain w)

  same_place :
      (c : ExternalChainName) (a : String)
      → (same_external chain c && str_eq asset a) ≡ true
      → find_account w.self c a ≡ find_account w.self chain asset
  same_place c a e =
      let (p, q) = both (same_external chain c) (str_eq asset a) e in
      ap (λ x. find_account w.self x a) (sym (same_external-eq chain c p))
      ∙ ap (λ x. find_account w.self chain x) (sym ((eq_iff asset a).0 q))

  find-set_in :
      (c : ExternalChainName) (a : String)
      → find_account
          (set_in chain asset account
            (or_empty (chain_map chain w.self))
            h
            (record w { self = forced chain w.self })).1.self
          c
          a
        ≡ (if is_some (find_account w.self chain asset)
            then find_account w.self c a
            else if same_external chain c && str_eq asset a
            then some account
            else find_account w.self c a)
  unfolding set_account find_account
  find-set_in c a =
      rw (lookup-or_empty asset (chain_map chain w.self))
        (elim (Bool-cases (is_some (account_in (chain_map chain w.self) asset))) [
          | inl t ↦ rw t (find-forced chain c a w.self)
          | inr f ↦ rw f (
              find-insert chain asset account (forced chain w.self) c a
              ∙ ap (λ x. if same_external chain c && str_eq asset a then some account else x)
                  (find-forced chain c a w.self))
        ])

  -- What is looked up after an injection: an account that was there stays, whatever is injected; the
  -- injected account is found under its chain and asset if none was there; nothing else appears.
  pub set_external_keypair_lem :
      (c : ExternalChainName) (a : String)
      → find_account (set_external_keypair chain asset account h w).1.self c a ≡ (
          if is_some (find_account w.self c a)
          then find_account w.self c a
          else if same_external chain c && str_eq asset a
          then some account
          else none)
  set_external_keypair_lem c a =
      ap (λ p. find_account p.1.self c a) set_external_keypair_steps
      ∙ find-set_in c a
      ∙ first_wins _ _ account _ (same_place c a)
