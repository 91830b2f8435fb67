-- ===== src/Settings/Chains.antt =====
-- What stays as it was when the external chains of an item are gone through.
use cot_server.Base.{◌≡◌, refl, ◌∙◌, false, Option, none, some, List, [], ◌∷◌, truthy}
use cot_server.Model.Chain.{ExternalChainName, eth, bsc, tron}
use cot_server.Model.Config.{ExternalAssetInfoItem, SupportChain}
use cot_server.Host.{Host, Action, pure}
use cot_server.Host.Returns.{Returns, Returns-after, Returns-pure, Returns-map, Returns-with_host}
use cot_server.Settings.{if_there, change_chain, each_key, each_chain}

-- An external chain's item keeps its switch and its contract, and without a contract the name of
-- its asset.
pub record SameExternal (x y : ExternalAssetInfoItem) : Type 0 where
  pub enable : y.enable ≡ x.enable
  pub contract : y.contract ≡ x.contract
  pub asset_type : truthy x.contract ≡ false → y.asset_type ≡ x.asset_type

abbrev pub SameOption : (x y : Option ExternalAssetInfoItem) → Type 0
SameOption none none = Unit
SameOption (some x) (some y) = SameExternal x y
SameOption _ _ = ⊥

pub record SameChains (x y : SupportChain) : Type 0 where
  pub eth_item : SameOption x.eth_item y.eth_item
  pub bsc_item : SameOption x.bsc_item y.bsc_item
  pub tron_item : SameOption x.tron_item y.tron_item

pub SameExternal-trans :
    {x y z : ExternalAssetInfoItem} → SameExternal x y → SameExternal y z → SameExternal x z
SameExternal-trans p q = record {
  enable = q.enable ∙ p.enable;
  contract = q.contract ∙ p.contract;
  asset_type = λ n. q.asset_type (rw p.contract n) ∙ p.asset_type n;
}

pub SameExternal-self : (x : ExternalAssetInfoItem) → SameExternal x x
SameExternal-self x = record { enable = refl; contract = refl; asset_type = λ _. refl }

SameOption-self : (x : Option ExternalAssetInfoItem) → SameOption x x
SameOption-self none = tt
SameOption-self (some x) = SameExternal-self x

SameOption-trans :
    (x y z : Option ExternalAssetInfoItem) → SameOption x y → SameOption y z → SameOption x z
SameOption-trans none none none p q = tt
SameOption-trans none none (some z) p q = absurd q
SameOption-trans none (some y) z p q = absurd p
SameOption-trans (some x) none z p q = absurd p
SameOption-trans (some x) (some y) none p q = absurd q
SameOption-trans (some x) (some y) (some z) p q = SameExternal-trans p q

SameChains-self : (x : SupportChain) → SameChains x x
SameChains-self x = record {
  eth_item = SameOption-self x.eth_item;
  bsc_item = SameOption-self x.bsc_item;
  tron_item = SameOption-self x.tron_item;
}

SameChains-trans : (x y z : SupportChain) → SameChains x y → SameChains y z → SameChains x z
SameChains-trans x y z p q = record {
  eth_item = SameOption-trans x.eth_item y.eth_item z.eth_item p.eth_item q.eth_item;
  bsc_item = SameOption-trans x.bsc_item y.bsc_item z.bsc_item p.bsc_item q.bsc_item;
  tron_item = SameOption-trans x.tron_item y.tron_item z.tron_item p.tron_item q.tron_item;
}

module _ {S : Type 0} (h : Host) where
  pub if_there-Same :
      (f : ExternalAssetInfoItem → Action S ExternalAssetInfoItem)
      → ((x : ExternalAssetInfoItem) → Returns h (SameExternal x) (f x))
      → (o : Option ExternalAssetInfoItem) → Returns h (SameOption o) (if_there f o)
  unfolding if_there
  if_there-Same f k none = Returns-pure none tt
  if_there-Same f k (some x) =
      Returns-after (SameExternal x) (f x) (λ y. pure (some y)) (k x)
        (λ y p. Returns-pure (some y) p)

module _ {S : Type 0} (h : Host)
    (f : ExternalChainName → ExternalAssetInfoItem → Action S ExternalAssetInfoItem)
    (k : (c : ExternalChainName) (x : ExternalAssetInfoItem)
      → Returns h (SameExternal x) (f c x)) where
  change_chain-Same :
      (c : ExternalChainName) (chains : SupportChain)
      → Returns h (SameChains chains) (change_chain f c chains)
  unfolding change_chain
  change_chain-Same eth chains =
      let self = SameChains-self chains in
      Returns-after (SameOption chains.eth_item) (if_there (f eth) chains.eth_item)
        (λ e. pure (record chains { eth_item = e }))
        (if_there-Same h (f eth) (k eth) chains.eth_item)
        (λ e p.
          Returns-pure _
            (record { eth_item = p; bsc_item = self.bsc_item; tron_item = self.tron_item }))
  change_chain-Same bsc chains =
      let self = SameChains-self chains in
      Returns-after (SameOption chains.bsc_item) (if_there (f bsc) chains.bsc_item)
        (λ b. pure (record chains { bsc_item = b }))
        (if_there-Same h (f bsc) (k bsc) chains.bsc_item)
        (λ b p.
          Returns-pure _
            (record { eth_item = self.eth_item; bsc_item = p; tron_item = self.tron_item }))
  change_chain-Same tron chains =
      let self = SameChains-self chains in
      Returns-after (SameOption chains.tron_item) (if_there (f tron) chains.tron_item)
        (λ t. pure (record chains { tron_item = t }))
        (if_there-Same h (f tron) (k tron) chains.tron_item)
        (λ t p.
          Returns-pure _
            (record { eth_item = self.eth_item; bsc_item = self.bsc_item; tron_item = p }))
  change_chain-Same (ExternalChainName.other _) chains =
      Returns-pure chains (SameChains-self chains)

  each_key-Same :
      (keys : List ExternalChainName) (chains : SupportChain)
      → Returns h (SameChains chains) (each_key f keys chains)
  unfolding each_key
  each_key-Same [] chains = Returns-pure chains (SameChains-self chains)
  each_key-Same (c ∷ keys) chains =
      Returns-after (SameChains chains) (change_chain f c chains) (λ y. each_key f keys y)
        (change_chain-Same c chains)
        (λ y p.
          Returns-map (each_key f keys y) (λ z q. SameChains-trans chains y z p q)
            (each_key-Same keys y))

  pub each_chain-Same :
      (chains : SupportChain) → Returns h (SameChains chains) (each_chain f chains)
  unfolding each_chain
  each_chain-Same chains =
      Returns-with_host (λ g. each_key f (g.chain_keys chains) chains)
        (each_key-Same (h.chain_keys chains) chains)
