-- ===== src/Settings/Items.antt =====
-- What the loops over a configuration leave as it was in an item.
use cot_server.Base.{refl, String, Option, some}
use cot_server.Model.Chain.{ExternalChainName, InternalChainName, eth, bsc, tron}
use cot_server.Model.Config.{ExternalAssetInfoItem, SupportChain, RechargeItem}
use cot_server.Host.{Host, Action, ◌>>=◌, pure, ask, get_asset_details}
use cot_server.Host.Returns.{Returns, Returns-after, Returns-pure, Returns-bind}
use cot_server.Settings.{
  if_there, each_chain, with_address, complete_external, complete_item, name_external, name_item,
  start_item,
}
use cot_server.Settings.Chains.{
  SameExternal, SameOption, SameChains, if_there-Same, each_chain-Same,
}
use cot_server.Settings.Kept.{
  SameItem, with_address-Same, name_external-Same, complete_external-Same,
}

abbrev with_chains : RechargeItem → (e b t : Option ExternalAssetInfoItem) → RechargeItem
with_chains x e b t = record x {
  support_chain = record { eth_item = e; bsc_item = b; tron_item = t };
}

SameItem-chains :
    (x : RechargeItem) (logo : Option String) (chains : SupportChain)
    → SameChains x.support_chain chains
    → SameItem x (record x { logo = logo; support_chain = chains })
SameItem-chains x logo chains p = record {
  enable = refl;
  chain_name = refl;
  asset_type = refl;
  apply_address = refl;
  redemption = refl;
  support_chain = p;
}

module _ {S : Type 0} (h : Host) where
  each_chain-SameItem :
      (f : ExternalChainName → ExternalAssetInfoItem → Action S ExternalAssetInfoItem)
      → ((c : ExternalChainName) (x : ExternalAssetInfoItem) → Returns h (SameExternal x) (f c x))
      → (x : RechargeItem) (logo : Option String)
      → Returns h (SameItem x) (
          each_chain f x.support_chain >>= λ chains.
          pure (record x { logo = logo; support_chain = chains }))
  each_chain-SameItem f k x logo =
      Returns-after (SameChains x.support_chain) (each_chain f x.support_chain)
        (λ chains. pure (record x { logo = logo; support_chain = chains }))
        (each_chain-Same h f k x.support_chain)
        (λ chains p. Returns-pure _ (SameItem-chains x logo chains p))

module _ (h : Host) where
  pub complete_item-Same :
      (c : InternalChainName) (a : String) (x : RechargeItem)
      → Returns h (SameItem x) (complete_item c a x)
  unfolding complete_item
  complete_item-Same c a x =
      Returns-bind (ask (λ k. k.asset_details) (get_asset_details c a)) _ (λ info.
        each_chain-SameItem h complete_external (complete_external-Same h) x (some info.icon_url))

  pub name_item-Same :
      (c : InternalChainName) (a : String) (x : RechargeItem)
      → Returns h (SameItem x) (name_item c a x)
  unfolding name_item
  name_item-Same c a x =
      each_chain-SameItem h (λ _. name_external c) (λ _. name_external-Same h c) x x.logo

  pub start_item-Same :
      (c : InternalChainName) (a : String) (x : RechargeItem)
      → Returns h (SameItem x) (start_item c a x)
  unfolding start_item
  start_item-Same c a x =
      let on_bsc = if_there (with_address bsc) x.support_chain.bsc_item in
      let on_eth = if_there (with_address eth) x.support_chain.eth_item in
      let on_tron = if_there (with_address tron) x.support_chain.tron_item in
      Returns-after (SameOption x.support_chain.bsc_item) on_bsc
        (λ b. on_eth >>= λ e. on_tron >>= λ t. pure (with_chains x e b t))
        (if_there-Same h (with_address bsc) (with_address-Same h bsc) x.support_chain.bsc_item)
        (λ b pb.
          Returns-after (SameOption x.support_chain.eth_item) on_eth
            (λ e. on_tron >>= λ t. pure (with_chains x e b t))
            (if_there-Same h (with_address eth) (with_address-Same h eth) x.support_chain.eth_item)
            (λ e pe.
              Returns-after (SameOption x.support_chain.tron_item) on_tron
                (λ t. pure (with_chains x e b t))
                (if_there-Same h (with_address tron) (with_address-Same h tron)
                  x.support_chain.tron_item)
                (λ t pt. Returns-pure _ (
                  SameItem-chains x x.logo _
                    (record { eth_item = pe; bsc_item = pb; tron_item = pt })))))
