-- ===== src/Settings/Traversals.antt =====
-- The calls that the traversals of a configuration make are those of what they apply.
use cot_server.Base.{String, Option, none, some, List, [], ◌∷◌}
use cot_server.Model.Chain.{ExternalChainName, InternalChainName, eth, bsc, tron}
use cot_server.Model.Config.{
  ExternalAssetInfoItem, SupportChain, RechargeItem, AssetItems, RechargeObject,
}
use cot_server.Host.{Host, Action, Call, ◌>>=◌, pure}
use cot_server.Host.Keeps.{
  CallsOnly, CallsOnly-pure, CallsOnly-bind, CallsOnly-with_host, calls_only,
}
use cot_server.Settings.{if_there, change_chain, each_key, each_chain, each_asset, each_item}

module _ {S : Type 0} (h : Host) (P : Call → Type 0) where
  pub if_there-CallsOnly :
      (f : ExternalAssetInfoItem → Action S ExternalAssetInfoItem)
      → ((x : ExternalAssetInfoItem) → CallsOnly h P (f x))
      → (o : Option ExternalAssetInfoItem) → CallsOnly h P (if_there f o)
  unfolding if_there
  if_there-CallsOnly f k none = CallsOnly-pure none
  if_there-CallsOnly f k (some x) = search (calls_only, k) depth 10

  change_chain-CallsOnly :
      (f : ExternalChainName → ExternalAssetInfoItem → Action S ExternalAssetInfoItem)
      → ((c : ExternalChainName) (x : ExternalAssetInfoItem) → CallsOnly h P (f c x))
      → (c : ExternalChainName) (chains : SupportChain) → CallsOnly h P (change_chain f c chains)
  unfolding change_chain
  change_chain-CallsOnly f k eth chains =
      let on_eth = if_there-CallsOnly (f eth) (k eth) chains.eth_item in
      search (calls_only, on_eth) depth 20
  change_chain-CallsOnly f k bsc chains =
      let on_bsc = if_there-CallsOnly (f bsc) (k bsc) chains.bsc_item in
      search (calls_only, on_bsc) depth 20
  change_chain-CallsOnly f k tron chains =
      let on_tron = if_there-CallsOnly (f tron) (k tron) chains.tron_item in
      search (calls_only, on_tron) depth 20
  change_chain-CallsOnly f k (ExternalChainName.other _) chains = CallsOnly-pure chains

  each_key-CallsOnly :
      (f : ExternalChainName → ExternalAssetInfoItem → Action S ExternalAssetInfoItem)
      → ((c : ExternalChainName) (x : ExternalAssetInfoItem) → CallsOnly h P (f c x))
      → (keys : List ExternalChainName) (chains : SupportChain)
      → CallsOnly h P (each_key f keys chains)
  unfolding each_key
  each_key-CallsOnly f k [] chains = CallsOnly-pure chains
  each_key-CallsOnly f k (c ∷ keys) chains =
      CallsOnly-bind (change_chain f c chains) (λ y. each_key f keys y)
        (change_chain-CallsOnly f k c chains) (λ y. each_key-CallsOnly f k keys y)

  pub each_chain-CallsOnly :
      (f : ExternalChainName → ExternalAssetInfoItem → Action S ExternalAssetInfoItem)
      → ((c : ExternalChainName) (x : ExternalAssetInfoItem) → CallsOnly h P (f c x))
      → (chains : SupportChain) → CallsOnly h P (each_chain f chains)
  unfolding each_chain
  each_chain-CallsOnly f k chains =
      CallsOnly-with_host (λ g. each_key f (g.chain_keys chains) chains)
        (each_key-CallsOnly f k (h.chain_keys chains) chains)

  each_asset-CallsOnly :
      (f : String → RechargeItem → Action S RechargeItem)
      → ((a : String) (x : RechargeItem) → CallsOnly h P (f a x))
      → (items : AssetItems) → CallsOnly h P (each_asset f items)
  unfolding each_asset
  each_asset-CallsOnly f k [] = CallsOnly-pure []
  each_asset-CallsOnly f k ((a, x) ∷ rest) =
      CallsOnly-bind (f a x) (λ y. each_asset f rest >>= λ ys. pure ((a, y) ∷ ys)) (k a x)
        (λ y.
          CallsOnly-bind (each_asset f rest) (λ ys. pure ((a, y) ∷ ys))
            (each_asset-CallsOnly f k rest) (λ ys. CallsOnly-pure ((a, y) ∷ ys)))

  pub each_item-CallsOnly :
      (f : InternalChainName → String → RechargeItem → Action S RechargeItem)
      → ((c : InternalChainName) (a : String) (x : RechargeItem) → CallsOnly h P (f c a x))
      → (config : RechargeObject) → CallsOnly h P (each_item f config)
  unfolding each_item
  each_item-CallsOnly f k [] = CallsOnly-pure []
  each_item-CallsOnly f k ((c, items) ∷ rest) =
      CallsOnly-bind (each_asset (f c) items) (λ y. each_item f rest >>= λ ys. pure ((c, y) ∷ ys))
        (each_asset-CallsOnly (f c) (k c) items)
        (λ y.
          CallsOnly-bind (each_item f rest) (λ ys. pure ((c, y) ∷ ys))
            (each_item-CallsOnly f k rest) (λ ys. CallsOnly-pure ((c, y) ∷ ys)))
