-- ===== src/Settings/Kept.antt =====
-- What stays as it was when a configuration is completed and saved.
use cot_server.Base.{◌≡◌, refl, String, true, Option, [], ◌∷◌, truthy, arith}
use cot_server.Model.Chain.{ExternalChainName, InternalChainName}
use cot_server.Model.Config.{ExternalAssetInfoItem, RechargeItem, AssetItems, RechargeObject}
use cot_server.Host.{Host, Action, ◌>>=◌, pure}
use cot_server.Host.Returns.{
  Returns, returns, Returns-after, Returns-always, Returns-pure, Returns-map,
}
use cot_server.Settings.Chains.{SameExternal, SameChains, SameExternal-trans, SameExternal-self}
use cot_server.Settings.{
  each_asset, each_item, with_token, with_address, complete_external, name_external,
}

-- An item keeps all but its logo, and its external chains as above.
pub record SameItem (x y : RechargeItem) : Type 0 where
  pub enable : y.enable ≡ x.enable
  pub chain_name : y.chain_name ≡ x.chain_name
  pub asset_type : y.asset_type ≡ x.asset_type
  pub apply_address : y.apply_address ≡ x.apply_address
  pub redemption : y.redemption ≡ x.redemption
  pub support_chain : SameChains x.support_chain y.support_chain

abbrev pub SameItems : (xs ys : AssetItems) → Type 0
SameItems [] [] = Unit
SameItems ((a, x) ∷ xs) ((b, y) ∷ ys) = (b ≡ a) × SameItem x y × SameItems xs ys
SameItems _ _ = ⊥

abbrev pub SameConfig : (xs ys : RechargeObject) → Type 0
SameConfig [] [] = Unit
SameConfig ((a, x) ∷ xs) ((b, y) ∷ ys) = (b ≡ a) × SameItems x y × SameConfig xs ys
SameConfig _ _ = ⊥

module _ {S : Type 0} (h : Host) where
  each_asset-Same :
      (f : String → RechargeItem → Action S RechargeItem)
      → ((a : String) (x : RechargeItem) → Returns h (SameItem x) (f a x))
      → (items : AssetItems) → Returns h (SameItems items) (each_asset f items)
  unfolding each_asset
  each_asset-Same f k [] = Returns-pure [] tt
  each_asset-Same f k ((a, x) ∷ rest) =
      Returns-after (SameItem x) (f a x) (λ y. each_asset f rest >>= λ ys. pure ((a, y) ∷ ys))
        (k a x)
        (λ y p.
          Returns-after (SameItems rest) (each_asset f rest) (λ ys. pure ((a, y) ∷ ys))
            (each_asset-Same f k rest) (λ ys q. Returns-pure ((a, y) ∷ ys) (refl, p, q)))

  pub each_item-Same :
      (f : InternalChainName → String → RechargeItem → Action S RechargeItem)
      → ((c : InternalChainName) (a : String) (x : RechargeItem) → Returns h (SameItem x) (f c a x))
      → (config : RechargeObject) → Returns h (SameConfig config) (each_item f config)
  unfolding each_item
  each_item-Same f k [] = Returns-pure [] tt
  each_item-Same f k ((c, items) ∷ rest) =
      Returns-after (SameItems items) (each_asset (f c) items)
        (λ y. each_item f rest >>= λ ys. pure ((c, y) ∷ ys)) (each_asset-Same (f c) (k c) items)
        (λ y p.
          Returns-after (SameConfig rest) (each_item f rest) (λ ys. pure ((c, y) ∷ ys))
            (each_item-Same f k rest) (λ ys q. Returns-pure ((c, y) ∷ ys) (refl, p, q)))

SameExternal-address :
    (x : ExternalAssetInfoItem) (address : String)
    → SameExternal x (record x { deposit_address = address })
SameExternal-address x address = record { enable = refl; contract = refl; asset_type = λ _. refl }

SameExternal-token :
    (x : ExternalAssetInfoItem) (symbol : String) (logo : Option String)
    → truthy x.contract ≡ true
    → SameExternal x (record x { asset_type = symbol; logo = logo })
SameExternal-token x symbol logo t = record {
  enable = refl;
  contract = refl;
  asset_type = λ n. ground (arith, t, n);
}

module _ (h : Host) where
  pub with_address-Same :
      (c : ExternalChainName) (x : ExternalAssetInfoItem)
      → Returns h (SameExternal x) (with_address c x)
  unfolding with_address
  with_address-Same c x = search (returns, SameExternal-address) depth 20

  with_token-Same :
      (c : ExternalChainName) (x : ExternalAssetInfoItem)
      → Returns h (SameExternal x) (with_token c x)
  unfolding with_token
  with_token-Same c x =
      search (returns, Returns-always, SameExternal-self, SameExternal-token) depth 20

  pub name_external-Same :
      (c : InternalChainName) (x : ExternalAssetInfoItem)
      → Returns h (SameExternal x) (name_external c x)
  unfolding name_external
  name_external-Same c x =
      search (returns, Returns-always, SameExternal-self, SameExternal-token) depth 20

  pub complete_external-Same :
      (c : ExternalChainName) (x : ExternalAssetInfoItem)
      → Returns h (SameExternal x) (complete_external c x)
  unfolding complete_external
  complete_external-Same c x =
      Returns-after (SameExternal x) (with_token c x) (λ y. with_address c y) (with_token-Same c x)
        (λ y p.
          Returns-map (with_address c y) (λ z q. SameExternal-trans p q) (with_address-Same c y))
