-- ===== src/Recharge/LateErrors.antt =====
-- What is left of a request for a recharge to an internal chain without an airdrop.
use cot_server.Base.{◌≡◌, refl, ap, arith, String}
use cot_server.Model.Chain.{InternalChainName}
use cot_server.Model.Wallet.{FromTrJson}
use cot_server.Model.Recharge.{RechargeOrder, TransDetail}
use cot_server.Host.{Host, World, Result, ok, err, not_support_chain, lift, pure, ◌>>=◌, ◌>>◌}
use cot_server.Recharge.Helper.{get_recharge_main_asset_type}
use cot_server.Recharge.Deposit.{create_recharge_order, create_airdrop_order, create_orders}

module _ (h : Host) (from_tr_json : FromTrJson) (d : TransDetail) (name : String)
    (chain : d.to_detail.chain_name ≡ InternalChainName.other name) where
  airdrop_refused : (w : World (Unit {0})) → create_airdrop_order d h w ≡ (err not_support_chain, w)
  unfolding create_airdrop_order get_recharge_main_asset_type
  airdrop_refused w = rw (chain, get_recharge_main_asset_type) refl

  after_order :
      (r : Result RechargeOrder) (w : World (Unit {0})) (o : RechargeOrder)
      → r ≡ ok o
      → ◌>>=◌ (lift r) (λ order. create_airdrop_order d >> pure order.entity_id) h w
        ≡ (err not_support_chain, w)
  after_order (ok a) w o e =
      ap (λ p. ◌>>=◌ (λ _ _. p) (λ _. pure a.entity_id) h w) (airdrop_refused w)
  after_order (err x) w o e = ground (arith, e)

  -- For an internal chain that has no main asset to give, once the order of the deposit has been
  -- created the request ends with an error, and all that the creation of the order has done stays:
  -- nothing is undone.
  pub create_orders_late :
      (w : World (Unit {0})) (o : RechargeOrder)
      → (create_recharge_order d from_tr_json h w).0 ≡ ok o
      → create_orders d from_tr_json h w
        ≡ (err not_support_chain, (create_recharge_order d from_tr_json h w).1)
  unfolding create_orders
  create_orders_late w o e =
      after_order (create_recharge_order d from_tr_json h w).0
        (create_recharge_order d from_tr_json h w).1 o e
