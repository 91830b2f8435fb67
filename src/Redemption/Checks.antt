-- ===== src/Redemption/Checks.antt =====
-- The check of a redemption against the configuration.
use cot_server.Base.{◌≡◌, ◌↔◌, true, false, not, Option, none, some, str_eq, eq_iff, arith}
use cot_server.Base.BigInt.{ℤ, ltb_ℤ, ◌≤ℤ◌}
use cot_server.Model.Config.{RechargeItem, ExternalAssetInfoItem, support_item}
use cot_server.Model.Redemption.{TransDetail}
use cot_server.Host.{ok}
use cot_server.Host.Returns.{gives, Gives-value}
use cot_server.OrderHelper.{big_int}
use cot_server.Redemption.Helper.{verify_redemption_trans_detail, verify_asset, support_or_error}

-- A redemption that the item takes: the asset goes to the platform's address, its amount is within
-- the limits, and the payee's chain is supported for the asset that the payee wants.
pub record IsRedemption (d : TransDetail) (item : RechargeItem) : Type 0 where
  pub amount : ℤ
  pub support : ExternalAssetInfoItem
  pub address : d.from_detail.to ≡ item.apply_address
  pub number : big_int d.from_detail.amount ≡ ok amount
  pub above : item.redemption.min ≤ℤ amount
  pub below : amount ≤ℤ item.redemption.max
  pub supported : support_item item.support_chain d.to_detail.chain_name ≡ some support
  pub asset : support.asset_type ≡ d.to_detail.asset_type

support-some :
    (o : Option ExternalAssetInfoItem) (item : ExternalAssetInfoItem)
    → support_or_error o ≡ ok item
    → o ≡ some item
unfolding support_or_error
support-some none item e = ground (arith, e)
support-some (some i) item e = ground (arith, e)

at_least : (a b : ℤ) → ltb_ℤ a b ≡ false → b ≤ℤ a
at_least a b e = ground (arith, e)

module _ (d : TransDetail) (item : RechargeItem) where
  checked-IsRedemption :
      (amount : ℤ) (support : ExternalAssetInfoItem)
      → not (str_eq d.from_detail.to item.apply_address) ≡ false
      → big_int d.from_detail.amount ≡ ok amount
      → ltb_ℤ amount item.redemption.min ≡ false
      → ltb_ℤ item.redemption.max amount ≡ false
      → support_or_error (support_item item.support_chain d.to_detail.chain_name) ≡ ok support
      → str_eq support.asset_type d.to_detail.asset_type ≡ true
      → IsRedemption d item
  checked-IsRedemption amount support t n l u s a = record {
    amount = amount;
    support = support;
    address = (eq_iff d.from_detail.to item.apply_address).0 (ground (arith, t));
    number = n;
    above = at_least amount item.redemption.min l;
    below = at_least item.redemption.max amount u;
    supported = support-some _ support s;
    asset = (eq_iff support.asset_type d.to_detail.asset_type).0 a;
  }

  passes-IsRedemption : verify_redemption_trans_detail d item ≡ ok tt → IsRedemption d item
  unfolding verify_redemption_trans_detail verify_asset
  passes-IsRedemption =
      Gives-value (λ _. IsRedemption d item) (verify_redemption_trans_detail d item) tt
        (search (gives, checked-IsRedemption) depth 20)

  redemption_passes : IsRedemption d item → verify_redemption_trans_detail d item ≡ ok tt
  unfolding verify_redemption_trans_detail verify_asset support_or_error
  redemption_passes k =
      rw (k.supported, k.number)
        (ground (
          arith,
          k.above,
          k.below,
          k.address,
          k.asset,
          eq_iff d.from_detail.to item.apply_address,
          eq_iff k.support.asset_type d.to_detail.asset_type,
        ))

  -- The check of a redemption passes if and only if the asset goes to the platform's address, its
  -- amount is a number within the limits, both included, and the payee's chain is supported and pays
  -- the asset that the payee wants.
  pub verify_redemption_trans_detail-IsRedemption :
      (verify_redemption_trans_detail d item ≡ ok tt) ↔ IsRedemption d item
  verify_redemption_trans_detail-IsRedemption = (passes-IsRedemption, redemption_passes)
