-- ===== src/Redemption/Orders.antt =====
-- Which rows and transactions a request for a redemption creates.
use cot_server.Base.BigIntText.{to_text}
use cot_server.Redemption.Checks.{IsRedemption}
use cot_server.Host.Reads.{Read}
use cot_server.Base.{◌≡◌, true, ℕ, some}
use cot_server.Model.Wallet.{RedemptionTr, BcfTrans, DestroyAssetTransaction, LinkParam}
use cot_server.Model.Config.{RechargeItem, RechargeObject}
use cot_server.Model.Redemption.{TransDetail, RedemptionOrder, RedemptionOrderStateId, destroy}
use cot_server.Host.{
  Host, Call, ok, save_entity, redemption_order, save_external_transfer,
  create_internal_increase_asset, create_internal_transfer, create_external_transfer,
  save_internal_transaction, change_recharge_state, change_redemption_state, update_recharge_state,
  update_redemption_state, get_recharge_config,
}
use cot_server.Host.Returns.{Returns}
use cot_server.OrderHelper.{big_int, get_internal_chain_destroy_asset_detail}
use cot_server.Verify.{verify_external_address}
use cot_server.Recharge.Helper.{check_chain_asset_item}
use cot_server.Redemption.Helper.{get_to_tr_detail}
use cot_server.Redemption.Payouts.{IsPayout}
use cot_server.Redemption.Withdrawal.{Payout}

-- The detail of the request `tr`: the asset that is destroyed is configured and its redemption is
-- open in the configuration that was read, the payee is the one of the remark, and what is paid is
-- the payout of the amount, converted.
pub record IsDetail (h : Host) (tr : RedemptionTr) (d : TransDetail) : Type 0 where
  pub tr_json : DestroyAssetTransaction
  pub sent : get_internal_chain_destroy_asset_detail h tr ≡ some (d.from_detail, tr_json)
  pub recharge : RechargeObject
  pub config_read : Read h.config get_recharge_config recharge
  pub item : RechargeItem
  pub configured :
      check_chain_asset_item recharge d.from_detail.chain_name d.from_detail.asset_type ≡ ok item
  pub payee : get_to_tr_detail tr_json item ≡ ok d.to_detail
  pub enabled : item.redemption.enable ≡ true
  pub payout : Payout
  pub paid : IsPayout h item.redemption d.to_detail.chain_name d.from_detail.amount payout
  pub fee : d.redemption_fee ≡ payout.redemption_fee
  pub ratio : d.redemption_ratio ≡ payout.ratio
  pub decimals : ℕ
  pub amount : h.decimal_to_contract decimals payout.wallet_amount ≡ ok d.to_amount

-- A detail whose payee's address is valid, and that the item takes of the configuration that was read
-- for the check.
pub record IsVerified (h : Host) (d : TransDetail) : Type 0 where
  pub address : verify_external_address h d.to_detail.chain_name d.to_detail.address ≡ ok tt
  pub config : RechargeObject
  pub config_read : Read h.config get_recharge_config config
  pub item : RechargeItem
  pub configured :
      check_chain_asset_item config d.from_detail.chain_name d.from_detail.asset_type ≡ ok item
  pub verified : IsRedemption d item

-- The row of the order: new, with what the detail says of the sender, the payee and the payout.
pub record IsRow (h : Host) (d : TransDetail) (o : RedemptionOrder) : Type 0 where
  pub state : o.state ≡ RedemptionOrderStateId.init
  pub type_of : o.redemption_type ≡ destroy
  pub sender_chain : o.internal_chain ≡ d.from_detail.chain_name
  pub sender : o.internal_address ≡ d.from_detail.from
  pub destroyed_asset : o.redemption_asset_type ≡ d.from_detail.asset_type
  pub destroyed : big_int d.from_detail.amount ≡ ok o.redemption_amount
  pub ratio :
      o.redemption_ratio
      ≡ h.number_quotient d.redemption_ratio.numerator d.redemption_ratio.denominator
  pub fee : o.redemption_fee ≡ d.redemption_fee
  pub payee_chain : o.wallet_chain ≡ d.to_detail.chain_name
  pub payee : o.wallet_address ≡ d.to_detail.address
  pub contract : o.contract_address ≡ d.to_detail.contract_address
  pub paid_asset : o.wallet_asset ≡ d.to_detail.asset_type
  pub paid : o.wallet_amount ≡ to_text d.to_amount
  pub no_transfer : o.wallet_tx_id ≡ o.entity_id

-- What the request `tr` may ask the outside for: a row is an order for a detail that has been
-- verified, for the amount that is destroyed; the transaction that is handed over is the one of the
-- request, on the chain of the detail. Nothing is paid out.
pub data IsAllowed (h : Host) (tr : RedemptionTr) : Call → Type 0 where
  withdrawal :
      (o : RedemptionOrder) (d : TransDetail)
      → IsDetail h tr d
      → IsVerified h d
      → IsRow h d o
      → IsAllowed h tr (save_entity (redemption_order o))
  destruction :
      (bcf : BcfTrans) (link : LinkParam) (d : TransDetail)
      → IsDetail h tr d
      → IsVerified h d
      → tr.bcf ≡ some bcf
      → IsAllowed h tr (save_internal_transaction d.from_detail.chain_name bcf.tr_json link)

abbrev pub Allowed : Host → RedemptionTr → Call → Type 0
Allowed h tr (save_entity e) = IsAllowed h tr (save_entity e)
Allowed h tr (save_internal_transaction chain tr_json link) =
    IsAllowed h tr (save_internal_transaction chain tr_json link)
Allowed h tr (save_external_transfer _ _ _ _ _) = ⊥
Allowed h tr (create_internal_increase_asset _ _) = ⊥
Allowed h tr (create_internal_transfer _) = ⊥
Allowed h tr (create_external_transfer _) = ⊥
Allowed h tr (change_recharge_state _ _ _) = ⊥
Allowed h tr (change_redemption_state _ _ _) = ⊥
Allowed h tr (update_recharge_state _ _ _) = ⊥
Allowed h tr (update_redemption_state _ _ _) = ⊥
Allowed h tr _ = Unit
