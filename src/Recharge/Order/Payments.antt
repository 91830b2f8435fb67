-- ===== src/Recharge/Order/Payments.antt =====
-- What a recharge order pays out: when, to whom, how much, and from which account.
use cot_server.Base.{◌≡◌, refl, true, false, String, str_eq}
use cot_server.Base.BigInt.{is_zero}
use cot_server.Model.Chain.{TransactionLinkType}
use cot_server.Model.Recharge.{RechargeType, issue, airdrop}
use cot_server.Model.Wallet.{InternalPayment}
use cot_server.Host.{
  Host, World, Call, ok, create_internal_increase_asset, create_internal_transfer,
  create_internal_trans_obj, change_recharge_state, publish,
}
use cot_server.Host.Keeps.{CallsOnly, calls_only, CallsOnly-checked, CallsOnly-throw, Since}
use cot_server.Memory.{RwKeypairs, AccountType, force_get_rw_keypair}
use cot_server.Recharge.Order.Obj.{RechargeOrderObj, save, is_recharge_tx_finish}
use cot_server.Recharge.Order.InternalWait.{
  create_transfer, start_transfer, keep_tx_id, issue_asset, airdrop_asset, transfer_tx_id,
  transfer_of, payment_of, issue_key, concat,
}

-- The order is still to be paid: its amount is not 0, no transfer of it is on its chain, it has
-- retries left, and it has no transfer under way.
pub record IsDue (h : Host) (o : RechargeOrderObj) : Type 0 where
  pub has_amount : is_zero o.recharge_amount ≡ false
  pub not_finished : is_recharge_tx_finish h o ≡ false
  pub no_transfer : str_eq o.recharge_tx_id o.entity_id ≡ true

-- `p` pays the order `o`, of type `t`, from the account that has been injected under `key`: on the
-- order's internal chain, to its internal address, its amount of its asset, with a link to it.
pub record IsPayment (keypairs : RwKeypairs) (h : Host) (o : RechargeOrderObj) (t : RechargeType)
    (key : String) (p : InternalPayment) : Type 0 where
  pub due : IsDue h o
  pub type_of : o.recharge_type ≡ t
  pub account : AccountType
  pub injected : force_get_rw_keypair h key keypairs ≡ ok account
  pub secret : p.secret ≡ account.secret
  pub chain : p.chain_name ≡ o.internal_chain
  pub recipient : p.recipient_id ≡ o.internal_address
  pub amount : p.amount ≡ o.recharge_amount
  pub asset : p.asset_type ≡ o.recharge_asset_type
  pub link_type : p.param.link_type ≡ TransactionLinkType.recharge_order
  pub link_id : p.param.link_id ≡ o.entity_id

-- Where the keypair that issues an asset is injected: under the type of the account, the chain and
-- the asset.
abbrev pub issuer : Host → RechargeOrderObj → String
issuer h o = concat "RECHARGEV2_ACCOUNT" (
    concat "_"
      (concat (h.text_of_internal_chain o.internal_chain) (concat "_" o.recharge_asset_type)))

-- A call that issues or transfers an asset pays the order `o`, and pays it as it says.
abbrev pub Pays : RwKeypairs → Host → RechargeOrderObj → Call → Type 0
Pays keypairs h o (create_internal_increase_asset p apply_address) =
    IsPayment keypairs h o issue (issuer h o) p
Pays keypairs h o (create_internal_transfer p) = IsPayment keypairs h o airdrop "AIRDROP_ACCOUNT" p
Pays keypairs h o (create_internal_trans_obj chain tx_id) = chain ≡ o.internal_chain
Pays keypairs h o (change_recharge_state _ _ _) = ⊥
Pays keypairs h o (publish _ _ _) = ⊥
Pays keypairs h o _ = Unit

module _ (keypairs : RwKeypairs) (h : Host) (o : RechargeOrderObj) where
  payment_of-IsPayment :
      (t : RechargeType) (key : String) (account : AccountType)
      → o.recharge_type ≡ t
      → IsDue h o
      → force_get_rw_keypair h key keypairs ≡ ok account
      → IsPayment keypairs h o t key (payment_of o account.secret)
  unfolding payment_of
  payment_of-IsPayment t key account e d i = record {
    due = d;
    type_of = e;
    account = account;
    injected = i;
    secret = refl;
    chain = refl;
    recipient = refl;
    amount = refl;
    asset = refl;
    link_type = refl;
    link_id = refl;
  }

  keep_tx_id-Pays : (tx_id : String) → CallsOnly h (Pays keypairs h o) (keep_tx_id tx_id)
  unfolding keep_tx_id save
  keep_tx_id-Pays tx_id = search calls_only depth 10

  issue_asset-Pays :
      o.recharge_type ≡ issue
      → IsDue h o
      → CallsOnly h (Pays keypairs h o) (issue_asset keypairs h o)
  unfolding issue_asset issue_key
  issue_asset-Pays e d =
      search (CallsOnly-checked, calls_only, keep_tx_id-Pays, payment_of-IsPayment, e, d) depth 20

  airdrop_asset-Pays :
      o.recharge_type ≡ airdrop
      → IsDue h o
      → CallsOnly h (Pays keypairs h o) (airdrop_asset keypairs h o)
  unfolding airdrop_asset
  airdrop_asset-Pays e d =
      search (CallsOnly-checked, calls_only, keep_tx_id-Pays, payment_of-IsPayment, e, d) depth 20

  create_transfer-Pays :
      (t : RechargeType)
      → o.recharge_type ≡ t
      → IsDue h o
      → CallsOnly h (Pays keypairs h o) (create_transfer keypairs h o t)
  unfolding create_transfer
  create_transfer-Pays issue e due = issue_asset-Pays e due
  create_transfer-Pays airdrop e due = airdrop_asset-Pays e due
  create_transfer-Pays (RechargeType.other _) e due = CallsOnly-throw _

  not_finished-IsDue :
      is_zero o.recharge_amount ≡ false
      → is_recharge_tx_finish h o ≡ false
      → str_eq o.recharge_tx_id o.entity_id ≡ true
      → IsDue h o
  not_finished-IsDue a f n = record { has_amount = a; not_finished = f; no_transfer = n }

  transfer_tx_id-Pays :
      is_zero o.recharge_amount ≡ false
      → is_recharge_tx_finish h o ≡ false
      → CallsOnly h (Pays keypairs h o) (transfer_tx_id keypairs h o)
  unfolding transfer_tx_id
  transfer_tx_id-Pays a f = search (calls_only, create_transfer-Pays, not_finished-IsDue) depth 20

  transfer_of-Pays : CallsOnly h (Pays keypairs h o) (transfer_of keypairs h o)
  unfolding transfer_of
  transfer_of-Pays = search (calls_only, transfer_tx_id-Pays) depth 20

-- In every world, the calls of __startTransfer that issue or transfer an asset pay the order as it
-- was at the start: only if it is still due, on its internal chain, to its internal address, its
-- amount of its asset, from the account of its type that has been injected; an order of another
-- type is not paid. It asks for no change of state and publishes nothing. This holds whatever the
-- services answer and whatever other methods do to the order in the meantime.
pub start_transfer-Pays :
    (keypairs : RwKeypairs) (h : Host) (w : World RechargeOrderObj)
    → Since (Pays keypairs h w.self) w.calls (start_transfer keypairs h w).1.calls
unfolding start_transfer
start_transfer-Pays keypairs h w = (transfer_of-Pays keypairs h w.self).at w
