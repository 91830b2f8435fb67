-- ===== src/Redemption/Order/Payments.antt =====
-- What a redemption order pays out: when, to whom, how much, and from which account.
use cot_server.Base.{◌≡◌, refl, true, some, str_eq}
use cot_server.Model.Chain.{TransactionLinkType}
use cot_server.Model.Wallet.{ExternalPayment, WalletAccount}
use cot_server.Host.{
  Host, World, Call, ok, create_external_transfer, create_external_trans_obj,
  change_redemption_state, publish,
}
use cot_server.Host.Keeps.{CallsOnly, calls_only, CallsOnly-checked, Since}
use cot_server.GlobalValue.{ExternalAccounts, external_keypair}
use cot_server.Redemption.Order.Obj.{RedemptionOrderObj, save}
use cot_server.Redemption.Order.ExternalWait.{
  start_transfer, transfer_of, create_transfer, wait_after_error, payment_of,
}

-- `p` pays the order `o`, which has no transfer under way, from the account that has been injected
-- for its chain and asset: on its external chain, to its external address, its amount of its token.
pub record IsPayment (accounts : ExternalAccounts) (o : RedemptionOrderObj) (p : ExternalPayment)
    : Type 0 where
  pub no_transfer : str_eq o.wallet_tx_id o.entity_id ≡ true
  pub account : WalletAccount
  pub injected : external_keypair accounts o.wallet_chain o.wallet_asset ≡ ok account
  pub account_of : p.account ≡ account
  pub chain : p.chain_name ≡ o.wallet_chain
  pub recipient : p.recipient_id ≡ o.wallet_address
  pub contract : p.contract_address ≡ o.contract_address
  pub amount : p.amount ≡ o.wallet_amount
  pub link_type : p.param.link_type ≡ TransactionLinkType.redemption_order
  pub link_id : p.param.link_id ≡ o.entity_id

-- A call that transfers an asset pays the order `o`, and pays it as it says.
abbrev pub Pays : ExternalAccounts → RedemptionOrderObj → Call → Type 0
Pays accounts o (create_external_transfer p) = IsPayment accounts o p
Pays accounts o (create_external_trans_obj chain tx_id) = chain ≡ some o.wallet_chain
Pays accounts o (change_redemption_state _ _ _) = ⊥
Pays accounts o (publish _ _ _) = ⊥
Pays accounts o _ = Unit

module _ (accounts : ExternalAccounts) (h : Host) (o : RedemptionOrderObj) where
  payment_of-IsPayment :
      (account : WalletAccount)
      → str_eq o.wallet_tx_id o.entity_id ≡ true
      → external_keypair accounts o.wallet_chain o.wallet_asset ≡ ok account
      → IsPayment accounts o (payment_of o account)
  unfolding payment_of
  payment_of-IsPayment account n i = record {
    no_transfer = n;
    account = account;
    injected = i;
    account_of = refl;
    chain = refl;
    recipient = refl;
    contract = refl;
    amount = refl;
    link_type = refl;
    link_id = refl;
  }

  create_transfer-Pays :
      str_eq o.wallet_tx_id o.entity_id ≡ true
      → CallsOnly h (Pays accounts o) (create_transfer accounts o)
  unfolding create_transfer save
  create_transfer-Pays n = search (CallsOnly-checked, calls_only, payment_of-IsPayment, n) depth 20

  wait_after_error-Pays : CallsOnly h (Pays accounts o) (wait_after_error h o)
  unfolding wait_after_error
  wait_after_error-Pays = search calls_only depth 20

  transfer_of-Pays : CallsOnly h (Pays accounts o) (transfer_of accounts h o)
  unfolding transfer_of
  transfer_of-Pays = search (calls_only, create_transfer-Pays, wait_after_error-Pays) depth 20

-- In every world, the calls of __startTransfer that transfer an asset pay the order as it was at the
-- start: only if it has no transfer under way, on its external chain, to its external address, its
-- amount of its asset, from the account that has been injected for its chain and asset. It asks for
-- no change of state and publishes nothing. This holds whatever the services answer and whatever
-- other methods do to the order in the meantime.
pub start_payout-Pays :
    (accounts : ExternalAccounts) (h : Host) (w : World RedemptionOrderObj)
    → Since (Pays accounts w.self) w.calls (start_transfer accounts h w).1.calls
unfolding start_transfer
start_payout-Pays accounts h w = (transfer_of-Pays accounts h w.self).at w
