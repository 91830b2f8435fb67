-- ===== src/Tests/Redemptions.antt =====
-- Examples for redemptions.
use cot_server.Base.{true, some, ◌↔◌, ◌≡◌, refl, [], ◌∷◌}
use cot_server.Base.BigInt.{pos, ◌-ℤ◌, ◌/ℤ◌, ◌*ℤ◌}
use cot_server.Base.BigIntText.{parse_big_int}
use cot_server.OrderHelper.{big_int}
use cot_server.Model.Chain.{bsc}
use cot_server.Model.Redemption.{external_wait_on_chain}
use cot_server.Host.{ok, alone, now}
use cot_server.Host.Keeps.{CallsOnly, Since}
use cot_server.Redemption.Withdrawal.{Payout, payout_of}
use cot_server.Redemption.Payouts.{IsPayout, payout_of-IsPayout}
use cot_server.Redemption.Order.Events.{handle, external_failed}
use cot_server.Redemption.Order.Diagram.{Follows}
use cot_server.Redemption.Order.ExternalWait
use cot_server.Redemption.Order.Transitions.{handle_withdrawal-Follows}
use cot_server.Redemption.Order.Obj.{save}
use cot_server.Base.{lookup}
use cot_server.GlobalValue.{external_keypair, find_account, chain_map, account_in, account_or_error}
use cot_server.Redemption.Order.Payments.{Pays, start_payout-Pays}
use cot_server.Redemption.Order.Callbacks.{withdrawal_fail_lem, retried, saved}
use cot_server.Model.Chain.{pmchain, TransactionLinkType}
use cot_server.Host.{
  create_external_trans_obj, save_entity, redemption_order, create_external_transfer,
}
use cot_server.Model.Redemption.{TransDetail}
use cot_server.OrderHelper.{create_order_object}
use cot_server.Redemption.Helper.{verify_redemption_trans_detail}
use cot_server.Redemption.Checks.{IsRedemption, verify_redemption_trans_detail-IsRedemption}
use cot_server.Redemption.Retry.{retry_internal_on_chain, move_row}
use cot_server.Redemption.Retry.Moves.{IsRestarted, retry_internal_on_chain-IsRestarted}
use cot_server.Tests.Data.{
  example_host, redemption_obj, redemption_row, unpaid_obj, account, report, accounts, usdm_item,
}

handle_withdrawal-Follows_example :
    CallsOnly example_host (Follows external_wait_on_chain) (handle (external_failed (report "x1")))
handle_withdrawal-Follows_example =
    handle_withdrawal-Follows example_host (external_failed (report "x1"))

start_payout-Pays_example :
    Since
      (Pays accounts unpaid_obj)
      []
      (ExternalWait.start_transfer accounts example_host (alone unpaid_obj [])).1.calls
start_payout-Pays_example = start_payout-Pays accounts example_host (alone unpaid_obj [])

-- That transfer pays the order's amount to the payee.
unpaid_paid :
    (ExternalWait.start_transfer accounts example_host (alone unpaid_obj [])).1.calls
    ≡ create_external_trans_obj (some bsc) "5000"
      ∷ save_entity (redemption_order (record redemption_row { wallet_tx_id = "5000" }))
      ∷ create_external_transfer (record {
        chain_name = bsc;
        account = account;
        recipient_id = "0xPayee";
        contract_address = some "0xc0";
        amount = "49750";
        param = record { link_type = TransactionLinkType.redemption_order; link_id = "d1" };
      })
      ∷ []
unfolding ExternalWait.start_transfer ExternalWait.transfer_of ExternalWait.create_transfer
    ExternalWait.payment_of external_keypair find_account chain_map account_in account_or_error
    lookup save
unpaid_paid = refl

withdrawal_fail_lem_example :
    let o = retried example_host 1000 redemption_obj in
    ExternalWait.on_external_chain_fail_callback
      (report "x1")
      example_host
      (alone redemption_obj [])
    ≡ (ok tt, alone o (saved o ∷ now ∷ []))
withdrawal_fail_lem_example =
    withdrawal_fail_lem example_host (alone redemption_obj []) (report "x1") 1000 refl refl

-- Of 50000, the fee of 100 and 3/1000 are kept back.
abbrev payout : Payout
payout = record {
  wallet_amount = pos 49750;
  minus_fee = pos 150;
  redemption_fee = pos 100;
  ratio = record { numerator = "3"; denominator = "1000" };
}

payout_computed : payout_of example_host usdm_item.redemption bsc "50000" ≡ ok payout
unfolding payout_of big_int parse_big_int ◌-ℤ◌ ◌/ℤ◌ ◌*ℤ◌
payout_computed = refl

payout_of-IsPayout_example : IsPayout example_host usdm_item.redemption bsc "50000" payout
payout_of-IsPayout_example =
    payout_of-IsPayout example_host usdm_item.redemption bsc "50000" payout payout_computed

restarted : (retry_internal_on_chain "d1" example_host (alone tt [])).0 ≡ ok true
unfolding retry_internal_on_chain move_row create_order_object
restarted = refl

retry_internal_on_chain-IsRestarted_example : IsRestarted example_host "d1" []
retry_internal_on_chain-IsRestarted_example =
    retry_internal_on_chain-IsRestarted example_host "d1" (alone tt []) restarted

abbrev withdrawal : TransDetail
withdrawal = record {
  from_detail = record {
    chain_name = pmchain;
    from = "cSender";
    to = "cApply";
    amount = "50000";
    asset_type = "USDM";
  };
  to_detail = record {
    chain_name = bsc;
    address = "0xPayee";
    asset_type = "USDT";
    contract_address = some "0xc0";
  };
  to_amount = pos 49750;
  redemption_ratio = record { numerator = "3"; denominator = "1000" };
  redemption_fee = pos 100;
}

verify_redemption_trans_detail-IsRedemption_example :
    (verify_redemption_trans_detail withdrawal usdm_item ≡ ok tt)
    ↔ IsRedemption withdrawal usdm_item
verify_redemption_trans_detail-IsRedemption_example =
    verify_redemption_trans_detail-IsRedemption withdrawal usdm_item
