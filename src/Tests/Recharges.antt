-- ===== src/Tests/Recharges.antt =====
-- Examples for recharges.
use cot_server.Base.{true, ◌≡◌, refl, ◌↔◌, [], ◌∷◌, arith}
use cot_server.Model.Recharge.{
  pending, init, external_wait_on_chain, internal_wait_on_chain, success,
}
use cot_server.Host.{
  ok, err, alone, now, World, change_recharge_state, create_internal_trans_obj, save_entity,
  recharge_order, create_internal_increase_asset, get_recharge_config,
}
use cot_server.Host.Keeps.{CallsOnly, Since}
use cot_server.Recharge.Helper.{
  get_record_state, get_order_state_array, verify_recharge_trans_detail,
}
use cot_server.Recharge.Checks.{IsDeposit, IsIn, verify_recharge_trans_detail-IsDeposit}
use cot_server.Recharge.Deposit.{recharge_v2}
use cot_server.Recharge.Orders.{Allowed, recharge_v2-Allowed}
use cot_server.Recharge.Order.Events.{handle, internal_succeeded}
use cot_server.Recharge.Order.Diagram.{Follows}
use cot_server.Recharge.Order.InternalWait.{
  start_transfer, on_internal_chain_success_callback, on_internal_chain_fail_callback, on_tick,
}
use cot_server.Recharge.Order.Transitions.{handle-Follows}
use cot_server.Recharge.Order.Payments.{Pays, IsDue, start_transfer-Pays}
use cot_server.Recharge.Order.Callbacks.{success_lem, fail_lem, confirmed, retried, saved, after}
use cot_server.Recharge.Order.InternalWait.{
  transfer_of, transfer_tx_id, create_transfer, issue_asset, issue_key, keep_tx_id, payment_of,
}
use cot_server.Recharge.Order.Obj.{RechargeOrderObj, is_recharge_tx_finish, save}
use cot_server.Base.{lookup}
use cot_server.Memory.{force_get_rw_keypair}
use cot_server.Recharge.Helper.{check_chain_asset_item}
use cot_server.Model.Config.{chain_items}
use cot_server.Recharge.Order.Retries.{failed_IsDue, publish_again, early, at_once}
use cot_server.Model.Chain.{InternalChainName}
use cot_server.Model.Recharge.{TransDetail}
use cot_server.OrderHelper.{create_order_object}
use cot_server.Recharge.Retry.{retry_external_on_chain, move_row}
use cot_server.Recharge.Retry.Moves.{IsRestarted, retry_external_on_chain-IsRestarted}
use cot_server.Recharge.LateErrors.{create_orders_late}
use cot_server.Recharge.Deposit.{
  create_recharge_order, create_external_trans, get_tr_json, order_of, create_orders,
}
use cot_server.Recharge.Helper.{is_recharge_dev_test}
use cot_server.Host.{not_support_chain}
use cot_server.Base.{some, none}
use cot_server.Base.BigIntText.{to_text}
use cot_server.Base.BigInt.{pos}
use cot_server.Model.Chain.{TransactionLinkType, bsc, pmchain, external, internal}
use cot_server.Model.Recharge.{to_be_posted, issue, any_recharge, RechargeRecord, RechargeWhere}
use cot_server.Recharge.Records.{
  RecordsReq, records_where, recharge_record, records_base, filter_states, record_in_state,
}
use cot_server.Recharge.Shown.{recharge_record-records_where}
use cot_server.Recharge.Reload.{Reloads, recharge_v2-Reloads}
use cot_server.Tests.Data.{
  example_host, clock_host, config, recharge_detail, recharge_obj, due_obj, report, receiver,
  from_tr_json, issuers, recharge_row,
}

handle-Follows_example :
    CallsOnly example_host
      (Follows internal_wait_on_chain)
      (handle (internal_succeeded (report "t1")))
handle-Follows_example = handle-Follows example_host (internal_succeeded (report "t1"))

start_transfer-Pays_example :
    Since
      (Pays issuers example_host due_obj)
      []
      (start_transfer issuers example_host (alone due_obj [])).1.calls
start_transfer-Pays_example = start_transfer-Pays issuers example_host (alone due_obj [])

-- That transfer issues the order's amount of its asset.
due_issued :
    (start_transfer issuers example_host (alone due_obj [])).1.calls
    ≡ create_internal_trans_obj pmchain "5000"
      ∷ save_entity (recharge_order (record recharge_row { recharge_tx_id = "5000" }))
      ∷ create_internal_increase_asset
          (record {
            chain_name = pmchain;
            secret = "s";
            recipient_id = "cReceiver";
            amount = pos 5000;
            asset_type = "USDM";
            param = record { link_type = TransactionLinkType.recharge_order; link_id = "r1" };
          })
          "cApply"
      ∷ get_recharge_config
      ∷ []
unfolding start_transfer transfer_of is_recharge_tx_finish transfer_tx_id create_transfer
    issue_asset force_get_rw_keypair lookup issue_key check_chain_asset_item chain_items keep_tx_id
    save payment_of
due_issued = refl

success_lem_example :
    on_internal_chain_success_callback (report "t1") example_host (alone recharge_obj []) ≡ (
      ok tt,
      alone (confirmed recharge_obj) (
          change_recharge_state "r1" success internal_wait_on_chain
          ∷ saved (confirmed recharge_obj)
          ∷ []),
    )
success_lem_example = success_lem example_host (alone recharge_obj []) (report "t1") refl

fail_lem_example :
    on_internal_chain_fail_callback (report "t1") example_host (alone recharge_obj []) ≡ (
      ok tt,
      alone
          (retried example_host 1000 recharge_obj)
          (saved (retried example_host 1000 recharge_obj) ∷ now ∷ []),
    )
fail_lem_example = fail_lem example_host (alone recharge_obj []) (report "t1") 1000 refl refl

recharge_v2-Allowed_example :
    Since
      (Allowed example_host from_tr_json receiver)
      []
      (recharge_v2 from_tr_json receiver example_host (alone tt [])).1.calls
recharge_v2-Allowed_example = recharge_v2-Allowed example_host from_tr_json receiver (alone tt [])

pending_states : get_order_state_array pending ≡ ok (init ∷ external_wait_on_chain ∷ [])
unfolding get_order_state_array
pending_states = refl

verify_recharge_trans_detail-IsDeposit_example :
    (verify_recharge_trans_detail example_host recharge_detail config ≡ ok tt)
    ↔ IsDeposit example_host recharge_detail config
verify_recharge_trans_detail-IsDeposit_example =
    verify_recharge_trans_detail-IsDeposit example_host recharge_detail config

abbrev failed_world : World RechargeOrderObj
failed_world = (on_internal_chain_fail_callback (report "t1") clock_host (alone recharge_obj [])).1

-- The world after a tick that is early.
abbrev waiting_world : World RechargeOrderObj
waiting_world = (on_tick clock_host failed_world).1

failed_IsDue_example :
    (waiting_world.self ≡ retried clock_host 20000 recharge_obj)
    × IsDue clock_host waiting_world.self
    × ((on_tick clock_host waiting_world).1
        ≡ after (publish_again recharge_obj) (record waiting_world {
          self = record (retried clock_host 20000 recharge_obj) { retry_recharge_tx_stamp = none };
          calls = now ∷ waiting_world.calls;
        }))
unfolding on_internal_chain_fail_callback on_tick save
failed_IsDue_example =
    failed_IsDue clock_host (alone recharge_obj []) (report "t1") 20000 80000 waiting_world refl
      refl refl refl (omega arith) refl refl (omega arith) (early at_once 60000 refl (omega arith))
      refl (omega arith)

restarted : (retry_external_on_chain "r1" example_host (alone tt [])).0 ≡ ok true
unfolding retry_external_on_chain move_row create_order_object
restarted = refl

retry_external_on_chain-IsRestarted_example : IsRestarted example_host "r1" []
retry_external_on_chain-IsRestarted_example =
    retry_external_on_chain-IsRestarted example_host "r1" (alone tt []) restarted

-- A deposit for a chain that the source does not name.
abbrev other_detail : TransDetail
other_detail = record recharge_detail {
  to_detail = record receiver { chain_name = InternalChainName.other "BFChain" };
}

order_created :
    (create_recharge_order other_detail from_tr_json example_host (alone tt [])).0
    ≡ ok (order_of "5000" "5000" other_detail)
unfolding create_recharge_order create_external_trans is_recharge_dev_test get_tr_json
order_created = refl

create_orders_late_example : create_orders other_detail from_tr_json example_host (alone tt []) ≡ (
  err not_support_chain,
  (create_recharge_order other_detail from_tr_json example_host (alone tt [])).1,
)
create_orders_late_example =
    create_orders_late example_host from_tr_json other_detail "BFChain" refl (alone tt [])
      (order_of "5000" "5000" other_detail) order_created

abbrev posting : RecordsReq
posting = record {
  internal_chain = none;
  internal_address = "cReceiver";
  record_state = some to_be_posted;
  page = 1;
  page_size = 20;
}

abbrev posting_where : RechargeWhere
posting_where = record any_recharge {
  internal_address = some "cReceiver";
  recharge_type = some issue;
  state = some (internal_wait_on_chain ∷ []);
}

abbrev posting_record : RechargeRecord
posting_record = record {
  order_id = "r1";
  state = to_be_posted;
  order_state = internal_wait_on_chain;
  from_tx_info = record {
    chain_name = external bsc;
    amount = some "5000";
    asset = some "USDT";
    decimals = some 18;
  };
  to_tx_info_array =
      record {
        chain_name = internal pmchain;
        amount = some "5000";
        asset = some "USDM";
        decimals = some 8;
      }
      ∷ [];
}

posting_query : records_where posting ≡ ok posting_where
unfolding records_where records_base filter_states get_order_state_array
posting_query = refl

posting_shown : recharge_record example_host recharge_row ≡ ok posting_record
unfolding recharge_record record_in_state get_record_state to_text
posting_shown = refl

recharge_record-records_where_example :
    IsIn recharge_row.state (internal_wait_on_chain ∷ []) ↔ (posting_record.state ≡ to_be_posted)
recharge_record-records_where_example =
    recharge_record-records_where example_host recharge_row to_be_posted posting posting_where
      (internal_wait_on_chain ∷ []) posting_record refl posting_query refl posting_shown

recharge_v2-Reloads_example :
    Since Reloads [] (recharge_v2 from_tr_json receiver example_host (alone tt [])).1.calls
recharge_v2-Reloads_example = recharge_v2-Reloads example_host from_tr_json receiver (alone tt [])
