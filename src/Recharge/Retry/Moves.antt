-- ===== src/Recharge/Retry/Moves.antt =====
-- When a retry of a recharge order succeeds.
use cot_server.Base.{◌≡◌, Bool, true, false, not, String, some, [], ◌∷◌, arith, ap, ◌∙◌}
use cot_server.Model.Chain.{OrderType}
use cot_server.Model.Recharge.{
  RechargeOrder, external_on_chain_fail, external_wait_on_chain, any_recharge,
}
use cot_server.Host.{
  Host, World, History, Call, ok, find_recharge_order, reset_external_trans, update_recharge_state,
  ◌>>◌, pure,
}
use cot_server.Host.Answers.{
  Answered, answers, Answered-value, Answered-ask, Answered-checked, Answered-steps,
  Answered-always,
}
use cot_server.OrderHelper.{create_order_object}
use cot_server.Recharge.Retry.{retry_external_on_chain, move_row}

abbrev pub failed_order : String → Call
failed_order order_id =
    find_recharge_order (record any_recharge {
      entity_id = some order_id;
      state = some (external_on_chain_fail ∷ []);
    })

abbrev pub restart : String → Call
restart order_id = update_recharge_state order_id external_on_chain_fail external_wait_on_chain

-- After the calls `c`: a row of a failed order was found, the wallet has reset its transaction, and
-- the row has gone back to the state in which it waits.
pub record IsRestarted (h : Host) (order_id : String) (c : History) : Type 0 where
  pub o : RechargeOrder
  pub found : h.recharge_row_force (failed_order order_id ∷ c) ≡ ok o
  pub reset :
      h.flag (reset_external_trans o.wallet_chain o.wallet_tx_id ∷ failed_order order_id ∷ c)
      ≡ ok true
  pub moved :
      h.flag (
        restart order_id
        ∷ reset_external_trans o.wallet_chain o.wallet_tx_id
        ∷ failed_order order_id
        ∷ c)
      ≡ ok true

module _ (h : Host) (order_id : String) (w : World (Unit {0})) where
  asked-IsRestarted :
      (o : RechargeOrder) (reset affected : Bool)
      → h.recharge_row_force (failed_order order_id ∷ w.calls) ≡ ok o
      → h.flag
          (reset_external_trans o.wallet_chain o.wallet_tx_id ∷ failed_order order_id ∷ w.calls)
        ≡ ok reset
      → not reset ≡ false
      → h.flag (
          restart order_id
          ∷ reset_external_trans o.wallet_chain o.wallet_tx_id
          ∷ failed_order order_id
          ∷ w.calls)
        ≡ ok affected
      → not affected ≡ false
      → IsRestarted h order_id w.calls
  asked-IsRestarted o reset affected f r nr m nm = record {
    o = o;
    found = f;
    reset = r ∙ ap ok (ground (arith, nr));
    moved = m ∙ ap ok (ground (arith, nm));
  }

  moved :
      (v : World (Unit {0}))
      → ((affected : Bool)
          → h.flag (restart order_id ∷ v.calls) ≡ ok affected
          → not affected ≡ false
          → IsRestarted h order_id w.calls)
      → Answered h
          (λ _. IsRestarted h order_id w.calls)
          v
          (move_row order_id external_on_chain_fail external_wait_on_chain
            >> (create_order_object OrderType.recharge order_id >> pure true))
  unfolding move_row
  moved v k = search (Answered-ask, Answered-checked, Answered-steps, Answered-always, k) depth 10

  -- The same for any value that is returned.
  pub returned-IsRestarted :
      (b : Bool) → (retry_external_on_chain order_id h w).0 ≡ ok b → IsRestarted h order_id w.calls
  unfolding retry_external_on_chain
  returned-IsRestarted b =
      Answered-value h (λ _. IsRestarted h order_id w.calls) w (retry_external_on_chain order_id) b
        (search (answers, moved, asked-IsRestarted) depth 30 fits 20000)

  -- A retry of a failed deposit succeeds only if the order was found in EXTERNAL_ON_CHAIN_FAIL, the
  -- wallet has reset the transaction of that order, and after that the row was moved from
  -- EXTERNAL_ON_CHAIN_FAIL to EXTERNAL_WAIT_ON_CHAIN.
  pub retry_external_on_chain-IsRestarted :
      (retry_external_on_chain order_id h w).0 ≡ ok true → IsRestarted h order_id w.calls
  retry_external_on_chain-IsRestarted = returned-IsRestarted true
