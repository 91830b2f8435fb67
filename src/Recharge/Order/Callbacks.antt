-- ===== src/Recharge/Order/Callbacks.antt =====
-- What the callbacks of the internal chain do to a recharge order.
use cot_server.Base.{ℕ, ◌+◌, ◌≡◌, sym, true, some, ◌∷◌, leb, arith, if◌then◌else◌, str_eq-same}
use cot_server.Model.Wallet.{TransactionBase}
use cot_server.Model.Recharge.{internal_wait_on_chain, internal_on_chain_fail, success}
use cot_server.Host.{
  Host, Call, ok, err, save_entity, recharge_order, change_recharge_state, now, World,
}
use cot_server.Recharge.Order.Obj.{RechargeOrderObj, save, change_state, is_recharge_tx_finish}
use cot_server.Recharge.Order.InternalWait.{
  on_internal_chain_success_callback, on_internal_chain_fail_callback,
}

abbrev pub saved : RechargeOrderObj → Call
saved o = save_entity (recharge_order o.entity)

-- The order with its transfer marked as on its chain.
abbrev pub confirmed : RechargeOrderObj → RechargeOrderObj
confirmed o = record o { entity = record o.entity { recharge_tx_on_chain = true } }

-- The order made ready for another transfer, not before `time` and the interval.
abbrev pub retried : Host → ℕ → RechargeOrderObj → RechargeOrderObj
retried h time o = record o {
  retry_recharge_tx_stamp = some (time + h.internal_retry_interval);
  entity = record o.entity { recharge_tx_id = o.entity_id };
  retry_recharge_tx_num = o.retry_recharge_tx_num + 1;
}

-- The world after a call that was waited for: other methods may have changed the order.
abbrev pub after : Call → World RechargeOrderObj → World RechargeOrderObj
after call w = record w { self = w.others (call ∷ w.calls) w.self; calls = call ∷ w.calls }

module _ (h : Host) (w : World RechargeOrderObj) (trans : TransactionBase) where
  -- A success callback for the order's transaction marks the transfer as on its chain and saves the
  -- row, an error of which it throws. Then it asks for the change to SUCCESS if the order, which
  -- other methods may have changed in the meantime, still has the mark.
  pub success_lem :
      trans.entity_id ≡ w.self.recharge_tx_id
      → let o = confirmed w.self in
        let v = after (saved o) (record w { self = o }) in
        let change = change_recharge_state v.self.entity_id success internal_wait_on_chain in
        on_internal_chain_success_callback trans h w ≡ (elim (h.done v.calls) [
          | ok _ ↦
              if v.self.recharge_tx_on_chain
              then (h.done (change ∷ v.calls), after change v)
              else (ok tt, v)
          | err e ↦ (err e, v)
        ])
  unfolding on_internal_chain_success_callback save change_state
  success_lem e = ground (
    arith,
    str_eq-same trans.entity_id w.self.recharge_tx_id e,
    str_eq-same w.self.recharge_tx_id trans.entity_id (sym e),
  )

  -- A failure callback for the order's transaction, at the time `time`: the order is made ready for
  -- another transfer and saved, an error of which is thrown. Then the change to
  -- INTERNAL_ON_CHAIN_FAIL is asked for exactly when the failures of the order, which other methods
  -- may have changed in the meantime, are more than the retries allow.
  pub fail_lem :
      (time : ℕ)
      → trans.entity_id ≡ w.self.recharge_tx_id
      → h.number (now ∷ w.calls) ≡ ok time
      → let o = retried h time w.self in
        let v = after (saved o) (record w { self = o; calls = now ∷ w.calls }) in
        let change =
          change_recharge_state v.self.entity_id internal_on_chain_fail internal_wait_on_chain in
        on_internal_chain_fail_callback trans h w ≡ (elim (h.done v.calls) [
          | ok _ ↦
              if leb v.self.retry_recharge_tx_num h.internal_retry_max
              then (ok tt, v)
              else (h.done (change ∷ v.calls), after change v)
          | err e ↦ (err e, v)
        ])
  unfolding on_internal_chain_fail_callback save change_state is_recharge_tx_finish
  fail_lem time e n = ground (
    arith,
    str_eq-same trans.entity_id w.self.recharge_tx_id e,
    str_eq-same w.self.recharge_tx_id trans.entity_id (sym e),
  )
