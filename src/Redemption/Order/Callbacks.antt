-- ===== src/Redemption/Order/Callbacks.antt =====
-- What a failed payout does to a redemption order.
use cot_server.Base.{ℕ, ◌+◌, ◌≡◌, some, ◌∷◌, leb, arith, if◌then◌else◌, str_eq-same}
use cot_server.Model.Wallet.{TransactionBase}
use cot_server.Model.Redemption.{external_wait_on_chain, external_on_chain_fail}
use cot_server.Host.{
  Host, Call, ok, err, save_entity, redemption_order, change_redemption_state, now, World,
}
use cot_server.Redemption.Order.Obj.{RedemptionOrderObj, save, change_state}
use cot_server.Redemption.Order.ExternalWait

abbrev pub saved : RedemptionOrderObj → Call
saved o = save_entity (redemption_order o.entity)

-- The order made ready for another transfer, not before `time` and the interval.
abbrev pub retried : Host → ℕ → RedemptionOrderObj → RedemptionOrderObj
retried h time o = record o {
  retry_to_tx_stamp = some (time + h.external_retry_interval);
  entity = record o.entity { wallet_tx_id = o.entity_id };
  retry_to_tx_num = o.retry_to_tx_num + 1;
}

-- The world after a call that was waited for: other methods may have changed the order.
abbrev pub after : Call → World RedemptionOrderObj → World RedemptionOrderObj
after call w = record w { self = w.others (call ∷ w.calls) w.self; calls = call ∷ w.calls }

module _ (h : Host) (w : World RedemptionOrderObj) (trans : TransactionBase) where
  -- A failure callback for the payout's transaction, at the time `time`: the order is made ready for
  -- another transfer and saved, an error of which is thrown. Then the change to
  -- EXTERNAL_ON_CHAIN_FAIL is asked for exactly when the failures of the order, which other methods
  -- may have changed in the meantime, are more than the retries allow.
  pub withdrawal_fail_lem :
      (time : ℕ)
      → trans.entity_id ≡ w.self.wallet_tx_id
      → h.number (now ∷ w.calls) ≡ ok time
      → let o = retried h time w.self in
        let v = after (saved o) (record w { self = o; calls = now ∷ w.calls }) in
        let change =
          change_redemption_state v.self.entity_id external_on_chain_fail external_wait_on_chain in
        ExternalWait.on_external_chain_fail_callback trans h w ≡ (elim (h.done v.calls) [
          | ok _ ↦
              if leb v.self.retry_to_tx_num h.external_retry_max
              then (ok tt, v)
              else (h.done (change ∷ v.calls), after change v)
          | err e ↦ (err e, v)
        ])
  unfolding ExternalWait.on_external_chain_fail_callback save change_state
  withdrawal_fail_lem time e n = ground (arith, str_eq-same trans.entity_id w.self.wallet_tx_id e)
