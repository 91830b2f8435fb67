-- ===== src/Recharge/Order/Retries.antt =====
-- A failed transfer of a recharge order is tried again.
use cot_server.Base.{
  ℕ, ◌+◌, ◌≤◌, ◌<◌, ◌≡◌, refl, true, false, none, some, ◌∷◌, arith, str_eq_self, ◌∙◌, ap, subst,
  sym,
}
use cot_server.Base.BigInt.{is_zero}
use cot_server.Model.Chain.{recharge_order_try_transfer, rechargev2_account}
use cot_server.Model.Wallet.{TransactionBase}
use cot_server.Host.{Host, World, Call, ok, now, publish}
use cot_server.Recharge.Order.Obj.{RechargeOrderObj, is_recharge_tx_finish}
use cot_server.Recharge.Order.InternalWait.{
  on_internal_chain_fail_callback, on_tick, is_due, publish_try_transfer,
}
use cot_server.Recharge.Order.Callbacks.{saved, retried, after, fail_lem}
use cot_server.Recharge.Order.Payments.{IsDue}

abbrev pub publish_again : RechargeOrderObj → Call
publish_again o =
    publish recharge_order_try_transfer
      (record { order_id = o.entity_id; account_type = some rechargev2_account }) true

-- Ticks before the time `due`, one after another.
pub data Waits (h : Host) (due : ℕ) (w : World RechargeOrderObj)
    : World RechargeOrderObj → Type 0 where
  at_once : Waits h due w w
  early :
      {v : World RechargeOrderObj}
      → Waits h due w v
      → (t : ℕ) → h.number (now ∷ v.calls) ≡ ok t
      → t < due
      → Waits h due w (on_tick h v).1

module _ (h : Host) (w : World RechargeOrderObj) (due t : ℕ)
    (stamp : w.self.retry_recharge_tx_stamp ≡ some due)
    (clock : h.number (now ∷ w.calls) ≡ ok t) where
  -- An early tick reads the clock and does nothing.
  early_tick : t < due → (on_tick h w).1 ≡ record w { calls = now ∷ w.calls }
  unfolding on_tick publish_try_transfer is_due
  early_tick p = rw (stamp, is_due) (ground (arith, clock, p))

  -- A tick that is not early clears the time and publishes.
  due_tick :
      0 < due
      → due ≤ t
      → (on_tick h w).1
        ≡ after (publish_again w.self) (record w {
          self = record w.self { retry_recharge_tx_stamp = none };
          calls = now ∷ w.calls;
        })
  unfolding on_tick publish_try_transfer is_due
  due_tick p q = rw (stamp, is_due) (ground (arith, clock, p, q))

Waits-self :
    {h : Host} {due : ℕ} {w v : World RechargeOrderObj}
    → w.self.retry_recharge_tx_stamp ≡ some due
    → Waits h due w v
    → v.self ≡ w.self
Waits-self e at_once = refl
Waits-self {h = h} {due = due} e (early {v = v} k t c p) =
    ap (λ x. x.self)
      (early_tick h v due t (ap (λ o. o.retry_recharge_tx_stamp) (Waits-self e k) ∙ e) c p)
    ∙ Waits-self e k

module _ (h : Host) (w : World RechargeOrderObj) (trans : TransactionBase) where
  fail_self :
      (time : ℕ)
      → trans.entity_id ≡ w.self.recharge_tx_id
      → h.number (now ∷ w.calls) ≡ ok time
      → let o = retried h time w.self in
        let s = saved o ∷ now ∷ w.calls in
        h.done s ≡ ok tt
        → w.others s o ≡ o
        → o.retry_recharge_tx_num ≤ h.internal_retry_max
        → (on_internal_chain_fail_callback trans h w).1 ≡ record w { self = o; calls = s }
  fail_self time e n d u m =
      ap (λ p. p.1) (fail_lem h w trans time e n) ∙ rw (d, u) (ground (arith, m))

  -- After a failure callback for the order's transfer, with retries left, the row saved while no other
  -- method changes the order, an amount that is not 0 and no transfer on its chain: whatever the
  -- number of ticks before the end of the interval, they change nothing; and the first tick at or
  -- after it finds the order due to be paid again, clears the time and publishes one event to try
  -- the transfer again. (The end of the interval is not the time 0.)
  pub failed_IsDue :
      (time later : ℕ) (v : World RechargeOrderObj)
      → trans.entity_id ≡ w.self.recharge_tx_id
      → h.number (now ∷ w.calls) ≡ ok time
      → let o = retried h time w.self in
        let s = saved o ∷ now ∷ w.calls in
        h.done s ≡ ok tt
        → w.others s o ≡ o
        → w.self.retry_recharge_tx_num + 1 ≤ h.internal_retry_max
        → is_zero w.self.recharge_amount ≡ false
        → w.self.recharge_tx_on_chain ≡ false
        → 0 < time + h.internal_retry_interval
        → Waits h (time + h.internal_retry_interval) (on_internal_chain_fail_callback trans h w).1 v
        → h.number (now ∷ v.calls) ≡ ok later
        → time + h.internal_retry_interval ≤ later
        → (v.self ≡ o)
          × IsDue h v.self
          × ((on_tick h v).1
              ≡ after (publish_again o) (record v {
                self = record o { retry_recharge_tx_stamp = none };
                calls = now ∷ v.calls;
              }))
  unfolding is_recharge_tx_finish
  failed_IsDue time later v e n d u m a f l k c p =
      let o = retried h time w.self in
      let kept = Waits-self refl (
        subst (λ x. Waits h (time + h.internal_retry_interval) x v) (fail_self time e n d u m) k) in
      let due : IsDue h o = record {
        has_amount = a;
        not_finished = ground (arith, f, m);
        no_transfer = str_eq_self w.self.entity_id;
      } in
      (
        kept,
        subst (IsDue h) (sym kept) due,
        due_tick h v (time + h.internal_retry_interval) later
              (ap (λ x. x.retry_recharge_tx_stamp) kept) c l p
            ∙ ap
                (λ x. after (publish_again x) (record v {
                  self = record x { retry_recharge_tx_stamp = none };
                  calls = now ∷ v.calls;
                }))
                kept,
      )
