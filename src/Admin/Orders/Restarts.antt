-- ===== src/Admin/Orders/Restarts.antt =====
-- When the repair of a recharge order returns.
use cot_server.Base.{◌≡◌, ap, ◌∙◌, Bool, true, false, not, ◌∷◌, arith, ◌==◌, Bool-cases, inl, inr}
use cot_server.Model.Admin.{AdminAuthInfo, FixOrderReq}
use cot_server.Model.Recharge.{internal_on_chain_fail, internal_wait_on_chain}
use cot_server.Host.{Host, World, History, ok, update_recharge_state}
use cot_server.Host.Answers.{answers, Answered-always, Answered-value}
use cot_server.Recharge.Retry.{retry_internal_on_chain, move_row}
use cot_server.Recharge.Retry.Moves.{IsRestarted, returned-IsRestarted}
use cot_server.Admin.Orders.{fix_recharge_order, repair_recharge_order}
use cot_server.Admin.Orders.Repairs.{
  started, record_call, repair-IsRecorded, not_begun, failed, repaired,
}

-- Why a repair of a recharge order has returned, after the calls `c`: by its type, the failed
-- deposit has been restarted, or the row of a failed payment has been moved back.
pub data IsRepaired (h : Host) (dto : FixOrderReq) (c : History) : Type 0 where
  restarted : dto.fix_type ≡ 1 → IsRestarted h dto.entity_id c → IsRepaired h dto c
  moved_back :
      dto.fix_type ≡ 2
      → h.flag
          (update_recharge_state dto.entity_id internal_on_chain_fail internal_wait_on_chain ∷ c)
        ≡ ok true
      → IsRepaired h dto c

module _ (h : Host) (dto : FixOrderReq) (v : World (Unit {0})) where
  move-IsRepaired :
      dto.fix_type ≡ 2
      → (affected : Bool)
      → h.flag (
          update_recharge_state dto.entity_id internal_on_chain_fail internal_wait_on_chain
          ∷ v.calls)
        ≡ ok affected
      → not affected ≡ false
      → IsRepaired h dto v.calls
  move-IsRepaired t affected m n = moved_back t (m ∙ ap ok (ground (arith, n)))

  back-IsRepaired :
      dto.fix_type ≡ 2
      → (b : Bool) → (retry_internal_on_chain dto.entity_id h v).0 ≡ ok b
      → IsRepaired h dto v.calls
  unfolding retry_internal_on_chain move_row
  back-IsRepaired t b =
      Answered-value h (λ _. IsRepaired h dto v.calls) v (retry_internal_on_chain dto.entity_id) b
        (search (answers, Answered-always, move-IsRepaired, t) depth 20 fits 20000)

  fix-IsRepaired : (b : Bool) → (fix_recharge_order dto h v).0 ≡ ok b → IsRepaired h dto v.calls
  unfolding fix_recharge_order
  fix-IsRepaired b = elim (Bool-cases (dto.fix_type == 1)) [
    | inl t ↦ rw t λ e. restarted (ground (arith, t)) (returned-IsRestarted h dto.entity_id v b e)
    | inr f ↦ elim (Bool-cases (dto.fix_type == 2)) [
      | inl t ↦ rw (f, t) (back-IsRepaired (ground (arith, t)) b)
      | inr g ↦ rw (f, g) λ e. cc
    ]
  ]

module _ (h : Host) (authorization : AdminAuthInfo) (dto : FixOrderReq) (w : World (Unit {0})) where
  -- If the repair of a recharge order returns, then its type was 1 and, after the record was
  -- written, a failed deposit was found, its transaction reset and its row moved; or the type was 2
  -- and the row of a failed payment was moved. Any other type is an error.
  pub repair_recharge_order-IsRepaired :
      (b : Bool)
      → (repair_recharge_order authorization dto h w).0 ≡ ok b
      → IsRepaired h dto (record_call h authorization "recharge/fix" dto false ∷ w.calls)
  repair_recharge_order-IsRepaired b e = elim (repair-IsRecorded h authorization dto w).0 [
    | not_begun c x r ↦ cc
    | failed v x f r c ↦ cc
    | repaired v r f c ↦
        fix-IsRepaired h dto (started (record_call h authorization "recharge/fix" dto false) w) r
          (ap (λ p. p.0) f)
  ]
