-- ===== src/Admin/Orders/Repairs.antt =====
-- The record of a repair says whether the repair was done.
use cot_server.Base.{◌≡◌, refl, sym, subst, String, Bool, true, false, ◌∷◌, inl, inr}
use cot_server.Model.Admin.{AdminAuthInfo, FixOrderReq}
use cot_server.Model.User.{OperateRecordEntity}
use cot_server.Host.{
  Host, World, History, Call, Result, ok, err, Error, Result-cases, Service, pure, save_entity,
  operate_record, ◌>>=◌, ◌>>◌, call,
}
use cot_server.Host.Answers.{run-bind, run-throw}
use cot_server.Admin.Users.{new_operate_record, save_operate_record, operate_record_success}
use cot_server.Admin.Orders.{
  fix_recharge_order, repair_recharge_order, fix_redemption_order, repair_redemption_order,
}

-- A call that does not write a record of an operation.
abbrev pub NoRecord : Call → Type 0
NoRecord (save_entity (operate_record r)) = ⊥
NoRecord _ = Unit

-- The world once a call has been answered.
abbrev pub started : Call → World (Unit {0}) → World (Unit {0})
started c w = record w { self = w.others (c ∷ w.calls) w.self; calls = c ∷ w.calls }

-- How a repair ends, where `first` is the write of its record, as not done, and `last` the write of
-- that record as done: the record cannot be written, and nothing is repaired; the repair fails, and
-- the record stays; or the repair is done, and the record is then marked.
pub data IsRecorded (h : Host) (fix : Service Bool) (first last : Call) (w : World (Unit {0}))
    (r : Result Bool) (c : History) : Type 0 where
  not_begun : c ≡ first ∷ w.calls → (e : Error) → r ≡ err e → IsRecorded h fix first last w r c
  failed :
      (v' : World (Unit {0})) (e : Error)
      → fix h (started first w) ≡ (err e, v')
      → r ≡ err e
      → c ≡ v'.calls
      → IsRecorded h fix first last w r c
  repaired :
      (v' : World (Unit {0})) (b : Bool)
      → fix h (started first w) ≡ (ok b, v')
      → c ≡ last ∷ v'.calls
      → IsRecorded h fix first last w r c

-- A repair between two writes of its record.
module _ (h : Host) (fix : Service Bool) (login_name api content : String)
    (w : World (Unit {0})) where
  abbrev recorded : Service Bool
  recorded = do
    r ← save_operate_record login_name api content
    result ← fix
    operate_record_success r
    pure result

  abbrev record_of : OperateRecordEntity
  record_of = new_operate_record h login_name api content

  abbrev first : Call
  first = save_entity (operate_record record_of)

  abbrev last : Call
  last = save_entity (operate_record (record record_of { result = true }))

  abbrev marked : Bool → Service Bool
  marked result = operate_record_success record_of >> pure result

  marked-IsRecorded :
      (b : Bool) (v' : World (Unit {0}))
      → fix h (started first w) ≡ (ok b, v')
      → IsRecorded h fix first last w (marked b h v').0 (marked b h v').1.calls
  unfolding operate_record_success
  marked-IsRecorded b v' e = elim (Result-cases (h.done (last ∷ v'.calls))) [
    | inl (a, d) ↦ rw d (repaired v' b e refl)
    | inr (x, d) ↦ rw d (repaired v' b e refl)
  ]

  fixed-IsRecorded :
      (p : Result Bool × World (Unit {0}))
      → fix h (started first w) ≡ p
      → let q = ◌>>=◌ (λ _ _. p) marked h (started first w) in
        IsRecorded h fix first last w q.0 q.1.calls
  fixed-IsRecorded (ok b, v') e = marked-IsRecorded b v' e
  fixed-IsRecorded (err x, v') e = failed v' x e refl refl

  abbrev fixing : OperateRecordEntity → Service Bool
  fixing r = do result ← fix; operate_record_success r; pure result

  saved :
      h.done (first ∷ w.calls) ≡ ok tt
      → save_operate_record login_name api content h w ≡ (ok record_of, started first w)
  unfolding save_operate_record
  saved d = run-bind (call first) (λ _. pure record_of) h w tt d

  not_saved :
      (x : Error)
      → h.done (first ∷ w.calls) ≡ err x
      → save_operate_record login_name api content h w ≡ (err x, started first w)
  unfolding save_operate_record
  not_saved x d = run-throw (call first) (λ _. pure record_of) h w x d

  recorded-IsRecorded : IsRecorded h fix first last w (recorded h w).0 (recorded h w).1.calls
  recorded-IsRecorded =
      let Ends : Result OperateRecordEntity × World (Unit {0}) → Type 0 =
        λ q. let p = ◌>>=◌ (λ _ _. q) fixing h w in IsRecorded h fix first last w p.0 p.1.calls in
      elim (Result-cases (h.done (first ∷ w.calls))) [
        | inl (a, d) ↦ subst Ends (sym (saved d)) (fixed-IsRecorded (fix h (started first w)) refl)
        | inr (x, d) ↦ subst Ends (sym (not_saved x d)) (not_begun refl x refl)
      ]

-- The writes of the record of a repair, before and after it.
abbrev pub record_call : Host → AdminAuthInfo → String → FixOrderReq → Bool → Call
record_call h authorization api dto done = save_entity (
    operate_record (record (new_operate_record h authorization.login_name api (h.fix_to_json dto)) {
      result = done;
    }))

module _ (h : Host) (authorization : AdminAuthInfo) (dto : FixOrderReq) (w : World (Unit {0})) where
  -- The repair of an order, of either type, first writes a record of it that is marked as not done.
  -- If that fails, nothing is repaired; if the repair fails, its error is thrown and the record
  -- stays as it is; and once the repair has returned, the record is written again, marked as done.
  pub repair-IsRecorded :
      IsRecorded h
        (fix_recharge_order dto)
        (record_call h authorization "recharge/fix" dto false)
        (record_call h authorization "recharge/fix" dto true)
        w
        (repair_recharge_order authorization dto h w).0
        (repair_recharge_order authorization dto h w).1.calls
      × IsRecorded h
          (fix_redemption_order dto)
          (record_call h authorization "redemption/fix" dto false)
          (record_call h authorization "redemption/fix" dto true)
          w
          (repair_redemption_order authorization dto h w).0
          (repair_redemption_order authorization dto h w).1.calls
  unfolding repair_recharge_order repair_redemption_order new_operate_record
  repair-IsRecorded = (
    recorded-IsRecorded h (fix_recharge_order dto) authorization.login_name "recharge/fix"
        (h.fix_to_json dto) w,
    recorded-IsRecorded h (fix_redemption_order dto) authorization.login_name "redemption/fix"
        (h.fix_to_json dto) w,
  )
