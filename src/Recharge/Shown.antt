-- ===== src/Recharge/Shown.antt =====
-- A list of records that is filtered by a state shows only records in that state.
use cot_server.Base.{◌≡◌, refl, ap, ◌∙◌, sym, ◌↔◌, Option, none, some, List, [], ◌∷◌, All}
use cot_server.Model.Recharge.{
  RechargeOrder, RechargeOrderStateId, RechargeRecord, RechargeRecordState, RechargeWhere,
}
use cot_server.Host.{Host, Result, ok, err}
use cot_server.Host.Returns.{Gives, Gives-then, Gives-ok, Gives-err, Gives-value}
use cot_server.Recharge.Helper.{get_record_state, get_order_state_array}
use cot_server.Recharge.Records.{
  RecordsReq, records_where, recharge_record, filter_states, records_base, record_in_state,
}
use cot_server.Recharge.Checks.{IsIn, here, there, get_order_state_array-get_record_state}

module _ (P : RechargeOrderStateId → Type 0) where
  All-IsIn : (l : List RechargeOrderStateId) (s : RechargeOrderStateId) → All P l → IsIn s l → P s
  All-IsIn [] s _ i = elim i [ ]
  All-IsIn (t ∷ l) _ (p, q) here = p
  All-IsIn (t ∷ l) s (p, q) (there i) = All-IsIn l s q i

default_to :
    List RechargeOrderStateId → Option (List RechargeOrderStateId) → List RechargeOrderStateId
default_to l none = l
default_to l (some m) = m

abbrev Selects : RechargeRecordState → RechargeWhere → Type 0
Selects r options =
    (l : List RechargeOrderStateId) → options.state ≡ some l → get_order_state_array r ≡ ok l

filter_states-Selects :
    (r : RechargeRecordState) (options : RechargeWhere)
    → Gives (Selects r) (filter_states (some r) options)
unfolding filter_states default_to
filter_states-Selects r options =
    Gives-then (get_order_state_array r) _
      (λ states e. Gives-ok _ (λ l k. e ∙ ap ok (ap (λ x. default_to l x) k)))

default_state : RechargeRecordState → Result RechargeRecordState → RechargeRecordState
default_state r (ok s) = s
default_state r (err e) = r

module _ (h : Host) (o : RechargeOrder) where
  in_state :
      (q : Result RechargeRecordState)
      → Gives (λ (x : RechargeRecord). q ≡ ok x.state) (record_in_state h o q)
  unfolding record_in_state
  in_state (ok s) = Gives-ok _ refl
  in_state (err e) = Gives-err e

  shown_state :
      (shown : RechargeRecord)
      → recharge_record h o ≡ ok shown
      → get_record_state o.state ≡ ok shown.state
  unfolding recharge_record
  shown_state shown =
      Gives-value (λ x. get_record_state o.state ≡ ok x.state) (recharge_record h o) shown
        (in_state (get_record_state o.state))

  -- When a list of records is filtered by the state `r`, each row whose state is selected is shown in
  -- the state `r`, if it can be shown, and each row that is shown in the state `r` is selected.
  pub recharge_record-records_where :
      (r : RechargeRecordState) (dto : RecordsReq) (options : RechargeWhere)
      (l : List RechargeOrderStateId) (shown : RechargeRecord)
      → dto.record_state ≡ some r
      → records_where dto ≡ ok options
      → options.state ≡ some l
      → recharge_record h o ≡ ok shown
      → IsIn o.state l ↔ (shown.state ≡ r)
  unfolding records_where default_state
  recharge_record-records_where r dto options l shown d w k e =
      let selected =
        Gives-value (Selects r) (filter_states (some r) (records_base dto)) options
          (filter_states-Selects r (records_base dto))
          (ap (λ x. filter_states x (records_base dto)) (sym d) ∙ w) l k in
      let (sound, complete) = get_order_state_array-get_record_state r l selected in
      let state = shown_state shown e in
      (
        λ i.
            ap (default_state r)
              (sym state ∙ All-IsIn (λ t. get_record_state t ≡ ok r) l o.state sound i),
        λ f. complete o.state (state ∙ ap ok f),
      )
