-- ===== src/Recharge/Checks.antt =====
-- The states of records, and the check of a deposit against the configuration.
use cot_server.Base.{
  ◌≡◌, refl, ◌↔◌, Bool, true, false, not, Option, none, some, String, List, ◌∷◌, All, subst, truthy,
  text_or_empty, arith,
}
use cot_server.Model.Config.{RechargeItem, RechargeObject, ExternalAssetInfoItem, support_item}
use cot_server.Model.Recharge.{
  RechargeOrderStateId, init, external_wait_on_chain, external_on_chain_fail,
  internal_wait_on_chain, internal_on_chain_fail, success, RechargeRecordState, pending,
  to_be_posted, posted, fail, TransDetail,
}
use cot_server.Host.{Host, Result, ok, err}
use cot_server.Host.Returns.{Gives, Gives-ok, Gives-err, gives, Gives-map, Gives-value}
use cot_server.Recharge.Helper.{
  get_record_state, get_order_state_array, check_chain_asset_item, verify_recharge_trans_detail,
  verify_deposit, verify_contract, support_or_error,
}

pub data IsIn (s : RechargeOrderStateId) : List RechargeOrderStateId → Type 0 where
  here : {l : List RechargeOrderStateId} → IsIn s (s ∷ l)
  there : {t : RechargeOrderStateId} {l : List RechargeOrderStateId} → IsIn s l → IsIn s (t ∷ l)

abbrev Lists : RechargeOrderStateId → Result (List RechargeOrderStateId) → Type 0
Lists s (ok l) = IsIn s l
Lists s (err e) = ⊥

abbrev AllShown : RechargeRecordState → List RechargeOrderStateId → Type 0
AllShown r = All (λ t. get_record_state t ≡ ok r)

all_shown : (r : RechargeRecordState) → Gives (AllShown r) (get_order_state_array r)
unfolding get_order_state_array get_record_state
all_shown pending = Gives-ok _ (refl, (refl, tt))
all_shown to_be_posted = Gives-ok _ (refl, tt)
all_shown posted = Gives-ok _ (refl, tt)
all_shown fail = Gives-ok _ (refl, (refl, tt))
all_shown (RechargeRecordState.other n) = Gives-err _

abbrev Found : RechargeOrderStateId → RechargeRecordState → Type 0
Found s r = Lists s (get_order_state_array r)

found : (s : RechargeOrderStateId) → Gives (Found s) (get_record_state s)
unfolding get_order_state_array get_record_state
found init = Gives-ok _ here
found external_wait_on_chain = Gives-ok _ (there here)
found internal_wait_on_chain = Gives-ok _ here
found success = Gives-ok _ here
found external_on_chain_fail = Gives-ok _ here
found internal_on_chain_fail = Gives-ok _ (there here)
found (RechargeOrderStateId.other n) = Gives-err _

-- The states that a filter by the record state `r` selects are exactly those that are shown as `r`:
-- each of the list is, and every state that is shown as `r` is in the list.
pub get_order_state_array-get_record_state :
    (r : RechargeRecordState) (l : List RechargeOrderStateId)
    → get_order_state_array r ≡ ok l
    → AllShown r l × ((s : RechargeOrderStateId) → get_record_state s ≡ ok r → IsIn s l)
get_order_state_array-get_record_state r l e = (
  Gives-value (AllShown r) _ l (all_shown r) e,
  λ s k. subst (Lists s) e (Gives-value (Found s) _ r (found s) k),
)

-- The deposit's contract and the item's: an item without one takes any, any other only its own.
pub data IsContract (h : Host) : Option String → Option String → Type 0 where
  free :
      (contract contract_address : Option String)
      → truthy contract ≡ false
      → IsContract h contract contract_address
  own :
      (contract contract_address : Option String)
      → truthy contract_address ≡ true
      → h.same_lower_case (text_or_empty contract) (text_or_empty contract_address) ≡ true
      → IsContract h contract contract_address

-- A deposit that the configuration takes: its receiver's asset is configured, with an entry for the
-- sender's chain under `supportChain`, and the deposit went to that entry's address, in the right
-- token. The entry's own switch `enable` is not looked at here.
pub record IsDeposit (h : Host) (d : TransDetail) (config : RechargeObject) : Type 0 where
  pub item : RechargeItem
  pub support : ExternalAssetInfoItem
  pub configured :
      check_chain_asset_item config d.to_detail.chain_name d.to_detail.asset_type ≡ ok item
  pub supported : support_item item.support_chain d.from_detail.chain_name ≡ some support
  pub address : h.same_lower_case support.deposit_address d.from_detail.to ≡ true
  pub token : IsContract h support.contract d.from_detail.contract_address

support-some :
    (o : Option ExternalAssetInfoItem) (item : ExternalAssetInfoItem)
    → support_or_error o ≡ ok item
    → o ≡ some item
unfolding support_or_error
support-some none item e = ground (arith, e)
support-some (some i) item e = ground (arith, e)

not-not : (b : Bool) → not b ≡ false → b ≡ true
not-not b e = ground (arith, e)

not_truthy : (b : Bool) → not b ≡ true → b ≡ false
not_truthy b e = ground (arith, e)

module _ (h : Host) (d : TransDetail) (config : RechargeObject) where
  verify_contract-IsContract :
      (contract address : Option String)
      → Gives (λ _. IsContract h contract address) (verify_contract h contract address)
  unfolding verify_contract
  verify_contract-IsContract contract address =
      search (gives, free, own, not-not, not_truthy) depth 20

  checked-IsDeposit :
      (item : RechargeItem) (support : ExternalAssetInfoItem)
      → check_chain_asset_item config d.to_detail.chain_name d.to_detail.asset_type ≡ ok item
      → support_or_error (support_item item.support_chain d.from_detail.chain_name) ≡ ok support
      → not (h.same_lower_case support.deposit_address d.from_detail.to) ≡ false
      → IsContract h support.contract d.from_detail.contract_address
      → IsDeposit h d config
  checked-IsDeposit item support c s a t = record {
    item = item;
    support = support;
    configured = c;
    supported = support-some _ support s;
    address = not-not _ a;
    token = t;
  }

  contract-IsDeposit :
      (item : RechargeItem) (support : ExternalAssetInfoItem)
      → check_chain_asset_item config d.to_detail.chain_name d.to_detail.asset_type ≡ ok item
      → support_or_error (support_item item.support_chain d.from_detail.chain_name) ≡ ok support
      → not (h.same_lower_case support.deposit_address d.from_detail.to) ≡ false
      → Gives
          (λ _. IsDeposit h d config)
          (verify_contract h support.contract d.from_detail.contract_address)
  contract-IsDeposit item support c s a =
      Gives-map _ (λ _. checked-IsDeposit item support c s a) (verify_contract-IsContract _ _)

  passes-IsDeposit :
      (u : Unit {0}) → verify_recharge_trans_detail h d config ≡ ok u → IsDeposit h d config
  unfolding verify_recharge_trans_detail verify_deposit
  passes-IsDeposit u =
      Gives-value (λ _. IsDeposit h d config) (verify_recharge_trans_detail h d config) u
        (search (gives, contract-IsDeposit) depth 20)

  contract_passes :
      (contract address : Option String)
      → IsContract h contract address
      → verify_contract h contract address ≡ ok tt
  unfolding verify_contract
  contract_passes _ _ (free contract address e) = ground (arith, e)
  contract_passes _ _ (own contract address t e) = ground (arith, t, e)

  deposit_passes : IsDeposit h d config → verify_recharge_trans_detail h d config ≡ ok tt
  unfolding verify_recharge_trans_detail verify_deposit support_or_error
  deposit_passes k = rw (k.configured, k.supported, k.address) (contract_passes _ _ k.token)

  -- The check of a deposit passes if and only if the receiver's asset is configured and has an entry
  -- for the sender's chain under `supportChain`, and the deposit went to the address of that entry,
  -- in its token, if it names one; the entry may be switched off.
  pub verify_recharge_trans_detail-IsDeposit :
      (verify_recharge_trans_detail h d config ≡ ok tt) ↔ IsDeposit h d config
  verify_recharge_trans_detail-IsDeposit = (passes-IsDeposit tt, deposit_passes)
