-- ===== src/Recharge/Reload.antt =====
-- Which rows the order process loads when it starts.
use cot_server.Base.{◌≡◌, refl, String, Option, none, some, List, [], ◌∷◌}
use cot_server.Model.Wallet.{FromTrJson}
use cot_server.Model.Recharge.{
  RechargeOrder, RechargeOrderStateId, ToTrInfo, issue, airdrop, external_wait_on_chain,
  internal_wait_on_chain, RechargeWhere,
}
use cot_server.Host.{Host, World, Call, save_entity, recharge_order}
use cot_server.Host.Keeps.{Since, Since-map}
use cot_server.Recharge.Checks.{IsIn, here, there}
use cot_server.Recharge.Deposit.{recharge_v2}
use cot_server.Recharge.Orders.{Allowed, deposit, gift, recharge_v2-Allowed}
use cot_server.Recharge.Manager.{
  get_init_order_options, get_pending_order_options, set_order_pending, pending_state,
  new_order_obj,
}

-- What a field of a query asks of the row's field.
abbrev Meets : {A : Type 0} → Option A → A → Type 0
Meets none a = Unit
Meets (some b) a = a ≡ b

abbrev MeetsAny : Option (List RechargeOrderStateId) → RechargeOrderStateId → Type 0
MeetsAny none s = Unit
MeetsAny (some l) s = IsIn s l

abbrev MeetsIf : Option String → Option String → Type 0
MeetsIf none a = Unit
MeetsIf (some b) a = a ≡ some b

-- A query selects the rows that meet all of its fields.
pub record Selects (options : RechargeWhere) (o : RechargeOrder) : Type 0 where
  pub entity_id : Meets options.entity_id o.entity_id
  pub wallet_address : MeetsIf options.wallet_address o.wallet_address
  pub wallet_tx_id : Meets options.wallet_tx_id o.wallet_tx_id
  pub internal_chain : Meets options.internal_chain o.internal_chain
  pub internal_address : Meets options.internal_address o.internal_address
  pub recharge_type : Meets options.recharge_type o.recharge_type
  pub state : MeetsAny options.state o.state

-- A deposit starts by waiting for the external chain, an airdrop for the internal one.
pub data Starts : RechargeOrder → RechargeOrderStateId → Type 0 where
  deposited : {o : RechargeOrder} → o.recharge_type ≡ issue → Starts o external_wait_on_chain
  airdropped : {o : RechargeOrder} → o.recharge_type ≡ airdrop → Starts o internal_wait_on_chain

-- The row is loaded as a new one; the order object of the pending row starts where it has to, and
-- the pending row is loaded as such.
pub record IsReloaded (o : RechargeOrder) : Type 0 where
  pub is_new : Selects get_init_order_options o
  pub starts : Starts o (new_order_obj (set_order_pending o)).cur_state_id
  pub is_pending : Selects get_pending_order_options (set_order_pending o)

abbrev pub Reloads : Call → Type 0
Reloads (save_entity (recharge_order o)) = IsReloaded o
Reloads _ = Unit

is_new-Selects :
    (o : RechargeOrder) → o.state ≡ RechargeOrderStateId.init → Selects get_init_order_options o
unfolding get_init_order_options
is_new-Selects o e = record {
  entity_id = tt;
  wallet_address = tt;
  wallet_tx_id = tt;
  internal_chain = tt;
  internal_address = tt;
  recharge_type = tt;
  state = rw e here;
}

is_pending-Selects :
    (o : RechargeOrder)
    → IsIn (set_order_pending o).state (external_wait_on_chain ∷ internal_wait_on_chain ∷ [])
    → Selects get_pending_order_options (set_order_pending o)
unfolding get_pending_order_options
is_pending-Selects o k = record {
  entity_id = tt;
  wallet_address = tt;
  wallet_tx_id = tt;
  internal_chain = tt;
  internal_address = tt;
  recharge_type = tt;
  state = k;
}

deposit-IsReloaded :
    (o : RechargeOrder)
    → o.state ≡ RechargeOrderStateId.init
    → o.recharge_type ≡ issue
    → IsReloaded o
unfolding set_order_pending pending_state new_order_obj
deposit-IsReloaded o e t = record {
  is_new = is_new-Selects o e;
  starts = rw t (deposited refl);
  is_pending = is_pending-Selects o (rw t here);
}

gift-IsReloaded :
    (o : RechargeOrder)
    → o.state ≡ RechargeOrderStateId.init
    → o.recharge_type ≡ airdrop
    → IsReloaded o
unfolding set_order_pending pending_state new_order_obj
gift-IsReloaded o e t = record {
  is_new = is_new-Selects o e;
  starts = rw t (airdropped refl);
  is_pending = is_pending-Selects o (rw t (there here));
}

module _ (h : Host) (from_tr_json : FromTrJson) (to : ToTrInfo) where
  Allowed-Reloads : (c : Call) → Allowed h from_tr_json to c → Reloads c
  Allowed-Reloads (save_entity (recharge_order o)) (deposit _ d k v r) =
      deposit-IsReloaded o r.state r.type_of
  Allowed-Reloads (save_entity (recharge_order o)) (gift _ m e r) =
      gift-IsReloaded o r.state r.type_of
  Allowed-Reloads _ k = tt

  -- Each row of an order that rechargeV2 saves is found by the query for new orders, and, once it has
  -- been set pending, by the query for pending ones; an order
  -- object made of the pending row waits for the external chain, if it is a deposit, and for the
  -- internal one, if it is an airdrop.
  pub recharge_v2-Reloads :
      (w : World (Unit {0})) → Since Reloads w.calls (recharge_v2 from_tr_json to h w).1.calls
  recharge_v2-Reloads w = Since-map Allowed-Reloads (recharge_v2-Allowed h from_tr_json to w)
