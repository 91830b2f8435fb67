-- ===== src/Recharge/Orders.antt =====
-- Which rows and transactions a request for a recharge creates.
use cot_server.Base.{◌≡◌, refl, subst, String, false, none, some, Option-cases, inl, inr}
use cot_server.Base.BigInt.{pos}
use cot_server.Model.Chain.{ExternalChainName, eth, bsc, tron}
use cot_server.Model.Wallet.{
  FromTrJson, ExternalTrJson, signed, tron_trans, ExternalTransDetail, LinkParam,
}
use cot_server.Model.Config.{RechargeItem}
use cot_server.Model.Recharge.{
  ToTrInfo, TransDetail, RechargeOrder, RechargeOrderStateId, issue, airdrop,
}
use cot_server.Host.{
  Host, World, Call, ok, ◌>>◌, save_entity, recharge_order, save_external_transfer,
  create_internal_increase_asset, create_internal_transfer, create_external_transfer,
  save_internal_transaction, change_recharge_state, change_redemption_state, update_recharge_state,
  update_redemption_state,
}
use cot_server.Host.Keeps.{CallsOnly, calls_only, CallsOnly-checked, Since}
use cot_server.Host.Returns.{CallsOnly-after, Gives, Gives-ok, Gives-err, Gives-value}
use cot_server.Recharge.Helper.{is_recharge_dev_test, get_recharge_main_asset_type}
use cot_server.Recharge.Deposit.{
  signed_trans, tron_transaction, dev_detail, get_recharge_trans_detail, verify_recharge_param,
  verify_balance, get_tr_json, read_detail, order_of, airdrop_order, create_external_trans,
  create_recharge_order, create_airdrop_order, create_orders, recharge_v2, symbol_of,
}
use cot_server.OrderHelper.{
  get_external_chain_detail, get_external_chain_detail-CallsOnly, token_info_of,
}
use cot_server.Recharge.Details.{
  IsDetail, IsVerified, get_recharge_trans_detail-Returns, verify_recharge_param-Returns,
}

-- The signed transaction of the request for a chain, as it is handed over. For TRON, `tron` comes
-- before `trc20`.
pub data IsSigned (from_tr_json : FromTrJson) (tx_hash : String)
    : ExternalChainName → ExternalTrJson → Type 0 where
  on_eth :
      (s : String)
      → from_tr_json.eth ≡ some s
      → IsSigned from_tr_json tx_hash eth (signed s tx_hash)
  on_bsc :
      (s : String)
      → from_tr_json.bsc ≡ some s
      → IsSigned from_tr_json tx_hash bsc (signed s tx_hash)
  on_tron :
      (t : String) → from_tr_json.tron ≡ some t → IsSigned from_tr_json tx_hash tron (tron_trans t)
  on_trc20 :
      (t : String)
      → from_tr_json.tron ≡ none
      → from_tr_json.trc20 ≡ some t
      → IsSigned from_tr_json tx_hash tron (tron_trans t)

-- The row of a deposit's order: new, with what the detail says of the deposit and of the receiver.
pub record IsDepositRow (d : TransDetail) (o : RechargeOrder) : Type 0 where
  pub state : o.state ≡ RechargeOrderStateId.init
  pub type_of : o.recharge_type ≡ issue
  pub sender : o.wallet_address ≡ some d.from_detail.from
  pub chain : o.wallet_chain ≡ some d.from_detail.chain_name
  pub paid : o.wallet_amount ≡ some d.from_detail.amount
  pub asset : o.wallet_asset ≡ some d.from_asset_symbol
  pub decimals : o.wallet_decimals ≡ some d.from_decimals
  pub contract : o.contract_address ≡ d.from_detail.contract_address
  pub internal_chain : o.internal_chain ≡ d.to_detail.chain_name
  pub internal_address : o.internal_address ≡ d.to_detail.address
  pub internal_asset : o.recharge_asset_type ≡ d.to_detail.asset_type
  pub amount : o.recharge_amount ≡ d.to_amount
  pub no_transfer : o.recharge_tx_id ≡ o.entity_id
  pub not_on_chain : o.recharge_tx_on_chain ≡ false

-- The row of an airdrop order: new, a fixed amount of the chain's main asset for the receiver.
pub record IsGiftRow (to : ToTrInfo) (main_asset_type : String) (o : RechargeOrder) : Type 0 where
  pub state : o.state ≡ RechargeOrderStateId.init
  pub type_of : o.recharge_type ≡ airdrop
  pub no_deposit : o.wallet_chain ≡ none
  pub internal_chain : o.internal_chain ≡ to.chain_name
  pub internal_address : o.internal_address ≡ to.address
  pub internal_asset : o.recharge_asset_type ≡ main_asset_type
  pub amount : o.recharge_amount ≡ pos 1000000
  pub no_transfer : o.recharge_tx_id ≡ o.entity_id
  pub not_on_chain : o.recharge_tx_on_chain ≡ false

-- What a request for the receiver `to` may ask the outside for: a row is an order for a detail that
-- has been verified, or an airdrop of the chain's main asset to the same address; the transaction
-- that is handed over is the request's, for the chain of a verified detail. Nothing is paid out.
pub data IsAllowed (h : Host) (from_tr_json : FromTrJson) (to : ToTrInfo) : Call → Type 0 where
  deposit :
      (o : RechargeOrder) (d : TransDetail)
      → IsDetail h from_tr_json to d
      → IsVerified h d
      → IsDepositRow d o
      → IsAllowed h from_tr_json to (save_entity (recharge_order o))
  transfer :
      (tr_json : ExternalTrJson) (link : LinkParam) (d : TransDetail)
      → IsDetail h from_tr_json to d
      → IsVerified h d
      → IsSigned from_tr_json d.from_detail.tx_hash d.from_detail.chain_name tr_json
      → IsAllowed h from_tr_json to (
          save_external_transfer d.from_detail.chain_name tr_json d.from_detail d.from_asset_symbol
            link)
  gift :
      (o : RechargeOrder) (main_asset_type : String)
      → get_recharge_main_asset_type h to.chain_name ≡ ok main_asset_type
      → IsGiftRow to main_asset_type o
      → IsAllowed h from_tr_json to (save_entity (recharge_order o))

get_tr_json-IsSigned :
    (chain : ExternalChainName) (from_tr_json : FromTrJson) (tx_hash : String)
    → Gives (IsSigned from_tr_json tx_hash chain) (get_tr_json chain from_tr_json tx_hash)
unfolding get_tr_json signed_trans tron_transaction
get_tr_json-IsSigned eth from_tr_json tx_hash = elim (Option-cases from_tr_json.eth) [
  | inl e ↦ rw e (Gives-err _)
  | inr (s, e) ↦ rw e (Gives-ok _ (on_eth s refl))
]
get_tr_json-IsSigned bsc from_tr_json tx_hash = elim (Option-cases from_tr_json.bsc) [
  | inl e ↦ rw e (Gives-err _)
  | inr (s, e) ↦ rw e (Gives-ok _ (on_bsc s refl))
]
get_tr_json-IsSigned tron from_tr_json tx_hash = elim (Option-cases from_tr_json.tron) [
  | inr (t, e) ↦ rw e (Gives-ok _ (on_tron t refl))
  | inl n ↦ elim (Option-cases from_tr_json.trc20) [
    | inl e ↦ rw (n, e) (Gives-err _)
    | inr (t, e) ↦ rw (n, e) (Gives-ok _ (on_trc20 t refl refl))
  ]
]
get_tr_json-IsSigned (ExternalChainName.other _) from_tr_json tx_hash = Gives-err _

module _ (h : Host) (from_tr_json : FromTrJson) (to : ToTrInfo) (d : TransDetail)
    (k : IsDetail h from_tr_json to d) (v : IsVerified h d) where
  deposit_saved :
      (entity_id wallet_tx_id : String)
      → IsAllowed h from_tr_json to
          (save_entity (recharge_order (order_of entity_id wallet_tx_id d)))
  unfolding order_of
  deposit_saved entity_id wallet_tx_id = deposit (order_of entity_id wallet_tx_id d) d k v (record {
    state = refl;
    type_of = refl;
    sender = refl;
    chain = refl;
    paid = refl;
    asset = refl;
    decimals = refl;
    contract = refl;
    internal_chain = refl;
    internal_address = refl;
    internal_asset = refl;
    amount = refl;
    no_transfer = refl;
    not_on_chain = refl;
  })

  transfer_saved :
      (tr_json : ExternalTrJson) (link : LinkParam)
      → get_tr_json d.from_detail.chain_name from_tr_json d.from_detail.tx_hash ≡ ok tr_json
      → IsAllowed h from_tr_json to (
          save_external_transfer d.from_detail.chain_name tr_json d.from_detail d.from_asset_symbol
            link)
  transfer_saved tr_json link e = transfer tr_json link d k v (
      Gives-value (IsSigned from_tr_json d.from_detail.tx_hash d.from_detail.chain_name)
        (get_tr_json d.from_detail.chain_name from_tr_json d.from_detail.tx_hash) tr_json
        (get_tr_json-IsSigned d.from_detail.chain_name from_tr_json d.from_detail.tx_hash) e)

gift_saved :
    (h : Host) (from_tr_json : FromTrJson) (to : ToTrInfo) (entity_id main_asset_type : String)
    → get_recharge_main_asset_type h to.chain_name ≡ ok main_asset_type
    → IsAllowed h from_tr_json to
        (save_entity (recharge_order (airdrop_order entity_id to main_asset_type)))
unfolding airdrop_order
gift_saved h from_tr_json to entity_id main_asset_type e =
    gift (airdrop_order entity_id to main_asset_type) main_asset_type e (record {
      state = refl;
      type_of = refl;
      no_deposit = refl;
      internal_chain = refl;
      internal_address = refl;
      internal_asset = refl;
      amount = refl;
      no_transfer = refl;
      not_on_chain = refl;
    })

abbrev pub Allowed : Host → FromTrJson → ToTrInfo → Call → Type 0
Allowed h from_tr_json to (save_entity e) = IsAllowed h from_tr_json to (save_entity e)
Allowed h from_tr_json to (save_external_transfer chain tr_json from symbol link) =
    IsAllowed h from_tr_json to (save_external_transfer chain tr_json from symbol link)
Allowed h from_tr_json to (create_internal_increase_asset _ _) = ⊥
Allowed h from_tr_json to (create_internal_transfer _) = ⊥
Allowed h from_tr_json to (create_external_transfer _) = ⊥
Allowed h from_tr_json to (save_internal_transaction _ _ _) = ⊥
Allowed h from_tr_json to (change_recharge_state _ _ _) = ⊥
Allowed h from_tr_json to (change_redemption_state _ _ _) = ⊥
Allowed h from_tr_json to (update_recharge_state _ _ _) = ⊥
Allowed h from_tr_json to (update_redemption_state _ _ _) = ⊥
Allowed h from_tr_json to _ = Unit

main_asset_symbol-Allowed :
    (h : Host) (from_tr_json : FromTrJson) (to : ToTrInfo) (from : ExternalTransDetail)
    → CallsOnly h (Allowed h from_tr_json to) (symbol_of from)
unfolding symbol_of token_info_of
main_asset_symbol-Allowed h from_tr_json to from = search calls_only depth 20

external_chain_detail-Allowed :
    (h : Host) (to : ToTrInfo) (from_tr_json : FromTrJson) (item : RechargeItem)
    → CallsOnly h (Allowed h from_tr_json to) (get_external_chain_detail from_tr_json item)
external_chain_detail-Allowed h to from_tr_json item =
    get_external_chain_detail-CallsOnly h (Allowed h from_tr_json to) (λ _ _. tt) from_tr_json item

module _ (h : Host) (from_tr_json : FromTrJson) (to : ToTrInfo) where
  get_recharge_trans_detail-Allowed :
      CallsOnly h (Allowed h from_tr_json to) (get_recharge_trans_detail from_tr_json to)
  unfolding get_recharge_trans_detail is_recharge_dev_test dev_detail read_detail
  get_recharge_trans_detail-Allowed =
      search (calls_only, main_asset_symbol-Allowed, external_chain_detail-Allowed) depth 30

  verify_recharge_param-Allowed :
      (d : TransDetail) → CallsOnly h (Allowed h from_tr_json to) (verify_recharge_param d)
  unfolding verify_recharge_param verify_balance is_recharge_dev_test
  verify_recharge_param-Allowed d = search calls_only depth 20

  create_external_trans-Allowed :
      (order_id : String) (d : TransDetail)
      → IsDetail h from_tr_json to d
      → IsVerified h d
      → CallsOnly h (Allowed h from_tr_json to) (create_external_trans order_id from_tr_json d)
  unfolding create_external_trans is_recharge_dev_test
  create_external_trans-Allowed order_id d k v =
      search (CallsOnly-checked, calls_only, transfer_saved, k, v) depth 20

  create_recharge_order-Allowed :
      (d : TransDetail)
      → IsDetail h from_tr_json to d
      → IsVerified h d
      → CallsOnly h (Allowed h from_tr_json to) (create_recharge_order d from_tr_json)
  unfolding create_recharge_order
  create_recharge_order-Allowed d k v =
      search (calls_only, create_external_trans-Allowed, deposit_saved, k, v) depth 20

create_airdrop_order-Allowed :
    (h : Host) (from_tr_json : FromTrJson) (d : TransDetail)
    → CallsOnly h (Allowed h from_tr_json d.to_detail) (create_airdrop_order d)
unfolding create_airdrop_order
create_airdrop_order-Allowed h from_tr_json d =
    search (CallsOnly-checked, calls_only, gift_saved) depth 20

module _ (h : Host) (from_tr_json : FromTrJson) (to : ToTrInfo) (d : TransDetail)
    (k : IsDetail h from_tr_json to d) where
  airdrop-Allowed : CallsOnly h (Allowed h from_tr_json to) (create_airdrop_order d)
  airdrop-Allowed =
      subst (λ t. CallsOnly h (Allowed h from_tr_json t) (create_airdrop_order d)) k.receiver
        (create_airdrop_order-Allowed h from_tr_json d)

  orders-Allowed :
      IsVerified h d → CallsOnly h (Allowed h from_tr_json to) (create_orders d from_tr_json)
  unfolding create_orders
  orders-Allowed v =
      search (calls_only, create_recharge_order-Allowed, airdrop-Allowed, k, v) depth 20

  accepted-Allowed :
      CallsOnly h
        (Allowed h from_tr_json to)
        (verify_recharge_param d >> create_orders d from_tr_json)
  accepted-Allowed =
      CallsOnly-after (λ _. IsVerified h d) (verify_recharge_param d) _
        (verify_recharge_param-Allowed h from_tr_json to d) (verify_recharge_param-Returns h d)
        (λ _ v. orders-Allowed v)

-- Whatever the services answer and other methods do, a request for a recharge saves only rows of
-- orders that are justified by it. One is a new deposit, with the sender, the asset and the amount
-- of a detail that the configuration read for the check takes, for the receiver of the signed
-- message. Outside of development, the detail is the wallet's answer for the first of the request's
-- transactions (eth, bsc, trc20, tron), the receiver's asset and the transaction's chain are open in
-- the configuration read before, and the amount to be paid is converted with the decimals of the
-- deposit's asset. The other is a new airdrop of 1000000 of the chain's main asset to the same
-- address. The request hands over only the transaction that it has for the chain of such a detail;
-- for TRON that is `tron`, and `trc20` without it. It pays nothing out and changes the state of no
-- order.
pub recharge_v2-Allowed :
    (h : Host) (from_tr_json : FromTrJson) (to : ToTrInfo) (w : World (Unit {0}))
    → Since (Allowed h from_tr_json to) w.calls (recharge_v2 from_tr_json to h w).1.calls
unfolding recharge_v2
recharge_v2-Allowed h from_tr_json to w =
    (CallsOnly-after (IsDetail h from_tr_json to) (get_recharge_trans_detail from_tr_json to) _
        (get_recharge_trans_detail-Allowed h from_tr_json to)
        (get_recharge_trans_detail-Returns h from_tr_json to)
        (accepted-Allowed h from_tr_json to)).at
      w
