-- ===== src/Host/Calls.antt =====
-- The calls that the source makes to what it does not implement. Log lines are left out.
use cot_server.Base.{ℕ, String, Bool, Option}
use cot_server.Model.Chain.{
  ExternalChainName, InternalChainName, AnyChainName, OrderType, RoutingKey,
}
use cot_server.Model.Wallet.{
  ExternalTrJson, ExternalTransDetail, DestroyAssetTransaction, LinkParam, OrderEvent,
  InternalPayment, ExternalPayment, TransactionBase,
}
use cot_server.Model.Config.{RechargeObject}
use cot_server.Model.Value.{Value}
use cot_server.Model.Recharge.{RechargeOrder, RechargeOrderStateId, RechargeWhere, SignedMessage}
use cot_server.Model.Redemption.{RedemptionOrder, RedemptionOrderStateId, RedemptionWhere}
use cot_server.Model.User.{UserEntity, OperateRecordEntity, OperateWhere}

-- A row as it is written to the database.
pub data Entity : Type 0 where
  recharge_order : RechargeOrder → Entity
  redemption_order : RedemptionOrder → Entity
  user : UserEntity → Entity
  operate_record : OperateRecordEntity → Entity

pub data Call : Type 0 where
  -- the process: clock, random numbers, timers, requests to another process
  now random_one_to_ten get_uuid : Call
  -- `new RechargeOrder()` or `new RedemptionOrder()`, which makes an entityId
  new_order : OrderType → Call
  sleep : ℕ → Call
  create_order_obj : OrderType → String → Call
  forward_to_order_worker : String → Call
  -- the message queue
  publish : RoutingKey → OrderEvent → (temp : Bool) → Call
  is_consume_complete set_consume_complete del_consume_complete : RoutingKey → OrderEvent → Call
  queue_message_count : (success : Bool) → Call
  -- Redis
  redis_exists redis_get : String → Call
  redis_set : String → String → (expire_seconds : ℕ) → Call
  get_recharge_config : Call
  get_business_config : Call
  save_config : RechargeObject → Call
  -- verifyKey, and the parsing of what it has decrypted
  verify_key : String → Call
  validate_config : RechargeObject → Call
  get_account_value : String → Call
  set_account_value : String → String → Call
  -- the database
  save_entity : Entity → Call
  find_recharge_order : RechargeWhere → Call
  find_redemption_order : RedemptionWhere → Call
  find_recharge_page : RechargeWhere → (page page_size : ℕ) → Call
  find_redemption_page : RedemptionWhere → (page page_size : ℕ) → Call
  update_recharge_state : String → (from to : RechargeOrderStateId) → Call
  update_redemption_state : String → (from to : RedemptionOrderStateId) → Call
  find_user : (login_name : String) → (only_started : Bool) → Call
  find_user_by_id : ℕ → Call
  find_operate_page : OperateWhere → (page page_size : ℕ) → Call
  -- the base classes of the order objects
  save_state close_order : OrderType → String → Call
  change_recharge_state : String → (to from : RechargeOrderStateId) → Call
  change_redemption_state : String → (to from : RedemptionOrderStateId) → Call
  wait_internal_queue : String → Call
  -- the base class of the order managers: onExternalChainCallback or onInternalChainCallback, of the
  -- manager for that type of orders
  on_chain_callback : (external status : Bool) → OrderType → TransactionBase → Call
  -- the start of a process: commands of other processes, the base class of the order managers, the
  -- connection to the queue
  init_ipc on_mq_connect connect_mq : Call
  process_mq_task load_order start_tick : OrderType → Call
  register_recharge_state : RechargeOrderStateId → Call
  register_redemption_state : RedemptionOrderStateId → Call
  -- the wallet service
  create_external_trans_obj : Option ExternalChainName → String → Call
  create_internal_trans_obj : InternalChainName → String → Call
  create_internal_increase_asset : InternalPayment → (apply_address : String) → Call
  create_internal_transfer : InternalPayment → Call
  create_external_transfer : ExternalPayment → Call
  save_external_transfer :
      ExternalChainName → ExternalTrJson → ExternalTransDetail → String → LinkParam → Call
  save_internal_transaction : InternalChainName → DestroyAssetTransaction → LinkParam → Call
  reset_external_trans : Option ExternalChainName → String → Call
  reset_internal_trans : InternalChainName → String → Call
  external_contract_balance : ExternalChainName → String → String → Call
  external_balance : ExternalChainName → String → Call
  contract_balance_item : ExternalChainName → (address contract : String) → Call
  internal_balance : InternalChainName → String → String → Call
  external_forge_interval : ExternalChainName → Call
  external_trans_detail : ExternalChainName → String → Call
  external_trans_info : ExternalChainName → String → Call
  internal_trans_info : AnyChainName → String → Call
  external_trans_fee : ExternalChainName → String → Call
  -- `chain_name` is a text here, since one caller passes an internal chain's name
  get_contract_token_info : (chain_name : String) → String → Call
  injected_external_address_obj : Call
  get_asset_details : InternalChainName → String → Call
  -- keys and signatures
  detached_verify : SignedMessage → (signature public_key : String) → Call
  address_from_public_key address_from_secret : String → Call
  is_bcf_address : String → Call
  -- the same test, of a value that has not been checked to be a text
  is_bcf_address_value : Value → Call
  decrypt : String → Call
  encrypt : String → Call
  generate_mnemonic get_server_keypair : Call
  derive_account : ExternalChainName → String → Call
  address_to_hex : String → Call
  create_keypair : String → Call
  sign_jwt : String → ℕ → Call
  write_heap_snapshot : Call
