-- ===== src/OrderApp/Connections.antt =====
-- The parts of the start of the order process that do not connect to the queue.
use cot_server.Base.{Option, none, some}
use cot_server.Model.Config.{RechargeObject}
use cot_server.Host.{Host, Call, call, catch_with, connect_mq, init_ipc, save_config, start_tick}
use cot_server.Host.Keeps.{CallsOnly, CallsOnly-bind, calls_only}
use cot_server.GlobalValue.{ExternalAccounts}
use cot_server.GlobalValue.Accounts.{KeyCall}
use cot_server.Settings.{start_accounts, start_config, start_found, start_item, each_item}
use cot_server.Settings.Traversals.{each_item-CallsOnly}
use cot_server.Settings.Starts.{start_item-Only}
use cot_server.Model.Chain.{OrderType}
use cot_server.OrderApp.Start.{
  now_done, load_and_tick, init_recharge_mgr, init_redemption_mgr, process_mq_tasks,
}

-- Any other call than the connection to the queue.
abbrev pub NotConnection : Call → Type 0
NotConnection connect_mq = ⊥
NotConnection _ = Unit

keys-NotConnection : (c : Call) → KeyCall c → NotConnection c
keys-NotConnection connect_mq k = absurd k
keys-NotConnection _ k = tt

module _ (h : Host) where
  start_config-Calls : (config : RechargeObject) → CallsOnly h NotConnection (start_config config)
  unfolding start_config
  start_config-Calls config =
      let items =
        each_item-CallsOnly h NotConnection start_item
          (start_item-Only h NotConnection keys-NotConnection (λ _. tt)) config in
      CallsOnly-bind (each_item start_item config)
        (λ completed. catch_with (now_done (save_config completed)) tt) items
        (λ completed. search calls_only depth 20)

  start_found-Calls :
      (found : Option RechargeObject) → CallsOnly h NotConnection (start_found found)
  unfolding start_found
  start_found-Calls none = search calls_only
  start_found-Calls (some config) = start_config-Calls config

  pub start_accounts-Calls : CallsOnly h NotConnection start_accounts
  unfolding start_accounts
  start_accounts-Calls = search (calls_only, start_found-Calls) depth 10

  pub opened-Calls : CallsOnly {S = ExternalAccounts} h NotConnection (call init_ipc)
  opened-Calls = search calls_only

  pub process_mq_tasks-Calls : CallsOnly h NotConnection process_mq_tasks
  unfolding process_mq_tasks
  process_mq_tasks-Calls = search calls_only depth 20

  pub tick-Calls :
      (type : OrderType) → CallsOnly h NotConnection (catch_with (now_done (start_tick type)) tt)
  tick-Calls type = search calls_only depth 10

  load_and_tick-Calls : (type : OrderType) → CallsOnly h NotConnection (load_and_tick type)
  unfolding load_and_tick
  load_and_tick-Calls type = search (calls_only, tick-Calls) depth 10

  pub init_recharge_mgr-Calls : CallsOnly h NotConnection init_recharge_mgr
  unfolding init_recharge_mgr
  init_recharge_mgr-Calls = search (calls_only, load_and_tick-Calls) depth 20

  pub init_redemption_mgr-Calls : CallsOnly h NotConnection init_redemption_mgr
  unfolding init_redemption_mgr
  init_redemption_mgr-Calls = search (calls_only, load_and_tick-Calls) depth 20
