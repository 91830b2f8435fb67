-- ===== src/OrderApp/Start.antt =====
-- packages/server/src/cluster/order/order.app.ts: the start of the order process, outside of
-- development, with `init` of both order managers. The loop that it starts last, without waiting for
-- it, is check_queue_inited.
use cot_server.Model.Chain.{OrderType}
use cot_server.Model.Recharge.{
  external_wait_on_chain, external_on_chain_fail, internal_wait_on_chain, internal_on_chain_fail,
  success,
}
use cot_server.Model.Redemption.{
  external_wait_on_chain as payout_waits, external_on_chain_fail as payout_failed,
  internal_wait_on_chain as destruction_waits, internal_on_chain_fail as destruction_failed,
  success as paid_out,
}
use cot_server.Host.{
  Action, Call, ask_now, call, catch_with, ◌>>◌, init_ipc, on_mq_connect, connect_mq,
  process_mq_task, load_order, start_tick, register_recharge_state, register_redemption_state,
}
use cot_server.GlobalValue.{ExternalAccounts}
use cot_server.Settings.{start_accounts}

-- A call that is not waited for.
abbrev pub now_done : Call → Action ExternalAccounts (Unit {0})
now_done c = ask_now (λ h. h.done) c

-- `loadOrder` is waited for. `tick` of the SDK is not; it is taken to be asynchronous, so its errors
-- are lost.
unfoldable pub load_and_tick : OrderType → Action ExternalAccounts (Unit {0})
load_and_tick type = do call (load_order type); catch_with (now_done (start_tick type)) tt

-- init of RechargeOrderMgr
unfoldable pub init_recharge_mgr : Action ExternalAccounts (Unit {0})
unfolding load_and_tick
init_recharge_mgr = do
  now_done (register_recharge_state external_wait_on_chain)
  now_done (register_recharge_state external_on_chain_fail)
  now_done (register_recharge_state internal_wait_on_chain)
  now_done (register_recharge_state internal_on_chain_fail)
  now_done (register_recharge_state success)
  load_and_tick OrderType.recharge

-- init of RedemptionOrderMgr
unfoldable pub init_redemption_mgr : Action ExternalAccounts (Unit {0})
unfolding load_and_tick
init_redemption_mgr = do
  now_done (register_redemption_state payout_waits)
  now_done (register_redemption_state payout_failed)
  now_done (register_redemption_state destruction_waits)
  now_done (register_redemption_state destruction_failed)
  now_done (register_redemption_state paid_out)
  load_and_tick OrderType.redemption

-- __processMqTask; its consumers are consume_external and consume_internal.
unfoldable pub process_mq_tasks : Action ExternalAccounts (Unit {0})
process_mq_tasks = do
  now_done (process_mq_task OrderType.recharge)
  now_done (process_mq_task OrderType.redemption)
  now_done on_mq_connect

-- __orderMgrInit
unfoldable pub order_mgr_init : Action ExternalAccounts (Unit {0})
unfolding init_recharge_mgr init_redemption_mgr
order_mgr_init = do init_recharge_mgr; init_redemption_mgr; call connect_mq

-- onModuleInit
unfoldable pub on_module_init : Action ExternalAccounts (Unit {0})
unfolding process_mq_tasks order_mgr_init start_accounts
on_module_init = do call init_ipc; start_accounts; process_mq_tasks; order_mgr_init
