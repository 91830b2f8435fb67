-- ===== src/Tests/Processes.antt =====
-- Examples for the order process.
use cot_server.Base.{◌≡◌, true, false, leb, length, [], ◌∷◌, arith, ℕ, ◌*◌, if◌then◌else◌}
use cot_server.Model.Chain.{bsc, pmchain}
use cot_server.Host.{Host, Call, History, Result, ok, alone, queue_message_count}
use cot_server.Host.Keeps.{CallsOnly}
use cot_server.OrderApp.{
  consume_external, consume_internal, external_success, external_fail, internal_success,
  internal_fail, check_queue_inited,
}
use cot_server.OrderApp.Dispatch.{Forwards, consume-Forwards}
use cot_server.OrderApp.Queues.{EmptyFrom, check_queue_inited_lem}
use cot_server.OrderApp.Start.{on_module_init}
use cot_server.OrderApp.Ready.{Orderly, on_module_init-Orderly}
use cot_server.Tests.Data.{example_host}

on_module_init-Orderly_example :
    Orderly example_host [] (on_module_init example_host (alone [] [])).1.calls
on_module_init-Orderly_example = on_module_init-Orderly example_host (alone [] [])

consume-Forwards_example :
    CallsOnly example_host (Forwards true true) (consume_external external_success bsc "t1")
    × CallsOnly example_host (Forwards true false) (consume_external external_fail bsc "t1")
    × CallsOnly example_host (Forwards false true) (consume_internal internal_success pmchain "t1")
    × CallsOnly example_host (Forwards false false) (consume_internal internal_fail pmchain "t1")
consume-Forwards_example = consume-Forwards example_host bsc pmchain "t1"

-- Five messages are left until four calls have been made; the clock goes on.
count_at : ℕ → Call → Result ℕ
count_at n (queue_message_count success) = if leb 4 n then ok 0 else ok 5
count_at n _ = ok (1000 * n)

busy_number : History → Result ℕ
busy_number [] = ok 0
busy_number (k ∷ c) = count_at (length c) k

abbrev busy_host : Host
busy_host = record example_host { number = busy_number }

busy_host-EmptyFrom : EmptyFrom busy_host 4
unfolding busy_number count_at
busy_host-EmptyFrom success c l = ground (arith, l)

check_queue_inited_lem_example : (check_queue_inited 3 busy_host (alone tt [])).0 ≡ ok true
check_queue_inited_lem_example =
    check_queue_inited_lem busy_host 4 busy_host-EmptyFrom 2 (alone tt []) (omega arith)
