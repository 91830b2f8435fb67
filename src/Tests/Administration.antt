-- ===== src/Tests/Administration.antt =====
-- Examples for the administration.
use cot_server.Base.{
  ℕ, arith, ◌≡◌, refl, ◌⊎◌, ◌+◌, ◌≤◌, String, true, false, Option, none, some, [], ◌∷◌, length,
  str_eq, str_eq_self, str_eq-other, if◌then◌else◌,
}
use cot_server.Model.Admin.{
  undefined, info, AdminAuthInfo, LoginReq, CreateUserReq, UpdateUserReq, FixOrderReq,
}
use cot_server.Host.{
  Host, History, Call, Result, ok, err, Error, alone, redis_set, redis_get, find_user, save_entity,
  user as user_entity,
}
use cot_server.Model.User.{UserEntity}
use cot_server.Host.Keeps.{Since, unchanged, added}
use cot_server.Admin.Authorization.{login, admin_authorization}
use cot_server.Admin.Authorization.Sessions.{IsLoggedIn, login-IsLoggedIn, header}
use cot_server.Admin.Authorization.Requests.{Spares, Remembers, GoesOn, login-admin_authorization}
use cot_server.Admin.Users.{create_user, update_user}
use cot_server.Admin.Users.Accounts.{
  MayCreate, IsNewUser, create_user-MayCreate, IsChanged, update_user-IsChanged,
}
use cot_server.Admin.Orders.{
  fix_recharge_order, fix_redemption_order, repair_recharge_order, repair_redemption_order,
}
use cot_server.Admin.Orders.Repairs.{IsRecorded, record_call, repair-IsRecorded}
use cot_server.Admin.Orders.Restarts.{IsRepaired, repair_recharge_order-IsRepaired}
use cot_server.Admin.System.{write_heap_snapshop}
use cot_server.Admin.System.Attempts.{write_heap_snapshop_bounds, write_heap_snapshop_stuck}
use cot_server.OrderHelper.{create_order_object}
use cot_server.Tests.Data.{example_host, user}

-- What a Redis that forgets nothing has under a key.
last_set : String → History → Option String
last_set key [] = none
last_set key (redis_set k value seconds ∷ c) = if str_eq k key then some value else last_set key c
last_set key (_ ∷ c) = last_set key c

redis_answer : History → Result (Option String)
unfolding last_set
redis_answer (redis_get key ∷ c) = ok (last_set key c)
redis_answer _ = ok none

-- The user "u" logs in with the password "p" and gets the token "5000".
abbrev redis_host : Host
redis_host = record example_host {
  user_row = λ _. ok (some user);
  number = λ _. ok 1000;
  optional_text = redis_answer;
}

spared :
    (key : String) (d : Call) (c : History) → Spares key d → last_set key (d ∷ c) ≡ last_set key c
unfolding last_set
spared key (redis_set k value seconds) c n = rw (str_eq-other k key n) refl
spared key _ c n = refl

kept :
    (key value : String) (seconds : _) (before : History) {after : History}
    → Since (Spares key) (redis_set key value seconds ∷ before) after
    → last_set key after ≡ some value
unfolding last_set
kept key value seconds before unchanged = rw (str_eq_self key) refl
kept key value seconds before (added {h = c} d p s) =
    rw (spared key d c p) (kept key value seconds before s)

-- One second for each call.
abbrev seconds_of : History → ℕ
seconds_of c = length c

redis_host-Remembers : Remembers redis_host seconds_of
unfolding redis_answer
redis_host-Remembers key value seconds before after d s soon =
    rw (kept key value seconds before s) refl

seconds_of-GoesOn : GoesOn seconds_of
seconds_of-GoesOn c before = omega arith

abbrev login_req : LoginReq
login_req = record { login_name = "u"; password = "p" }

abbrev session : AdminAuthInfo
session = record { login_name = "u"; expired_time = 604801000; token = "5000" }

logged_in : (login undefined login_req redis_host (alone tt [])).0 ≡ ok session
unfolding login
logged_in = refl

login-IsLoggedIn_example : IsLoggedIn redis_host login_req [] session
login-IsLoggedIn_example =
    login-IsLoggedIn redis_host undefined login_req (alone tt []) session logged_in

login-admin_authorization_example :
    (admin_authorization true
      (some (header "5000"))
      redis_host
      (login undefined login_req redis_host (alone tt [])).1).0
    ≡ ok (info session)
unfolding login
login-admin_authorization_example =
    login-admin_authorization redis_host undefined login_req (alone tt []) session seconds_of
      (login undefined login_req redis_host (alone tt [])).1 redis_host-Remembers seconds_of-GoesOn
      (omega arith) refl logged_in (refl, (refl, (refl, (refl, tt)))) unchanged

abbrev new_user : CreateUserReq
new_user = record { login_name = "n"; nick_name = "N"; password = "hash" }

create_user-MayCreate_example :
    (¬ MayCreate example_host session new_user []
      × ((create_user session new_user example_host (alone tt [])).1.calls
          ≡ find_user "u" false ∷ []))
    ⊎ (MayCreate example_host session new_user []
        × ((v : UserEntity) × IsNewUser new_user v
            × ((create_user session new_user example_host (alone tt [])).1.calls
                ≡ save_entity (user_entity v) ∷ find_user "u" false ∷ [])))
create_user-MayCreate_example = create_user-MayCreate example_host session new_user (alone tt [])

abbrev update_req : UpdateUserReq
update_req = record { old_password = some "p"; new_password = some "q" }

update_user-IsChanged_example :
    ((update_user session update_req example_host (alone tt [])).1.calls ≡ find_user "u" false ∷ [])
    ⊎ ((u : _) × (v : _) × (example_host.user_row_force (find_user "u" false ∷ []) ≡ ok u)
        × IsChanged example_host update_req u v
        × ((update_user session update_req example_host (alone tt [])).1.calls
            ≡ save_entity (user_entity v) ∷ find_user "u" false ∷ []))
update_user-IsChanged_example = update_user-IsChanged example_host session update_req (alone tt [])

abbrev fix_req : FixOrderReq
fix_req = record { entity_id = "r1"; fix_type = 1 }

repair-IsRecorded_example :
    IsRecorded example_host
      (fix_recharge_order fix_req)
      (record_call example_host session "recharge/fix" fix_req false)
      (record_call example_host session "recharge/fix" fix_req true)
      (alone tt [])
      (repair_recharge_order session fix_req example_host (alone tt [])).0
      (repair_recharge_order session fix_req example_host (alone tt [])).1.calls
    × IsRecorded example_host
        (fix_redemption_order fix_req)
        (record_call example_host session "redemption/fix" fix_req false)
        (record_call example_host session "redemption/fix" fix_req true)
        (alone tt [])
        (repair_redemption_order session fix_req example_host (alone tt [])).0
        (repair_redemption_order session fix_req example_host (alone tt [])).1.calls
repair-IsRecorded_example = repair-IsRecorded example_host session fix_req (alone tt [])

fixed : (repair_recharge_order session fix_req example_host (alone tt [])).0 ≡ ok true
unfolding repair_recharge_order create_order_object
fixed = refl

repair_recharge_order-IsRepaired_example :
    IsRepaired example_host fix_req
      (record_call example_host session "recharge/fix" fix_req false ∷ [])
repair_recharge_order-IsRepaired_example =
    repair_recharge_order-IsRepaired example_host session fix_req (alone tt []) true fixed

-- A host on which nothing can be written.
abbrev full_host : Host
full_host = record example_host { text = λ _. err (Error.host_error 28) }

write_heap_snapshop_bounds_example :
    (length (write_heap_snapshop full_host (alone false [])).1.calls ≤ 0 + 3)
    × (((p : String) × ((write_heap_snapshop full_host (alone false [])).0 ≡ ok (some p))
          × ((write_heap_snapshop full_host (alone false [])).1.self ≡ false))
        ⊎ (((write_heap_snapshop full_host (alone false [])).0 ≡ ok none)
            × ((write_heap_snapshop full_host (alone false [])).1.self ≡ true)))
write_heap_snapshop_bounds_example = write_heap_snapshop_bounds full_host (alone false [])

given_up : (write_heap_snapshop full_host (alone false [])).0 ≡ ok none
unfolding write_heap_snapshop
given_up = refl

write_heap_snapshop_stuck_example :
    write_heap_snapshop full_host (write_heap_snapshop full_host (alone false [])).1
    ≡ (ok none, (write_heap_snapshop full_host (alone false [])).1)
write_heap_snapshop_stuck_example = write_heap_snapshop_stuck full_host (alone false []) given_up
