-- ===== src/Admin/Authorization/Requests.antt =====
-- A request with the token of a login is taken for that login.
use cot_server.Base.{
  ◌≡◌, sym, ap, ◌∙◌, ◌≢◌, String, true, some, ◌∷◌, str_eq_self, ℕ, ◌+◌, ◌<◌, ◌≤◌, subst, arith,
}
use cot_server.Model.Admin.{Authorization, info, AdminAuthInfo, LoginReq}
use cot_server.Model.User.{UserEntity}
use cot_server.Host.{Host, World, History, Call, ok, redis_set, redis_get, sign_jwt, now, find_user}
use cot_server.Host.Keeps.{CallsOnly, Since, Since-trans, after_call-Since, calls_only}
use cot_server.Admin.Authorization.{
  login, finish_login, store_session, admin_authorization, read_auth_info, get_admin_key,
  expired_time_redis,
}
use cot_server.Admin.Authorization.Sessions.{
  NoSpace, header, bearer_token-header, starts_with-header, IsLoggedIn, login-IsLoggedIn, info_of,
}

-- A call that does not write the key.
abbrev pub Spares : String → Call → Type 0
Spares key (redis_set k value seconds) = k ≢ key
Spares key _ = Unit

-- What Redis does, as far as a login rests on it, where `clock` is its time in seconds at the last of
-- the calls: a value that it has accepted is what it answers for the key, until the key is written
-- again or the seconds that were asked for (`EX`) have passed.
abbrev pub Remembers : Host → (History → ℕ) → Type 0
Remembers h clock =
    (key value : String) (seconds : ℕ) (before after : History)
    → h.done (redis_set key value seconds ∷ before) ≡ ok tt
    → Since (Spares key) (redis_set key value seconds ∷ before) after
    → clock (redis_get key ∷ after) < clock (redis_set key value seconds ∷ before) + seconds
    → h.optional_text (redis_get key ∷ after) ≡ ok (some value)

-- The clock does not run backwards.
abbrev pub GoesOn : (History → ℕ) → Type 0
GoesOn clock = (c : Call) (before : History) → clock before ≤ clock (c ∷ before)

module _ (h : Host) (u : UserEntity) (r : AdminAuthInfo) where
  finish-Spares : (key : String) → CallsOnly h (Spares key) (finish_login u r)
  unfolding finish_login
  finish-Spares key = search (calls_only) depth 20

  store-Since :
      (v : World (Unit {0}))
      → Since
          (Spares (get_admin_key r.token))
          (redis_set (get_admin_key r.token) (h.auth_to_json r) expired_time_redis ∷ v.calls)
          (store_session u r h v).1.calls
  unfolding store_session
  store-Since v =
      after_call-Since (λ k. k.done)
        (redis_set (get_admin_key r.token) (h.auth_to_json r) expired_time_redis)
        (λ _. finish_login u r) v (λ _. finish-Spares (get_admin_key r.token))

module _ (h : Host) (auth : Authorization) (dto : LoginReq) (w : World (Unit {0}))
    (res : AdminAuthInfo) where
  -- The calls of a login up to the one that stores the session.
  abbrev up_to_stored : ℕ → History
  up_to_stored time =
      redis_set (get_admin_key res.token) (h.auth_to_json (info_of dto time res.token))
        expired_time_redis
      ∷ sign_jwt dto.login_name (time + 604800000)
      ∷ now
      ∷ find_user dto.login_name true
      ∷ w.calls

  rest-Since :
      (l : IsLoggedIn h dto w.calls res)
      → Since (Spares (get_admin_key res.token)) (up_to_stored l.time) (login auth dto h w).1.calls
  unfolding login
  rest-Since l =
      rw (l.found, l.right, str_eq_self l.u.password, l.clock, l.signed)
        (store-Since h l.u (info_of dto l.time res.token) _)

  stored : (l : IsLoggedIn h dto w.calls res) → h.done (up_to_stored l.time) ≡ ok tt
  stored l =
      subst
        (λ r.
          h.done (
            redis_set (get_admin_key res.token) (h.auth_to_json r) expired_time_redis
            ∷ sign_jwt dto.login_name (l.time + 604800000)
            ∷ now
            ∷ find_user dto.login_name true
            ∷ w.calls)
          ≡ ok tt)
        l.exact l.stored

  still_kept :
      (clock : History → ℕ) (l : IsLoggedIn h dto w.calls res) (late : ℕ)
      → GoesOn clock
      → late < clock w.calls + 604800
      → late < clock (up_to_stored l.time) + expired_time_redis
  still_kept clock l late on p =
      let a = on (find_user dto.login_name true) w.calls in
      let b = on now (find_user dto.login_name true ∷ w.calls) in
      let c =
        on (sign_jwt dto.login_name (l.time + 604800000))
          (now ∷ find_user dto.login_name true ∷ w.calls) in
      let d =
        on
          (redis_set (get_admin_key res.token) (h.auth_to_json (info_of dto l.time res.token))
            expired_time_redis)
          (sign_jwt dto.login_name (l.time + 604800000)
            ∷ now
            ∷ find_user dto.login_name true
            ∷ w.calls) in
      omega arith

  -- A request that sends the token of a login is taken for that login, while the session's seven
  -- days last: login has returned `res`, the token has no space, since then no call has written its
  -- key, Redis's clock does not run backwards and shows less than seven days more than at the start
  -- of the login, Redis remembers what it has accepted until it expires, and JSON reads back what it
  -- has written of the login.
  pub login-admin_authorization :
      (clock : History → ℕ) (v : World (Unit {0}))
      → Remembers h clock
      → GoesOn clock
      → clock (redis_get (get_admin_key res.token) ∷ v.calls) < clock w.calls + 604800
      → h.auth_of_json (h.auth_to_json res) ≡ ok (info res)
      → (login auth dto h w).0 ≡ ok res
      → NoSpace res.token
      → Since (Spares (get_admin_key res.token)) (login auth dto h w).1.calls v.calls
      → (admin_authorization true (some (header res.token)) h v).0 ≡ ok (info res)
  unfolding admin_authorization read_auth_info
  login-admin_authorization clock v m on soon p e n s =
      let l = login-IsLoggedIn h auth dto w res e in
      let there =
        m (get_admin_key res.token) (h.auth_to_json (info_of dto l.time res.token))
          expired_time_redis _ v.calls (stored l) (Since-trans (rest-Since l) s)
          (still_kept clock l _ on soon) in
      rw (starts_with-header res.token, bearer_token-header res.token n, there)
        (ap (λ r. h.auth_of_json (h.auth_to_json r)) (sym l.exact) ∙ p)
