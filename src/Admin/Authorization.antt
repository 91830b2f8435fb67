-- ===== src/Admin/Authorization.antt =====
-- packages/server/src/common/decorator/auth-info.decorator.ts, the key of a login in
-- packages/server/src/helper/verify.helper.ts, and `login` of
-- packages/server/src/module/admin/user/user.service.ts.
pub mod Sessions
pub mod Requests
use Prim.Native.Char.{code}
use cot_server.Base.{
  ℕ, ◌+◌, String, Bool, true, false, ◌&&◌, not, Option, none, some, List, [], ◌∷◌, str_eq, ◌==◌,
  if◌then◌else◌,
}
use cot_server.Model.Admin.{Authorization, undefined, AdminAuthInfo, LoginReq}
use cot_server.Model.User.{UserEntity}
use cot_server.Host.{
  Host, Result, response_error, admin_invalid_auth, admin_login_name_error, admin_password_error,
  Service, pure, throw, lift, or_throw, host, ask, ask_now, call, throw_if, ◌>>=◌, ◌>>◌, redis_get,
  redis_set, find_user, sign_jwt, save_entity, now, user,
}

-- getAdminKey
unfoldable pub get_admin_key : String → String
get_admin_key token = Prim.Native.String.◌++◌ "admin-login:" token

-- EXPIRED_TIME_REDIS of packages/server/src/common/constants/verify.constants.ts: seven days.
abbrev pub expired_time_redis : ℕ
expired_time_redis = 604800

-- `text.startsWith(prefix)`
unfoldable pub starts_with : (prefix text : String) → Bool
starts_with String.[] text = true
starts_with (String.◌∷◌ c prefix) String.[] = false
starts_with (String.◌∷◌ c prefix) (String.◌∷◌ d text) = code c == code d && starts_with prefix text

add_first : Prim.Native.Char.Char → List String → List String
add_first c [] = String.◌∷◌ c "" ∷ []
add_first c (part ∷ parts) = String.◌∷◌ c part ∷ parts

-- `text.split(" ")`
unfoldable pub split_spaces : String → List String
unfolding add_first
split_spaces String.[] = "" ∷ []
split_spaces (String.◌∷◌ c text) =
    let parts = split_spaces text in if code c == 32 then "" ∷ parts else add_first c parts

second_or_undefined : List String → String
second_or_undefined (first ∷ second ∷ rest) = second
second_or_undefined _ = "undefined"

-- `authorization.split(" ")[1]`, as a part of a text, where `undefined` is the text "undefined".
unfoldable pub bearer_token : String → String
unfolding second_or_undefined
bearer_token authorization = second_or_undefined (split_spaces authorization)

-- `authInfo ?? "{}"`
json_or_empty : Option String → String
json_or_empty none = "{}"
json_or_empty (some json) = json

is_missing : Option String → Bool
is_missing none = true
is_missing (some _) = false

-- What stands under the token, for a token that was sent.
unfoldable pub read_auth_info : Bool → String → Service Authorization
unfolding json_or_empty is_missing
read_auth_info required token = do
  h ← host
  auth_info ← ask (λ h. h.optional_text) (redis_get (get_admin_key token))
  throw_if (required && is_missing auth_info) (response_error admin_invalid_auth)
  lift (h.auth_of_json (json_or_empty auth_info))

-- AdminAuthorization, on the header `authorization` of the request; AUTHORIZATION_START_WITH is
-- "Bearer ".
unfoldable pub admin_authorization : (required : Bool) → Option String → Service Authorization
admin_authorization required none =
    if required then throw (response_error admin_invalid_auth) else pure undefined
admin_authorization required (some authorization) =
    if starts_with "Bearer " authorization
    then read_auth_info required (bearer_token authorization)
    else if required
    then throw (response_error admin_invalid_auth)
    else pure undefined

-- The end of login: the time of the login goes into the user's row.
unfoldable pub finish_login : UserEntity → AdminAuthInfo → Service AdminAuthInfo
finish_login u res = do
  stamp ← ask_now (λ h. h.number) now
  call (save_entity (user (record u { login_time = some stamp })))
  pure res

-- The session goes into Redis under the key of its token.
unfoldable pub store_session : UserEntity → AdminAuthInfo → Service AdminAuthInfo
unfolding finish_login
store_session u res = do
  h ← host
  call (redis_set (get_admin_key res.token) (h.auth_to_json res) expired_time_redis)
  finish_login u res

-- login. The information of an earlier login gives a token that is replaced before it is read.
unfoldable pub login : Authorization → LoginReq → Service AdminAuthInfo
unfolding store_session
login auth dto = do
  found ← ask (λ h. h.user_row) (find_user dto.login_name true)
  u ← or_throw found (response_error admin_login_name_error)
  throw_if (not (str_eq dto.password u.password)) (response_error admin_password_error)
  time ← ask_now (λ h. h.number) now
  let expired_time = time + 604800000
  token ← ask_now (λ h. h.text) (sign_jwt dto.login_name expired_time)
  let res : AdminAuthInfo = record {
    login_name = dto.login_name;
    expired_time = expired_time;
    token = token;
  }
  store_session u res
