-- ===== src/Admin/Users.antt =====
-- packages/server/src/module/admin/user/user.service.ts: the users of the administration and the
-- records of what they do. `deleteUser` has no body.
pub mod Accounts
use cot_server.Base.{
  ℕ, String, Bool, true, false, not, Option, none, some, List, str_eq, truthy, text_or_empty,
  if◌then◌else◌,
}
use cot_server.Model.Admin.{
  Authorization, info, AdminAuthInfo, CreateUserReq, UpdateUserReq, GetOperateRecordListReq,
}
use cot_server.Model.User.{UserStatus, UserRole, UserEntity, OperateRecordEntity, OperateWhere}
use cot_server.Host.{
  Host, Result, ok, err, ◌then◌, response_error, only_super_admin_add_user, admin_password_error,
  admin_old_password_error, Service, pure, lift, host, ask, call, throw_if, ◌>>=◌, ◌>>◌, find_user,
  find_user_by_id, find_operate_page, save_entity, user, operate_record,
}

abbrev pub is_super_admin : UserRole → Bool
is_super_admin UserRole.super_admin = true
is_super_admin _ = false

-- The row that createUser saves.
unfoldable pub new_user_of : CreateUserReq → UserEntity
new_user_of new_user = record {
  login_name = new_user.login_name;
  password = new_user.password;
  nick_name = new_user.nick_name;
  login_time = none;
  status = UserStatus.start;
  role = UserRole.admin;
}

-- createUser
unfoldable pub create_user : AdminAuthInfo → CreateUserReq → Service Bool
create_user auth new_user = do
  h ← host
  check_user ← ask (λ h. h.user_row_force) (find_user auth.login_name false)
  throw_if (not (is_super_admin check_user.role)) (response_error only_super_admin_add_user)
  throw_if (not (h.is_valid_sha256 new_user.password)) (response_error admin_password_error)
  call (save_entity (user (new_user_of new_user)))
  pure true

-- A test that throws.
unfoldable pub check : Bool → Result (Unit {0}) → Result (Unit {0})
check passed r = if passed then ok tt else r

-- `user.password = newPassword`, if there is a new password.
unfoldable pub set_password : Host → Option String → UserEntity → Result UserEntity
set_password h new_password u =
    if truthy new_password
    then (check (h.is_valid_sha256 (text_or_empty new_password))
          (err (response_error admin_password_error))
        then λ _. ok (record u { password = text_or_empty new_password }))
    else ok u

-- The checks of updateUser and the change of the row. Without the old password nothing changes.
unfoldable pub change_password : Host → UpdateUserReq → UserEntity → Result UserEntity
change_password h dto u =
    if truthy dto.old_password
    then (check (h.is_valid_sha256 (text_or_empty dto.old_password))
          (err (response_error admin_password_error))
        then λ _.
            (check (str_eq (text_or_empty dto.old_password) u.password)
                (err (response_error admin_old_password_error))
              then λ _. set_password h dto.new_password u))
    else ok u

-- updateUser; `save` returns the row.
unfoldable pub update_user : AdminAuthInfo → UpdateUserReq → Service UserEntity
update_user auth dto = do
  h ← host
  u ← ask (λ h. h.user_row_force) (find_user auth.login_name false)
  changed ← lift (change_password h dto u)
  call (save_entity (user changed))
  pure changed

-- getUserById
unfoldable pub get_user_by_id : ℕ → Service (Option UserEntity)
get_user_by_id user_id = ask (λ h. h.user_row) (find_user_by_id user_id)

-- `if (text) where.x = text`
abbrev pub given : Option String → Option String
given text = if truthy text then text else none

-- The query of getOperateRecordList.
unfoldable pub operate_where : GetOperateRecordListReq → OperateWhere
operate_where dto = record { login_name = given dto.login_name; api = given dto.api }

-- getOperateRecordList
unfoldable pub get_operate_record_list :
    GetOperateRecordListReq → Service (List OperateRecordEntity)
get_operate_record_list dto =
    ask (λ h. h.operate_rows) (find_operate_page (operate_where dto) dto.page dto.page_size)

-- The row that saveOperateRecord makes.
unfoldable pub new_operate_record : Host → (login_name api content : String) → OperateRecordEntity
new_operate_record h login_name api content = record {
  login_name = login_name;
  api = api;
  content = h.text_to_json content;
  version = h.version;
  result = false;
}

-- saveOperateRecord
unfoldable pub save_operate_record : (login_name api content : String) → Service OperateRecordEntity
save_operate_record login_name api content = do
  h ← host
  call (save_entity (operate_record (new_operate_record h login_name api content)))
  pure (new_operate_record h login_name api content)

-- operateRecordSuccess
unfoldable pub operate_record_success : OperateRecordEntity → Service (Unit {0})
operate_record_success r = call (save_entity (operate_record (record r { result = true })))
