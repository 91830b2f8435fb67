-- ===== src/Admin/Users/Accounts.antt =====
-- Who may make a user, and what may change a password.
use cot_server.Base.{
  ◌≡◌, refl, ◌⊎◌, inl, inr, String, Bool, true, false, not, Option, none, some, ◌∷◌, Bool-cases,
  str_eq, eq_iff, truthy, text_or_empty, arith,
}
use cot_server.Model.Admin.{AdminAuthInfo, CreateUserReq, UpdateUserReq}
use cot_server.Model.User.{UserStatus, UserRole, UserEntity}
use cot_server.Host.{
  Host, World, History, ok, err, Error, Result-cases, find_user, save_entity, user, response_error,
  admin_password_error, admin_old_password_error,
}
use cot_server.Host.Returns.{Gives, gives, Gives-value}
use cot_server.Admin.Users.{
  create_user, update_user, new_user_of, is_super_admin, change_password, set_password, check,
}

-- After the calls `c`, the administrator was found, is a super administrator, and the new user's
-- password is a hash.
pub record MayCreate (h : Host) (auth : AdminAuthInfo) (new_user : CreateUserReq) (c : History)
    : Type 0 where
  pub u : UserEntity
  pub found : h.user_row_force (find_user auth.login_name false ∷ c) ≡ ok u
  pub super : u.role ≡ UserRole.super_admin
  pub hashed : h.is_valid_sha256 new_user.password ≡ true

super_admin-role : (r : UserRole) → not (is_super_admin r) ≡ false → r ≡ UserRole.super_admin
super_admin-role UserRole.super_admin e = refl
super_admin-role UserRole.anyone e = ground (arith, e)
super_admin-role UserRole.admin e = ground (arith, e)

-- The row of a new user: the name, the password and the nickname that were sent, active, with the
-- role of an administrator, and never logged in.
pub record IsNewUser (new_user : CreateUserReq) (v : UserEntity) : Type 0 where
  pub same_name : v.login_name ≡ new_user.login_name
  pub same_password : v.password ≡ new_user.password
  pub same_nick_name : v.nick_name ≡ new_user.nick_name
  pub no_login : v.login_time ≡ none
  pub active : v.status ≡ UserStatus.start
  pub administrator : v.role ≡ UserRole.admin

new_user_of-IsNewUser : (new_user : CreateUserReq) → IsNewUser new_user (new_user_of new_user)
unfolding new_user_of
new_user_of-IsNewUser new_user = record {
  same_name = refl;
  same_password = refl;
  same_nick_name = refl;
  no_login = refl;
  active = refl;
  administrator = refl;
}

module _ (h : Host) (auth : AdminAuthInfo) (new_user : CreateUserReq) (c : History) where
  not_found :
      (e : Error)
      → h.user_row_force (find_user auth.login_name false ∷ c) ≡ err e
      → ¬ MayCreate h auth new_user c
  not_found e p m = grind (arith, p, m.found)

  not_super :
      (u : UserEntity)
      → h.user_row_force (find_user auth.login_name false ∷ c) ≡ ok u
      → not (is_super_admin u.role) ≡ true
      → ¬ MayCreate h auth new_user c
  not_super u p q m = grind (arith, p, q, m.found, m.super)

  not_hashed : h.is_valid_sha256 new_user.password ≡ false → ¬ MayCreate h auth new_user c
  not_hashed p m = grind (arith, p, m.hashed)

module _ (h : Host) (auth : AdminAuthInfo) (new_user : CreateUserReq) (w : World (Unit {0})) where
  -- createUser looks up the administrator. Where that is a super administrator and the new password
  -- is a hash, it saves one row, that of the new user, active, with the role of an administrator and
  -- never logged in; where it is not so, it writes nothing.
  pub create_user-MayCreate :
      (¬ MayCreate h auth new_user w.calls
        × ((create_user auth new_user h w).1.calls ≡ find_user auth.login_name false ∷ w.calls))
      ⊎ (MayCreate h auth new_user w.calls
          × ((v : UserEntity) × IsNewUser new_user v
              × ((create_user auth new_user h w).1.calls
                  ≡ save_entity (user v) ∷ find_user auth.login_name false ∷ w.calls)))
  unfolding create_user
  create_user-MayCreate =
      elim (Result-cases (h.user_row_force (find_user auth.login_name false ∷ w.calls))) [
        | inr (x, e) ↦ rw e (inl (not_found h auth new_user w.calls x e, refl))
        | inl (u, e) ↦ elim (Bool-cases (not (is_super_admin u.role))) [
          | inl t ↦ rw (e, t) (inl (not_super h auth new_user w.calls u e t, refl))
          | inr f ↦ elim (Bool-cases (h.is_valid_sha256 new_user.password)) [
            | inl g ↦
                let may : MayCreate h auth new_user w.calls = record {
                  u = u;
                  found = e;
                  super = super_admin-role u.role f;
                  hashed = g;
                } in
                let is_new = new_user_of-IsNewUser new_user in
                elim (Result-cases (
                  h.done (
                    save_entity (user (new_user_of new_user))
                    ∷ find_user auth.login_name false
                    ∷ w.calls))) [
                      | inl (a, d) ↦ rw (e, f, g, d) (inr (may, (_, is_new, refl)))
                      | inr (x, d) ↦ rw (e, f, g, d) (inr (may, (_, is_new, refl)))
                    ]
            | inr g ↦ rw (e, f, g) (inl (not_hashed h auth new_user w.calls g, refl))
          ]
        ]
      ]

-- What updateUser may make of a row: the same row, or one with the new password, where the old
-- password that was sent is the row's, and both are hashes.
pub data IsChanged (h : Host) (dto : UpdateUserReq) (u : UserEntity) : UserEntity → Type 0 where
  same : IsChanged h dto u u
  changed :
      (old new : String)
      → dto.old_password ≡ some old
      → dto.new_password ≡ some new
      → old ≡ u.password
      → h.is_valid_sha256 old ≡ true
      → h.is_valid_sha256 new ≡ true
      → IsChanged h dto u (record u { password = new })

passed : (b : Bool) (e : Error) (a : Unit {0}) → check b (err e) ≡ ok a → b ≡ true
unfolding check
passed true e a p = refl
passed false e a p = cc

given_text : (o : Option String) → truthy o ≡ true → o ≡ some (text_or_empty o)
given_text none p = ground (arith, p)
given_text (some s) p = refl

module _ (h : Host) (dto : UpdateUserReq) (u : UserEntity) where
  all-IsChanged :
      (a b c : Unit {0})
      → truthy dto.old_password ≡ true
      → check
          (h.is_valid_sha256 (text_or_empty dto.old_password))
          (err (response_error admin_password_error))
        ≡ ok a
      → check
          (str_eq (text_or_empty dto.old_password) u.password)
          (err (response_error admin_old_password_error))
        ≡ ok b
      → truthy dto.new_password ≡ true
      → check
          (h.is_valid_sha256 (text_or_empty dto.new_password))
          (err (response_error admin_password_error))
        ≡ ok c
      → IsChanged h dto u (record u { password = text_or_empty dto.new_password })
  all-IsChanged a b c o p q n r =
      changed (text_or_empty dto.old_password) (text_or_empty dto.new_password)
        (given_text dto.old_password o) (given_text dto.new_password n)
        ((eq_iff _ _).0 (passed _ _ b q)) (passed _ _ a p) (passed _ _ c r)

  change_password-IsChanged : Gives (IsChanged h dto u) (change_password h dto u)
  unfolding change_password set_password
  change_password-IsChanged = search (gives, same, all-IsChanged) depth 20 fits 20000

module _ (h : Host) (auth : AdminAuthInfo) (dto : UpdateUserReq) (w : World (Unit {0})) where
  -- updateUser looks up the administrator, and then writes nothing more, or one row: the one that
  -- was found, or that row with the new password, where the old password that was sent is the
  -- row's, and both are hashes.
  pub update_user-IsChanged :
      ((update_user auth dto h w).1.calls ≡ find_user auth.login_name false ∷ w.calls)
      ⊎ ((u : UserEntity) × (v : UserEntity) × (h.user_row_force
              (find_user auth.login_name false ∷ w.calls)
            ≡ ok u)
          × IsChanged h dto u v
          × ((update_user auth dto h w).1.calls
              ≡ save_entity (user v) ∷ find_user auth.login_name false ∷ w.calls))
  unfolding update_user
  update_user-IsChanged =
      elim (Result-cases (h.user_row_force (find_user auth.login_name false ∷ w.calls))) [
        | inr (x, e) ↦ rw e (inl refl)
        | inl (u, e) ↦ elim (Result-cases (change_password h dto u)) [
          | inr (x, f) ↦ rw (e, f) (inl refl)
          | inl (v, f) ↦
              let may = Gives-value (IsChanged h dto u) _ v (change_password-IsChanged h dto u) f in
              elim (Result-cases
                (h.done (save_entity (user v) ∷ find_user auth.login_name false ∷ w.calls))) [
                  | inl (a, d) ↦ rw (e, f, d) (inr (u, v, refl, may, refl))
                  | inr (x, d) ↦ rw (e, f, d) (inr (u, v, refl, may, refl))
                ]
        ]
      ]
