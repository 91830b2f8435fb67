-- ===== src/Admin/Authorization/Sessions.antt =====
-- What a login leads to: who gets a token, and what a request with that token is taken for.
use Prim.Native.Char.{code}
use cot_server.Base.{
  ℕ, ◌+◌, ◌≡◌, refl, ap, ◌∙◌, String, true, false, not, Option, some, [], ◌∷◌, str_eq, eq_iff,
  arith, ◌==◌,
}
use cot_server.Model.Admin.{Authorization, AdminAuthInfo, LoginReq}
use cot_server.Model.User.{UserEntity}
use cot_server.Host.{Host, World, History, ok, find_user, now, sign_jwt, redis_set}
use cot_server.Host.Answers.{answers, Answered-value}
use cot_server.Admin.Authorization.{
  login, bearer_token, split_spaces, starts_with, get_admin_key, expired_time_redis,
}

-- A text without a space.
abbrev pub NoSpace : String → Type 0
NoSpace String.[] = Unit
NoSpace (String.◌∷◌ c text) = (code c == 32 ≡ false) × NoSpace text

split_spaces-NoSpace : (token : String) → NoSpace token → split_spaces token ≡ token ∷ []
unfolding split_spaces
split_spaces-NoSpace String.[] n = refl
split_spaces-NoSpace (String.◌∷◌ c token) (n, m) = rw (n, split_spaces-NoSpace token m) refl

-- One text before another.
abbrev pub before : String → String → String
before String.[] text = text
before (String.◌∷◌ c prefix) text = String.◌∷◌ c (before prefix text)

-- The header that carries a token.
abbrev pub header : String → String
header token = before "Bearer " token

-- The header of a token without a space is read back as that token.
pub bearer_token-header : (token : String) → NoSpace token → bearer_token (header token) ≡ token
unfolding bearer_token split_spaces
bearer_token-header token n = rw (split_spaces-NoSpace token n) refl

pub starts_with-header : (token : String) → starts_with "Bearer " (header token) ≡ true
unfolding starts_with
starts_with-header token = refl

-- What a login at a time returns: the token is good for seven days.
abbrev pub info_of : LoginReq → ℕ → String → AdminAuthInfo
info_of dto time token = record {
  login_name = dto.login_name;
  expired_time = time + 604800000;
  token = token;
}

-- After the calls `c`, a login with the name and the password that are asked for: an active user
-- with that name was found and has that password, the token was signed for seven days, and what is
-- returned was put into Redis under the token's key.
pub record IsLoggedIn (h : Host) (dto : LoginReq) (c : History) (res : AdminAuthInfo) : Type 0 where
  pub u : UserEntity
  pub time : ℕ
  pub found : h.user_row (find_user dto.login_name true ∷ c) ≡ ok (some u)
  pub right : dto.password ≡ u.password
  pub clock : h.number (now ∷ find_user dto.login_name true ∷ c) ≡ ok time
  pub signed :
      h.text (sign_jwt dto.login_name (time + 604800000) ∷ now ∷ find_user dto.login_name true ∷ c)
      ≡ ok res.token
  pub exact : res ≡ info_of dto time res.token
  pub stored :
      h.done (
        redis_set (get_admin_key res.token) (h.auth_to_json res) expired_time_redis
        ∷ sign_jwt dto.login_name (time + 604800000)
        ∷ now
        ∷ find_user dto.login_name true
        ∷ c)
      ≡ ok tt

module _ (h : Host) (auth : Authorization) (dto : LoginReq) (w : World (Unit {0})) where
  all-IsLoggedIn :
      (o : Option UserEntity) (u : UserEntity) (time : ℕ) (token : String)
      → h.user_row (find_user dto.login_name true ∷ w.calls) ≡ ok o
      → o ≡ some u
      → not (str_eq dto.password u.password) ≡ false
      → h.number (now ∷ find_user dto.login_name true ∷ w.calls) ≡ ok time
      → h.text (
          sign_jwt dto.login_name (time + 604800000)
          ∷ now
          ∷ find_user dto.login_name true
          ∷ w.calls)
        ≡ ok token
      → h.done (
          redis_set
            (get_admin_key token)
            (h.auth_to_json (info_of dto time token))
            expired_time_redis
          ∷ sign_jwt dto.login_name (time + 604800000)
          ∷ now
          ∷ find_user dto.login_name true
          ∷ w.calls)
        ≡ ok tt
      → IsLoggedIn h dto w.calls (info_of dto time token)
  all-IsLoggedIn o u time token f s p c t d = record {
    u = u;
    time = time;
    found = f ∙ ap ok s;
    right = (eq_iff dto.password u.password).0 (ground (arith, p));
    clock = c;
    signed = t;
    exact = refl;
    stored = d;
  }

  -- Nobody logs in without the password of an active user: if login returns, such a user was found
  -- under the name and has the password, and the information that is returned, with a token that
  -- was signed for that name and for seven days, was put into Redis under the token's key.
  pub login-IsLoggedIn :
      (res : AdminAuthInfo) → (login auth dto h w).0 ≡ ok res → IsLoggedIn h dto w.calls res
  unfolding login
  login-IsLoggedIn res =
      Answered-value h (IsLoggedIn h dto w.calls) w (login auth dto) res
        (search (answers, all-IsLoggedIn) depth 30 fits 20000)
