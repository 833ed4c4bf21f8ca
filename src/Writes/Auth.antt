-- ===== src/Writes/Auth.antt =====
-- api/v1/auth.py: each endpoint keeps what the changes of the accounts keep.
use smart_http_requester.Common.{refl, String, arith}
use smart_http_requester.Schemas.{User, UserCredentials, user_credentials}
use smart_http_requester.Tables.{Db}
use smart_http_requester.Common.{ℕ, ◌≡◌}
use smart_http_requester.Common.Int.{pos}
use smart_http_requester.Session.{Exc, ok, Env, World, Action, opening, ◌>>=◌}
use smart_http_requester.Middleware.Auth.{authorization}
use smart_http_requester.Api.Requests.{endpoint}
use smart_http_requester.Session.Keeps.{
  Keeps, untouched, bind-Keeps, pure-Keeps, catch-Keeps, get_db-committed, get_db-kept, bind-kept,
}
use smart_http_requester.Api.Auth.{
  auth_register, auth_login, auth_logout, auth_refresh, auth_verify, auth_token, counted_register,
  on_register_error, counted_login, on_login_error, logout_handler, refresh_handler,
  on_logout_error, on_missing_user, on_docs_error, count_attempt,
}
use smart_http_requester.Writes.{AccountWrite}
use smart_http_requester.Writes.Accounts.{
  create_user-Keeps, get_token-Keeps, get_token_for_docs-Keeps, delete_token-Keeps,
  refresh_token-Keeps, get_user_info-Keeps,
}
use smart_http_requester.Writes.Guards.{authorization-Keeps, endpoint-Keeps, or_unprocessable-Keeps}

-- Whom the token of a request lets in may be written.
abbrev pub Allowed : Env → World → String → (ℕ → Type 0) → Type 0
Allowed env w token may =
    (user : User) → (authorization (pos 0) token env (opening w)).0 ≡ ok user → may user.id

module _ (env : Env) (P : Db → Type 0) (may : ℕ → Type 0)
    (kept : (db db' : Db) → P db → AccountWrite may db db' → P db') where
  count_attempt-Keeps : (type status : String) → Keeps env P (count_attempt type status)
  count_attempt-Keeps type status = untouched λ w. (refl, refl)

  on_register_error-Keeps : (e : Exc) → Keeps env P (on_register_error e)
  on_register_error-Keeps e = untouched λ w. (ground arith, ground arith)

  counted_register-Keeps : (user : UserCredentials) → Keeps env P (counted_register user)
  counted_register-Keeps user =
      bind-Keeps (create_user-Keeps env P may kept user)
        λ u. bind-Keeps (count_attempt-Keeps "register" "success") (λ _. pure-Keeps u)

  on_login_error-Keeps : (e : Exc) → Keeps env P (on_login_error e)
  on_login_error-Keeps e = untouched λ w. (ground arith, ground arith)

  counted_login-Keeps : (user : UserCredentials) → Keeps env P (counted_login user)
  counted_login-Keeps user =
      bind-Keeps (get_token-Keeps env P may kept user)
        λ t. bind-Keeps (count_attempt-Keeps "login" "success") (λ _. pure-Keeps t)

  on_logout_error-Keeps : (e : Exc) → Keeps env P (on_logout_error e)
  on_logout_error-Keeps e = untouched λ w. (ground arith, ground arith)

  logout_handler-Keeps : (user : User) → may user.id → Keeps env P (logout_handler user)
  logout_handler-Keeps user m =
      bind-Keeps (catch-Keeps (delete_token-Keeps env P may kept user.id m) on_logout_error-Keeps)
        λ _. pure-Keeps tt

  on_missing_user-Keeps : {A : Type 0} (e : Exc) → Keeps env P (on_missing_user {A = A} e)
  on_missing_user-Keeps e = untouched λ w. (ground arith, ground arith)

  on_docs_error-Keeps : (e : Exc) → Keeps env P (on_docs_error e)
  on_docs_error-Keeps e = untouched λ w. (ground arith, ground arith)

  endpoint-kept :
      {A : Type 0} (w : World) (token : String) (h : User → Action A)
      → ((user : User)
          → (authorization (pos 0) token env (opening w)).0 ≡ ok user
          → Keeps env P (h user))
      → P w.committed
      → P (endpoint token h env w).1.committed
  endpoint-kept w token h k s =
      get_db-kept P (do user ← authorization (pos 0) token; h user) env w
        (bind-kept {P = P} (authorization (pos 0) token) h (opening w) (s, s)
          (authorization-Keeps env P (pos 0) token) k)

  pub auth_register-kept :
      (username password_hash : String) (w : World)
      → P w.committed
      → P (auth_register username password_hash env w).1.committed
  unfolding auth_register
  auth_register-kept username password_hash w = get_db-committed w (
      bind-Keeps (or_unprocessable-Keeps env P (user_credentials username password_hash))
        λ user. catch-Keeps (counted_register-Keeps user) on_register_error-Keeps)

  pub auth_login-kept :
      (username password_hash : String) (w : World)
      → P w.committed
      → P (auth_login username password_hash env w).1.committed
  unfolding auth_login
  auth_login-kept username password_hash w = get_db-committed w (
      bind-Keeps (or_unprocessable-Keeps env P (user_credentials username password_hash))
        λ user. catch-Keeps (counted_login-Keeps user) on_login_error-Keeps)

  pub auth_token-kept :
      (username password : String) (w : World)
      → P w.committed
      → P (auth_token username password env w).1.committed
  unfolding auth_token
  auth_token-kept username password w =
      get_db-committed w (
        catch-Keeps (get_token_for_docs-Keeps env P may kept username password) on_docs_error-Keeps)

  pub auth_logout-kept :
      (token : String) (w : World)
      → Allowed env w token may
      → P w.committed
      → P (auth_logout token env w).1.committed
  unfolding auth_logout
  auth_logout-kept token w a =
      endpoint-kept w token logout_handler λ user e. logout_handler-Keeps user (a user e)

  pub auth_refresh-kept :
      (token : String) (w : World)
      → Allowed env w token may
      → P w.committed
      → P (auth_refresh token env w).1.committed
  unfolding auth_refresh
  auth_refresh-kept token w a = endpoint-kept w token refresh_handler λ user e.
      catch-Keeps (refresh_token-Keeps env P may kept user.id (a user e)) on_missing_user-Keeps

  pub auth_verify-kept :
      (token : String) (w : World) → P w.committed → P (auth_verify token env w).1.committed
  unfolding auth_verify
  auth_verify-kept token w = get_db-committed w (
      endpoint-Keeps env P token
        λ user. catch-Keeps (get_user_info-Keeps env P may kept user.id) on_missing_user-Keeps)
