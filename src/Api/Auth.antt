-- ===== src/Api/Auth.antt =====
-- api/v1/auth.py: the endpoints on users and tokens, with the counters of auth_attempts_total.
use smart_http_requester.Common.{ℕ, String, [], ◌∷◌, ◌++◌}
use smart_http_requester.Schemas.{
  UserRegisterResponse, AccessTokenResponse, UserMe, User, UserCredentials, user_credentials,
}
use smart_http_requester.Session.{
  Exc, http, user_already_exists, unknown_exception, user_does_not_exist, password_is_incorrect,
  Action, pure, raise, ◌>>=◌, ◌>>◌, catch, modify, get_db,
}
use smart_http_requester.Middleware.Auth.{unauthorized}
use smart_http_requester.Api.Requests.{or_unprocessable, endpoint}
use smart_http_requester.Domain.Auth.{
  create_user, get_token, get_token_for_docs, delete_token, refresh_token, get_user_info,
}

abbrev pub not_found : Exc
not_found = http 404 "Not Found"

-- `auth_attempts_total.labels(type=..., status=...).inc()`
abbrev pub count_attempt : String → String → Action (Unit {0})
count_attempt type status =
    modify (λ w. record w { auth_attempts_total = w.auth_attempts_total ++ (type, status) ∷ [] })

abbrev pub on_register_error : Exc → Action UserRegisterResponse
on_register_error user_already_exists =
    count_attempt "register" "conflict" >> raise (http 409 "Conflict")
on_register_error unknown_exception =
    count_attempt "register" "error" >> raise (http 500 "Internal Server Error")
on_register_error e = raise e

abbrev pub counted_register : UserCredentials → Action UserRegisterResponse
counted_register user = do
  created ← create_user user
  count_attempt "register" "success"
  pure created

unfoldable pub auth_register : String → String → Action UserRegisterResponse
auth_register username password_hash = get_db (do
  user ← or_unprocessable (user_credentials username password_hash)
  catch (counted_register user) on_register_error)

abbrev pub on_login_error : Exc → Action AccessTokenResponse
on_login_error password_is_incorrect = count_attempt "login" "unauthorized" >> raise unauthorized
on_login_error user_does_not_exist = count_attempt "login" "not_found" >> raise not_found
on_login_error e = raise e

abbrev pub counted_login : UserCredentials → Action AccessTokenResponse
counted_login user = do token ← get_token user; count_attempt "login" "success"; pure token

unfoldable pub auth_login : String → String → Action AccessTokenResponse
auth_login username password_hash = get_db (do
  user ← or_unprocessable (user_credentials username password_hash)
  catch (counted_login user) on_login_error)

abbrev pub on_logout_error : Exc → Action ℕ
on_logout_error user_does_not_exist = raise (http 400 "Bad Request")
on_logout_error e = raise e

-- The reply has no body; the number that `delete_token` returns is dropped.
abbrev pub logout_handler : User → Action (Unit {0})
logout_handler user = do catch (delete_token user.id) on_logout_error; pure tt

unfoldable pub auth_logout : String → Action (Unit {0})
auth_logout token = endpoint token logout_handler

abbrev pub on_missing_user : {A : Type 0} → Exc → Action A
on_missing_user user_does_not_exist = raise not_found
on_missing_user e = raise e

abbrev pub refresh_handler : User → Action AccessTokenResponse
refresh_handler user = catch (refresh_token user.id) on_missing_user

unfoldable pub auth_refresh : String → Action AccessTokenResponse
auth_refresh token = endpoint token refresh_handler

abbrev pub verify_handler : User → Action UserMe
verify_handler user = catch (get_user_info user.id) on_missing_user

unfoldable pub auth_verify : String → Action UserMe
auth_verify token = endpoint token verify_handler

abbrev pub on_docs_error : Exc → Action AccessTokenResponse
on_docs_error password_is_incorrect = raise unauthorized
on_docs_error user_does_not_exist = raise not_found
on_docs_error e = raise e

-- The endpoint `token` of the documentation page.
unfoldable pub auth_token : String → String → Action AccessTokenResponse
auth_token username password = get_db (catch (get_token_for_docs username password) on_docs_error)
