-- ===== src/Domain/Auth.antt =====
-- domain/auth.py: registration, login, logout, refresh and the profile, with their exceptions.
use smart_http_requester.Common.{ℕ, String, Option, none, some, if◌then◌else◌, not}
use smart_http_requester.Schemas.{
  Uuid, UserCredentials, UserRegisterResponse, AccessTokenResponse, UserIdPassword, UserMe,
}
use smart_http_requester.Session.{
  Exc, unique_violation, integrity_error, user_already_exists, unknown_exception,
  user_does_not_exist, password_is_incorrect, ok, Action, pure, raise, none_or, ◌>>=◌, catch,
}
use smart_http_requester.Passwords.{hash_password, check_password}
use smart_http_requester.Repository.Auth.{
  create_new_user, get_user_id_password, get_access_token_by_user_id, delete_token as repo_delete,
}
use smart_http_requester.Repository.Identity.{refresh_user_token, get_user_info as repo_info}

-- `except sqlalchemy.exc.IntegrityError`
abbrev pub on_integrity_error : Exc → Action UserRegisterResponse
on_integrity_error unique_violation = raise user_already_exists
on_integrity_error integrity_error = raise unknown_exception
on_integrity_error e = raise e

unfoldable pub create_user : UserCredentials → Action UserRegisterResponse
create_user user = do
  hashed ← hash_password user.password_hash
  catch (create_new_user user.username hashed) on_integrity_error

-- `str(token)`
abbrev pub token_response : Uuid → Action AccessTokenResponse
token_response token env w =
    (ok (record { access_token = env.uuid_text token; token_type = "Bearer" }), w)

abbrev pub token_for : String → UserIdPassword → Action AccessTokenResponse
token_for password_hash found = do
  password_correct ← check_password password_hash found.password_hash
  if not password_correct
      then raise password_is_incorrect
      else do token ← get_access_token_by_user_id found.user_id; token_response token

unfoldable pub get_token : UserCredentials → Action AccessTokenResponse
get_token user = do
  id_with_hash ← get_user_id_password user.username
  none_or id_with_hash (raise user_does_not_exist) λ found. token_for user.password_hash found

-- The form of the documentation page sends the password itself.
unfoldable pub get_token_for_docs : String → String → Action AccessTokenResponse
get_token_for_docs login password = do
  id_with_hash ← get_user_id_password login
  none_or id_with_hash (raise user_does_not_exist)
      λ found. λ env w. token_for (env.sha256_hex password) found env w

abbrev pub or_missing : {A : Type 0} → Option A → Action A
or_missing none = raise user_does_not_exist
or_missing (some a) = pure a

unfoldable pub delete_token : ℕ → Action ℕ
delete_token user_id = do deleted_id ← repo_delete user_id; or_missing deleted_id

unfoldable pub refresh_token : ℕ → Action AccessTokenResponse
refresh_token user_id = do
  found ← refresh_user_token user_id
  token ← or_missing found
  token_response token

unfoldable pub get_user_info : ℕ → Action UserMe
get_user_info user_id = do info ← repo_info user_id; or_missing info
