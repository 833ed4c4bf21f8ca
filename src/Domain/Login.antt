-- ===== src/Domain/Login.antt =====
-- domain/auth.py: `get_token` on each of its branches.
use mathlib.Core.Option
use smart_http_requester.Common.{ℕ, ◌+◌, ◌≡◌, String, true, false, none, some, [], ◌∷◌, ◌++◌, arith}
use smart_http_requester.Sql.{fetch_one, exists}
use smart_http_requester.Schemas.{Uuid, UserCredentials, AccessTokenResponse}
use smart_http_requester.Tables.{UserRow, user_id_is}
use smart_http_requester.Session.{
  user_does_not_exist, password_is_incorrect, ok, err, Env, World, rolling_back, committing,
}
use smart_http_requester.Passwords.{check_password}
use smart_http_requester.Repository.Auth.{
  get_user_id_password, get_access_token_by_user_id, get_or_create_user_token, username_is,
  id_password, token_of, new_token, with_tokens, token_user_is,
}
use smart_http_requester.Domain.Auth.{get_token}

abbrev pub token_reply : Env → Uuid → AccessTokenResponse
token_reply env i = record { access_token = env.uuid_text i; token_type = "Bearer" }

pub get_user_id_password_lem :
    (name : String) (env : Env) (w : World)
    → env.binds_text name ≡ true
    → get_user_id_password name env w
      ≡ (ok (Option.map id_password (fetch_one (username_is name) w.working.users)), rolling_back w)
unfolding get_user_id_password
get_user_id_password_lem name env w b = ground arith

get_access_token_existing :
    (u : ℕ) (i : Uuid) (env : Env) (w : World)
    → token_of u w.working.tokens ≡ some i
    → get_access_token_by_user_id u env w ≡ (ok i, rolling_back (committing w))
unfolding get_access_token_by_user_id get_or_create_user_token
get_access_token_existing u i env w e = ground arith

-- The user's view after a token row is inserted.
abbrev pub with_new_token : ℕ → Env → World → World
with_new_token u env w =
    with_tokens (record w { drawn = w.drawn + 1 })
      (w.working.tokens ++ new_token u (env.random_uuid w.drawn) (env.now w.transaction) ∷ [])

get_access_token_new :
    (u : ℕ) (env : Env) (w : World)
    → exists (token_user_is u) w.working.tokens ≡ false
    → exists (user_id_is u) w.working.users ≡ true
    → get_access_token_by_user_id u env w
      ≡ (ok (env.random_uuid w.drawn), rolling_back (committing (with_new_token u env w)))
unfolding get_access_token_by_user_id get_or_create_user_token
get_access_token_new u env w e h = ground arith

module _ (c : UserCredentials) (env : Env) (w : World)
    (bound : env.binds_text c.username ≡ true) where
  pub get_token_missing :
      fetch_one (username_is c.username) w.working.users ≡ none
      → get_token c env w ≡ (err user_does_not_exist, rolling_back w)
  unfolding get_token
  get_token_missing e = ground (arith, get_user_id_password_lem c.username env w bound)

  pub get_token_wrong :
      {u : UserRow}
      → fetch_one (username_is c.username) w.working.users ≡ some u
      → check_password c.password_hash u.password_hash env (rolling_back w)
        ≡ (ok false, rolling_back w)
      → get_token c env w ≡ (err password_is_incorrect, rolling_back w)
  unfolding get_token
  get_token_wrong e p = ground (arith, get_user_id_password_lem c.username env w bound)

  -- A token row of the user's, of whatever age, is answered as it is.
  pub get_token_existing :
      {u : UserRow} (i : Uuid)
      → fetch_one (username_is c.username) w.working.users ≡ some u
      → check_password c.password_hash u.password_hash env (rolling_back w)
        ≡ (ok true, rolling_back w)
      → token_of u.id w.committed.tokens ≡ some i
      → get_token c env w ≡ (ok (token_reply env i), rolling_back (committing (rolling_back w)))
  unfolding get_token
  get_token_existing {u} i e p t = ground (
    arith,
    get_user_id_password_lem c.username env w bound,
    get_access_token_existing u.id i env (rolling_back w) t,
  )

  pub get_token_new :
      {u : UserRow}
      → fetch_one (username_is c.username) w.working.users ≡ some u
      → check_password c.password_hash u.password_hash env (rolling_back w)
        ≡ (ok true, rolling_back w)
      → exists (token_user_is u.id) w.committed.tokens ≡ false
      → exists (user_id_is u.id) w.committed.users ≡ true
      → get_token c env w ≡ (
        ok (token_reply env (env.random_uuid w.drawn)),
        rolling_back (committing (with_new_token u.id env (rolling_back w))),
      )
  unfolding get_token
  get_token_new {u} e p t h = ground (
    arith,
    get_user_id_password_lem c.username env w bound,
    get_access_token_new u.id env (rolling_back w) t h,
  )
