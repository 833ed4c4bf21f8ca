-- ===== src/Api/Refresh.antt =====
-- api/v1/auth.py: the effect of `auth_refresh`.
use smart_http_requester.Common.{
  ℕ, ◌+◌, ◌≡◌, ◌≢◌, ◌<◌, refl, String, true, none, some, List, [], ◌∷◌, arith,
}
use smart_http_requester.Common.Int.{pos}
use smart_http_requester.Sql.{fetch_one, exists, update}
use smart_http_requester.Schemas.{Uuid, Timestamp, User}
use smart_http_requester.Tables.{TokenRow}
use smart_http_requester.Session.{ok, err, Env, World, opening, rolling_back, committing}
use smart_http_requester.Repository.Auth.{token_user_is, with_tokens, seven_days}
use smart_http_requester.Repository.Identity.{refreshed, refresh_user_token, is_live}
use smart_http_requester.Domain.Auth.{refresh_token}
use smart_http_requester.Domain.Login.{token_reply}
use smart_http_requester.Middleware.Auth.{authorization, unauthorized}
use smart_http_requester.Middleware.Refusal.{strange, refuses_dead}
use smart_http_requester.Api.Auth.{auth_refresh, refresh_handler}
use smart_http_requester.Api.Endpoint.{Authorized, started, endpoint_ok}

-- With the user's rows refreshed, a token that no other user has, and that is not the new one, is
-- dead.
refreshed_dead :
    (i new : Uuid) (u : ℕ) (issued now : Timestamp) (ts : List TokenRow)
    → i ≢ new
    → fetch_one (strange i u) ts ≡ none
    → fetch_one (is_live i now) (update (token_user_is u) (refreshed new issued) ts) ≡ none
refreshed_dead i new u issued now [] d e = refl
refreshed_dead i new u issued now (t ∷ ts) d e =
    ground (arith, d, refreshed_dead i new u issued now ts d)

-- The new token is alive for seven days.
refreshed_live :
    (new : Uuid) (u : ℕ) (issued now : Timestamp) (ts : List TokenRow)
    → exists (token_user_is u) ts ≡ true
    → now < issued + seven_days
    → exists (is_live new now) (update (token_user_is u) (refreshed new issued) ts) ≡ true
refreshed_live new u issued now [] e h = ground arith
refreshed_live new u issued now (t ∷ ts) e h = ground (arith, refreshed_live new u issued now ts)

module _ (token : String) (env : Env) (w : World) (user : User) (auth : Authorized env w token user)
    (row : exists (token_user_is user.id) w.committed.tokens ≡ true) where
  abbrev new : Uuid
  new = env.random_uuid w.drawn

  abbrev stored : List TokenRow
  stored =
      update (token_user_is user.id) (refreshed new (env.now (w.transaction + 1)))
        w.committed.tokens

  refresh_effect :
      ((auth_refresh token env w).0 ≡ ok (token_reply env new))
      × ((auth_refresh token env w).1.committed.tokens ≡ stored)
  unfolding auth_refresh refresh_token refresh_user_token
  refresh_effect =
      let v = with_tokens (record (started w) { drawn = w.drawn + 1 }) stored in
      let handled : refresh_handler user env (started w)
          ≡ (ok (token_reply env new), rolling_back (committing v)) =
        ground arith in
      rw
        (endpoint_ok token refresh_handler env w (rolling_back (committing v)) user
          (token_reply env new) auth handled)
        (refl, refl)

  pub refresh_replaces :
      (i : Uuid) (v : World) (now : Timestamp)
      → env.bind_uuid token ≡ some i
      → i ≢ env.random_uuid w.drawn
      → fetch_one (strange i user.id) w.committed.tokens ≡ none
      → v.committed.tokens ≡ (auth_refresh token env w).1.committed.tokens
      → now < env.now (w.transaction + 1) + seven_days
      → ((auth_refresh token env w).0 ≡ ok (token_reply env (env.random_uuid w.drawn)))
        × (exists
              (is_live (env.random_uuid w.drawn) now)
              (auth_refresh token env w).1.committed.tokens
            ≡ true)
        × ((authorization (pos 0) token env (opening v)).0 ≡ err unauthorized)
  refresh_replaces i v now b d only same soon =
      let (replied, kept) = refresh_effect in
      (
        replied,
        rw kept (
            refreshed_live new user.id (env.now (w.transaction + 1)) now w.committed.tokens row
              soon),
        refuses_dead env (opening v) (pos 0) token i b (
            rw (same, kept)
              (refreshed_dead i new user.id (env.now (w.transaction + 1)) (env.now v.transaction)
                w.committed.tokens d only)),
      )
