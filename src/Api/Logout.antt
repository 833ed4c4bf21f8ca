-- ===== src/Api/Logout.antt =====
-- api/v1/auth.py: the effect of `auth_logout`.
use smart_http_requester.Common.{◌≡◌, ◌∙◌, ap, String, none, some, arith, inl, inr}
use smart_http_requester.Common.Int.{pos}
use smart_http_requester.Sql.{fetch_one, delete}
use smart_http_requester.Schemas.{Uuid, User}
use smart_http_requester.Tables.{Db}
use smart_http_requester.Session.{Outcome-cases, err, Env, World, opening}
use smart_http_requester.Repository.Auth.{token_user_is, delete_token as repo_delete, with_tokens}
use smart_http_requester.Domain.Auth.{delete_token}
use smart_http_requester.Middleware.Auth.{authorization, unauthorized}
use smart_http_requester.Middleware.Refusal.{strange, refuses_dead, delete_dead}
use smart_http_requester.Api.Auth.{auth_logout, logout_handler}
use smart_http_requester.Api.Endpoint.{Authorized, started, endpoint-committed, endpoint-working}

-- Logging out commits the deletion of the user's token rows, whether or not there is one.
logout_handler_effect :
    (user : User) (env : Env) (v : World)
    → ((logout_handler user env v).1.committed
        ≡ (with_tokens v (delete (token_user_is user.id) v.working.tokens)).working)
      × ((logout_handler user env v).1.working
          ≡ (with_tokens v (delete (token_user_is user.id) v.working.tokens)).working)
unfolding delete_token repo_delete
logout_handler_effect user env v = ground arith

pub logout_tokens :
    (token : String) (env : Env) (w : World) (user : User)
    → Authorized env w token user
    → (auth_logout token env w).1.committed.tokens
      ≡ delete (token_user_is user.id) w.committed.tokens
unfolding auth_logout
logout_tokens token env w user auth = elim (Outcome-cases (logout_handler user env (started w)).0) [
  | inl (a, p) ↦
      ap (λ (db : Db). db.tokens)
        (endpoint-working token logout_handler env w user a auth p
          ∙ (logout_handler_effect user env (started w)).1)
  | inr (e, p) ↦
      ap (λ (db : Db). db.tokens)
        (endpoint-committed token logout_handler env w user e auth p
          ∙ (logout_handler_effect user env (started w)).0)
]

-- After a logout the token of that request is refused with 401, at once and in every later state
-- with these token rows, provided that no other user has the same token.
pub logout_revokes :
    (token : String) (i : Uuid) (env : Env) (w v : World) (user : User)
    → Authorized env w token user
    → env.bind_uuid token ≡ some i
    → fetch_one (strange i user.id) w.committed.tokens ≡ none
    → v.committed.tokens ≡ (auth_logout token env w).1.committed.tokens
    → (authorization (pos 0) token env (opening v)).0 ≡ err unauthorized
logout_revokes token i env w v user auth b only e =
    refuses_dead env (opening v) (pos 0) token i b (
      rw (e, logout_tokens token env w user auth) (delete_dead i user.id _ w.committed.tokens only))
