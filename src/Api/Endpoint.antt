-- ===== src/Api/Endpoint.antt =====
-- How an endpoint ends: the session of `get_db` round authorization and the handler.
use smart_http_requester.Common.{◌≡◌, String, arith}
use smart_http_requester.Common.Int.{pos}
use smart_http_requester.Schemas.{User}
use smart_http_requester.Session.{
  Exc, ok, err, Env, World, Action, rolling_back, committing, opening, catch,
}
use smart_http_requester.Middleware.Auth.{authorization}
use smart_http_requester.Api.Requests.{endpoint, on_task_error, server_error, on_batch_error}

-- The state in which a handler starts: authorization has closed the session once.
abbrev pub started : World → World
started w = rolling_back (opening w)

-- The token of the request is that of `user`.
abbrev pub Authorized : Env → World → String → User → Type 0
Authorized env w token user = authorization (pos 0) token env (opening w) ≡ (ok user, started w)

module _ {A : Type 0} where
  -- With a user, the reply is the handler's, and the session is committed or rolled back after it.
  pub endpoint_ok :
      (token : String) (h : User → Action A) (env : Env) (w v : World) (user : User) (a : A)
      → Authorized env w token user
      → h user env (started w) ≡ (ok a, v)
      → endpoint token h env w ≡ (ok a, rolling_back (committing v))
  endpoint_ok token h env w v user a auth e = ground arith

  pub catch_ok :
      (m : Action A) (f : Exc → Action A) (env : Env) (w v : World) (a : A)
      → m env w ≡ (ok a, v)
      → catch m f env w ≡ (ok a, v)
  catch_ok m f env w v a e = ground arith

  pub endpoint_err :
      (token : String) (h : User → Action A) (env : Env) (w : World) (user : User) (e : Exc)
      → Authorized env w token user
      → (h user env (started w)).0 ≡ err e
      → (endpoint token h env w).0 ≡ err e
  endpoint_err token h env w user e auth p = ground arith

  pub endpoint-committed :
      (token : String) (h : User → Action A) (env : Env) (w : World) (user : User) (e : Exc)
      → Authorized env w token user
      → (h user env (started w)).0 ≡ err e
      → (endpoint token h env w).1.committed ≡ (h user env (started w)).1.committed
  endpoint-committed token h env w user e auth p = ground arith

  pub endpoint-working :
      (token : String) (h : User → Action A) (env : Env) (w : World) (user : User) (a : A)
      → Authorized env w token user
      → (h user env (started w)).0 ≡ ok a
      → (endpoint token h env w).1.committed ≡ (h user env (started w)).1.working
  endpoint-working token h env w user a auth p = ground arith

  pub endpoint-sent :
      (token : String) (h : User → Action A) (env : Env) (w : World) (user : User)
      → Authorized env w token user
      → (endpoint token h env w).1.sent ≡ (h user env (started w)).1.sent
  endpoint-sent token h env w user auth = ground arith

-- The handlers of exceptions raise, and change nothing.
module _ {A : Type 0} (m : Action A) (env : Env) (w : World) where
  pub on_task_error-catch :
      ((catch m on_task_error env w).1 ≡ (m env w).1)
      × ((a : A) → (catch m on_task_error env w).0 ≡ ok a → (m env w).0 ≡ ok a)
  on_task_error-catch = (ground arith, λ a h. ground arith)

  pub server_error-catch :
      ((catch m server_error env w).1 ≡ (m env w).1)
      × ((a : A) → (catch m server_error env w).0 ≡ ok a → (m env w).0 ≡ ok a)
  server_error-catch = (ground arith, λ a h. ground arith)

  pub on_batch_error-catch :
      ((catch m on_batch_error env w).1 ≡ (m env w).1)
      × ((a : A) → (catch m on_batch_error env w).0 ≡ ok a → (m env w).0 ≡ ok a)
  on_batch_error-catch = (ground arith, λ a h. ground arith)
