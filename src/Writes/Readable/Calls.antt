-- ===== src/Writes/Readable/Calls.antt =====
-- api/v1/: every call leaves readable tasks.
use smart_http_requester.Common.{refl, String, List, [], ◌∷◌, arith, inl, inr}
use smart_http_requester.Common.Int.{ℤ, pos, pos_part}
use smart_http_requester.Schemas.{Uuid, TaskBody, TaskResponse, User}
use smart_http_requester.Tables.{Db}
use smart_http_requester.Session.{Outcome-cases, Env, World, Action}
use smart_http_requester.Session.Keeps.{bind-Keeps, catch-Keeps}
use smart_http_requester.Session.Yields.{
  Yields, Reraises, Keeps-Yields, bind-Yields, reraise-Yields, get_db-Yields,
}
use smart_http_requester.Api.Requests.{
  create_handler, batch_handler, info_handler, list_handler, delete_handler, update_handler,
  request_create, request_create_batch, request_info, request_user_tasks, request_delete,
  request_update, server_error, on_task_error, on_batch_error, endpoint,
}
use smart_http_requester.Api.Router.{
  Request, create, create_batch, info, delete, user_tasks, update, run,
}
use smart_http_requester.Api.Service.{
  Call, tasks, register, login, docs_token, logout, refresh, me, metrics, fake_status, run_call,
  run_calls,
}
use smart_http_requester.Writes.{
  Anyone, AccountWrite, add_user, add_token, drop_tokens, renew_token,
}
use smart_http_requester.Writes.Reads.{get_request_task-Keeps, get_user_request_tasks-Keeps}
use smart_http_requester.Writes.Guards.{
  authorization-Keeps, valid_create-Keeps, valid_update-Keeps, valid_creates-Keeps,
  valid_page-Keeps, on_task_error-Keeps,
}
use smart_http_requester.Writes.Auth.{
  auth_register-kept, auth_login-kept, auth_token-kept, auth_logout-kept, auth_refresh-kept,
  auth_verify-kept,
}
use smart_http_requester.Writes.Readable.{AreReadable, cancel-Yields, update-Yields, create-Yields}
use smart_http_requester.Writes.Readable.Batch.{batch-Yields}

-- Users and tokens have no part in it.
account_kept :
    (env : Env) (db db' : Db)
    → AreReadable env db
    → AccountWrite Anyone db db'
    → AreReadable env db'
account_kept env db db' h (add_user u i n role r name k) = h
account_kept env db db' h (add_token u token now n e) = h
account_kept env db db' h (drop_tokens u m) = h
account_kept env db db' h (renew_token u token now m) = h

module _ (env : Env) where
  endpoint_kept :
      {A : Type 0} (token : String) (h : User → Action A) (w : World)
      → ((user : User) → Yields env (AreReadable env) (h user))
      → AreReadable env w.committed
      → AreReadable env (endpoint token h env w).1.committed
  endpoint_kept token h w k = get_db-Yields w (
      bind-Yields (Keeps-Yields (authorization-Keeps env (AreReadable env) (pos 0) token))
        λ v user e. k user)

  create_handler-Yields :
      (b : TaskBody) (user : User) → Yields env (AreReadable env) (create_handler b user)
  create_handler-Yields b user =
      bind-Yields (Keeps-Yields (valid_create-Keeps env (AreReadable env) b))
        λ w d e. reraise-Yields server_error (create-Yields env user.id d) (λ x v. (_, refl, refl))

  on_batch_error-Reraises : Reraises env {A = List TaskResponse} on_batch_error
  on_batch_error-Reraises e w =
      elim (Outcome-cases (on_batch_error {A = List TaskResponse} e env w).0) [
        | inl (a, p) ↦ absurd (ground (arith, p))
        | inr (x, p) ↦ (x, p, ground arith)
      ]

  batch_handler-Yields :
      (bs : List TaskBody) (user : User) → Yields env (AreReadable env) (batch_handler bs user)
  batch_handler-Yields bs user =
      bind-Yields (Keeps-Yields (valid_creates-Keeps env (AreReadable env) bs)) λ w ds e.
        reraise-Yields on_batch_error (batch-Yields env user.id ds) on_batch_error-Reraises

  delete_handler-Yields :
      (i : Uuid) (user : User) → Yields env (AreReadable env) (delete_handler i user)
  delete_handler-Yields i user =
      reraise-Yields on_task_error (cancel-Yields env i user.id) (λ x v. (_, refl, refl))

  update_handler-Yields :
      (i : Uuid) (b : TaskBody) (user : User)
      → Yields env (AreReadable env) (update_handler i b user)
  update_handler-Yields i b user =
      bind-Yields (Keeps-Yields (valid_update-Keeps env (AreReadable env) b)) λ w d e.
        reraise-Yields on_task_error (update-Yields env i user.id d) (λ x v. (_, refl, refl))

  info_handler-Yields :
      (i : Uuid) (user : User) → Yields env (AreReadable env) (info_handler i user)
  info_handler-Yields i user = Keeps-Yields (
      catch-Keeps (get_request_task-Keeps env (AreReadable env) i user.id)
        (on_task_error-Keeps env (AreReadable env)))

  list_handler-Yields :
      (skip limit : ℤ) (user : User) → Yields env (AreReadable env) (list_handler skip limit user)
  list_handler-Yields skip limit user = Keeps-Yields (
      bind-Keeps (valid_page-Keeps env (AreReadable env) skip limit) λ _.
        get_user_request_tasks-Keeps env (AreReadable env) user.id (pos_part skip) (pos_part limit))

  run-AreReadable :
      (token : String) (q : Request) (w : World)
      → AreReadable env w.committed
      → AreReadable env (run env token q w).committed
  unfolding run request_create request_create_batch request_info request_user_tasks request_delete
      request_update
  run-AreReadable token (create b) w = endpoint_kept token _ w (create_handler-Yields b)
  run-AreReadable token (create_batch bs) w = endpoint_kept token _ w (batch_handler-Yields bs)
  run-AreReadable token (info i) w = endpoint_kept token _ w (info_handler-Yields i)
  run-AreReadable token (delete i) w = endpoint_kept token _ w (delete_handler-Yields i)
  run-AreReadable token (user_tasks skip limit) w =
      endpoint_kept token _ w (list_handler-Yields skip limit)
  run-AreReadable token (update i b) w = endpoint_kept token _ w (update_handler-Yields i b)

  run_call-AreReadable :
      (c : Call) (w : World)
      → AreReadable env w.committed
      → AreReadable env (run_call env c w).committed
  unfolding run_call
  run_call-AreReadable (tasks token q) w = run-AreReadable token q w
  run_call-AreReadable (register username password_hash) w =
      auth_register-kept env (AreReadable env) Anyone (account_kept env) username password_hash w
  run_call-AreReadable (login username password_hash) w =
      auth_login-kept env (AreReadable env) Anyone (account_kept env) username password_hash w
  run_call-AreReadable (docs_token username password) w =
      auth_token-kept env (AreReadable env) Anyone (account_kept env) username password w
  run_call-AreReadable (logout token) w =
      auth_logout-kept env (AreReadable env) Anyone (account_kept env) token w (λ user e. tt)
  run_call-AreReadable (refresh token) w =
      auth_refresh-kept env (AreReadable env) Anyone (account_kept env) token w (λ user e. tt)
  run_call-AreReadable (me token) w =
      auth_verify-kept env (AreReadable env) Anyone (account_kept env) token w
  run_call-AreReadable metrics w = λ h. h
  run_call-AreReadable (fake_status n) w = λ h. h

-- Whatever calls of the service follow each other: every stored task fits the type of the response,
-- TaskResponse, as long as those at the start did and no id stood twice. Nothing is assumed of what
-- the database or HttpUrl make of a value: a row that does not fit is never committed.
pub run_calls-AreReadable :
    (env : Env) (cs : List Call) (w : World)
    → AreReadable env w.committed
    → AreReadable env (run_calls env cs w).committed
unfolding run_calls
run_calls-AreReadable env [] w h = h
run_calls-AreReadable env (c ∷ cs) w h =
    run_calls-AreReadable env cs (run_call env c w) (run_call-AreReadable env c w h)
