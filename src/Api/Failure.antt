-- ===== src/Api/Failure.antt =====
-- What a request that fails leaves behind.
use smart_http_requester.Common.{◌≡◌, String, arith}
use smart_http_requester.Common.Int.{pos}
use smart_http_requester.Schemas.{Uuid, TaskBody, User}
use smart_http_requester.Session.{Exc, err, Env, World, Action, ◌>>=◌}
use smart_http_requester.Session.Quiet.{Kept, IsQuiet, quiet_rules, bind-IsQuiet, get_db-Kept}
use smart_http_requester.Domain.Quiet.{
  authorization-IsQuiet, cancel_request_task-IsQuiet, update_request_task-IsQuiet,
}
use smart_http_requester.Api.Requests.{
  request_delete, request_update, valid_update, endpoint, update_handler, delete_handler,
}
use smart_http_requester.Middleware.Auth.{authorization}

valid_update-IsQuiet : (b : TaskBody) → IsQuiet (valid_update b)
valid_update-IsQuiet b = record { at = λ env w. ground arith }

-- A quiet handler that raises, or a request that authorization refuses, leaves all as it was.
endpoint-Kept :
    {A : Type 0} (token : String) (h : User → Action A) (env : Env) (w : World) (e : Exc)
    → ((user : User) → IsQuiet (h user))
    → (endpoint token h env w).0 ≡ err e
    → Kept w (endpoint token h env w).1
endpoint-Kept token h env w e quiet p =
    get_db-Kept {m = authorization (pos 0) token >>= h} env w e
      (bind-IsQuiet (authorization-IsQuiet (pos 0) token) quiet) p

ruleset request_rules = (
  quiet_rules, authorization-IsQuiet, cancel_request_task-IsQuiet, update_request_task-IsQuiet,
  valid_update-IsQuiet,
)

-- A DELETE that ends in an error, whichever it is, has changed no stored row, has delivered no
-- notification and has sent no message, although the repository cancels before the checks.
failed_delete_kept :
    (token : String) (task_id : Uuid) (env : Env) (w : World) (e : Exc)
    → (request_delete token task_id env w).0 ≡ err e
    → Kept w (request_delete token task_id env w).1
unfolding request_delete
failed_delete_kept token task_id env w e =
    endpoint-Kept token (delete_handler task_id) env w e (λ user. search request_rules)

-- A PUT that ends in an error, whichever it is, has changed no stored row, has delivered no
-- notification and has sent no message: the row that the repository has written without looking at
-- its owner or its status is rolled back.
failed_update_kept :
    (token : String) (task_id : Uuid) (body : TaskBody) (env : Env) (w : World) (e : Exc)
    → (request_update token task_id body env w).0 ≡ err e
    → Kept w (request_update token task_id body env w).1
unfolding request_update
failed_update_kept token task_id body env w e =
    endpoint-Kept token (update_handler task_id body) env w e (λ user. search request_rules)
