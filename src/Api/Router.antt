-- ===== src/Api/Router.antt =====
-- The task endpoints as one function of the request (`requests_router` of api/v1/requests.py), and
-- a sequence of requests, each with its token.
use smart_http_requester.Common.{String, List, [], ◌∷◌}
use smart_http_requester.Common.Int.{ℤ}
use smart_http_requester.Schemas.{Uuid, TaskBody}
use smart_http_requester.Session.{Env, World}
use smart_http_requester.Api.Requests.{
  request_create, request_create_batch, request_info, request_user_tasks, request_delete,
  request_update,
}

pub data Request : Type 0 where
  create : TaskBody → Request
  create_batch : List TaskBody → Request
  info delete : Uuid → Request
  user_tasks : ℤ → ℤ → Request
  update : Uuid → TaskBody → Request

-- The state after a request.
unfoldable pub run : Env → String → Request → World → World
run env token (create body) w = (request_create token body env w).1
run env token (create_batch bodies) w = (request_create_batch token bodies env w).1
run env token (info i) w = (request_info token i env w).1
run env token (delete i) w = (request_delete token i env w).1
run env token (user_tasks skip limit) w = (request_user_tasks token skip limit env w).1
run env token (update i body) w = (request_update token i body env w).1

unfoldable pub run_all : Env → List (String × Request) → World → World
run_all env [] w = w
run_all env ((token, q) ∷ qs) w = run_all env qs (run env token q w)
