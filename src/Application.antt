-- ===== src/Application.antt =====
-- application.py: the application as it is put together: the metrics middleware round the rate
-- limiter round the router, one request at a time.
pub mod Serve
pub mod Gate
pub mod Runs
pub mod Assembly
use Prim.Native.Char.{Char}
use smart_http_requester.Common.{ℕ, String, Bool, false, Option, none, some, ◌&&◌}
use smart_http_requester.Common.Int.{ℤ}
use smart_http_requester.Session.{Exc, http, Outcome, ok, err, Env, World}
use smart_http_requester.Middleware.Endpoint.{get_endpoint_name}
use smart_http_requester.Middleware.Metrics.{HttpMetrics, MeasuredResponse, measure}
use smart_http_requester.RateLimit.{Counters, Response, dispatch}
use smart_http_requester.Api.Requests.{
  request_create, request_create_batch, request_info, request_user_tasks, request_delete,
  request_update,
}
use smart_http_requester.Api.Auth.{
  auth_register, auth_login, auth_logout, auth_refresh, auth_verify, auth_token,
}
use smart_http_requester.Api.Metrics
use smart_http_requester.Api.Service.{
  Call, tasks, register, login, docs_token, logout, refresh, me, metrics, fake_status,
}
use smart_http_requester.Api.Router.{
  Request, create, create_batch, info, delete, user_tasks, update,
}

-- FastAPI answers an HTTPException inside the middlewares; another exception passes through them.
abbrev pub answered : {A : Type 0} → Outcome A × World → Outcome ℕ × World
answered (ok a, w) = (ok 200, w)
answered (err (http n detail), w) = (ok n, w)
answered (err e, w) = (err e, w)

abbrev pub task_method : Request → String
task_method (create body) = "POST"
task_method (create_batch bodies) = "POST"
task_method (info i) = "GET"
task_method (delete i) = "DELETE"
task_method (user_tasks skip limit) = "GET"
task_method (update i body) = "PUT"

abbrev pub request_method : Call → String
request_method (tasks token q) = task_method q
request_method (register username password_hash) = "POST"
request_method (login username password_hash) = "POST"
request_method (docs_token username password) = "POST"
request_method (logout token) = "POST"
request_method (refresh token) = "POST"
request_method (me token) = "GET"
request_method metrics = "GET"
request_method (fake_status n) = "GET"

abbrev pub task_route : Env → String → Request → World → Outcome ℕ × World
task_route env token (create body) w = answered (request_create token body env w)
task_route env token (create_batch bodies) w = answered (request_create_batch token bodies env w)
task_route env token (info i) w = answered (request_info token i env w)
task_route env token (delete i) w = answered (request_delete token i env w)
task_route env token (user_tasks skip limit) w =
    answered (request_user_tasks token skip limit env w)
task_route env token (update i body) w = answered (request_update token i body env w)

-- The endpoints for the metrics and for tests answer without a session.
unfoldable pub route : Env → Call → World → Outcome ℕ × World
route env (tasks token q) w = task_route env token q w
route env (register username password_hash) w =
    answered (auth_register username password_hash env w)
route env (login username password_hash) w = answered (auth_login username password_hash env w)
route env (docs_token username password) w = answered (auth_token username password env w)
route env (logout token) w = answered (auth_logout token env w)
route env (refresh token) w = answered (auth_refresh token env w)
route env (me token) w = answered (auth_verify token env w)
route env metrics w = (ok 200, w)
route env (fake_status n) w = (ok (Metrics.fake_status n).status_code, w)

-- An HTTP request as it comes in: the address of the client, the path, the header content-length,
-- the times of the caller and of Redis, whether that answers, and how long the request takes.
pub record Arrival : Type 0 where
  pub call : Call
  pub path : String
  pub client : Option String
  pub content_length : Option String
  pub now : ℕ
  pub clock : ℕ
  pub redis : Bool
  pub duration : ℤ

-- Python's digits and `int`, the content-length of a response by its status, and the limit of
-- requests, which is `none` where PYTEST_RUNNING is 1.
pub record Configuration : Type 0 where
  pub digit : Char → Bool
  pub parse : String → Option ℤ
  pub response_length : ℕ → Option String
  pub rate_limit : Option ℕ

-- There always is a name: `get_endpoint_name` ends.
abbrev pub label : Configuration → Arrival → String
label conf a = elim (get_endpoint_name conf.digit a.path) [ none ↦ "" | some name ↦ name ]

abbrev pub measured : Configuration → Outcome Response → Outcome MeasuredResponse
measured conf (ok r) =
    ok (record { status_code = r.status; content_length = conf.response_length r.status })
measured conf (err e) = err e

abbrev pub limited :
    Option ℕ
    → Arrival
    → (World → Outcome ℕ × World)
    → Counters × World
    → Outcome Response × (Counters × World)
limited none a call_next (counters, w) =
    let (r, w') = call_next w in
    (
      elim r [ ok status ↦ ok (record { status = status; headers = none }) | err e ↦ err e ],
      (counters, w'),
    )
limited (some limit) a call_next s = dispatch a.redis a.client limit a.now a.clock call_next s

abbrev pub inner :
    Configuration
    → Env
    → Arrival
    → HttpMetrics × (Counters × World)
    → Outcome MeasuredResponse × (HttpMetrics × (Counters × World))
inner conf env a (m, s) =
    let (r, s') = limited conf.rate_limit a (route env a.call) s in (measured conf r, (m, s'))

unfoldable pub serve :
    Configuration
    → Env
    → Arrival
    → HttpMetrics × (Counters × World)
    → Outcome MeasuredResponse × (HttpMetrics × (Counters × World))
serve conf env a s =
    measure conf.parse (request_method a.call) (label conf a) a.content_length a.duration
      (inner conf env a) s
