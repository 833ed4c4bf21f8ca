-- ===== src/Api/Service.antt =====
-- The whole of api/v1/ as one function of the call (`router` of api/v1/__init__.py), and a sequence
-- of calls.
use smart_http_requester.Common.{ℕ, String, List, [], ◌∷◌}
use smart_http_requester.Session.{Env, World}
use smart_http_requester.Api.Router.{Request, run}
use smart_http_requester.Api.Auth.{
  auth_register, auth_login, auth_logout, auth_refresh, auth_verify, auth_token,
}

-- A task endpoint gets the token of the request. The credentials are the name and the password, or
-- its digest.
pub data Call : Type 0 where
  tasks : String → Request → Call
  register login docs_token : String → String → Call
  logout refresh me : String → Call
  metrics : Call
  fake_status : ℕ → Call

-- The state after a call.
unfoldable pub run_call : Env → Call → World → World
run_call env (tasks token q) w = run env token q w
run_call env (register username password_hash) w = (auth_register username password_hash env w).1
run_call env (login username password_hash) w = (auth_login username password_hash env w).1
run_call env (docs_token username password) w = (auth_token username password env w).1
run_call env (logout token) w = (auth_logout token env w).1
run_call env (refresh token) w = (auth_refresh token env w).1
run_call env (me token) w = (auth_verify token env w).1
run_call env metrics w = w
run_call env (fake_status n) w = w

unfoldable pub run_calls : Env → List Call → World → World
run_calls env [] w = w
run_calls env (c ∷ cs) w = run_calls env cs (run_call env c w)
