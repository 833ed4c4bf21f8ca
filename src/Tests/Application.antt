-- ===== src/Tests/Application.antt =====
-- One HTTP request through both middlewares, on the sample.
use smart_http_requester.Common.{
  ◌≤◌, ◌*◌, arith, List, ◌∷◌, ◌≡◌, refl, true, false, none, some, [], ◌++◌, if◌then◌else◌,
}
use smart_http_requester.Common.Int.{pos}
use smart_http_requester.Session.{ok, err, redis_error}
use smart_http_requester.Middleware.Endpoint.{within}
use smart_http_requester.Middleware.Metrics.{HttpMetrics}
use smart_http_requester.Middleware.Metrics.Balance.{counted}
use smart_http_requester.RateLimit.{Counters, check_rate_limit, rate_key, dispatch}
use smart_http_requester.RateLimit.Runs.{InOrder}
use smart_http_requester.RateLimit.Burst.{in_minute, in_span}
use smart_http_requester.Middleware.Metrics.{measure}
use smart_http_requester.Middleware.Auth.{authorization}
use smart_http_requester.Repository.Identity.{get_user_by_token}
use smart_http_requester.Domain.Tasks.{cancel_request_task}
use smart_http_requester.Repository.Task.{cancel_task, update_tasks, read_back}
use smart_http_requester.Repository.Rows.{model_validate, task_response}
use smart_http_requester.Schemas.{literal_method}
use smart_http_requester.Api.Requests.{request_delete}
use smart_http_requester.Api.Router.{delete}
use smart_http_requester.Api.Service.{tasks, run_call, run_calls}
use smart_http_requester.Application.{Arrival, Configuration, label, serve, route}
use smart_http_requester.Application.Serve.{expected, passes, status_of, serve_effect}
use smart_http_requester.Application.Runs.{
  serve_all, let_through, requests, calls_of, visits, serve_all_effect,
}
use smart_http_requester.Tests.Sample.{env, world}

code : Unit {0}
unfolding check_rate_limit dispatch measure serve route request_delete authorization
    get_user_by_token cancel_request_task cancel_task update_tasks read_back model_validate
    task_response literal_method
code = tt

abbrev conf : Configuration
conf = record {
  digit = within b'0' b'9';
  parse = λ s. some (pos 12);
  response_length = λ n. some "12";
  rate_limit = some 1;
}

abbrev deletion : Arrival
deletion = record {
  call = tasks "t-ann" (delete 50);
  path = "/v1/requests/0f8fad5b-d9cb-469f-a165-70867728950e";
  client = some "1.1.1.1";
  content_length = none;
  now = 60;
  clock = 60000;
  redis = true;
  duration = pos 1;
}

abbrev metrics : HttpMetrics
metrics = record {
  requests_total = [];
  durations = [];
  request_sizes = [];
  response_sizes = [];
  in_progress = λ a b. 3;
}

abbrev empty : Counters
empty k n = none

gates :
    (passes (some 1) deletion empty ≡ true)
    × (passes (some 0) deletion empty ≡ false)
    × (expected (some 1) (record deletion { redis = false }) empty (ok 200) ≡ err redis_error)
    × (expected (some 1) (record deletion { client = none }) empty (ok 200) ≡ ok 423)
unfolding code
gates = (refl, refl, refl, refl)

serve_effect_example :
    let (r, (m', (c', w'))) = serve conf env deletion (metrics, (empty, world)) in
    (status_of r ≡ expected (some 1) deletion empty (route env deletion.call world).0)
    × (w' ≡ (if passes (some 1) deletion empty then run_call env deletion.call world else world))
    × (m'.in_progress "DELETE" (label conf deletion) ≡ 3)
    × (m'.requests_total ≡ [] ++ counted "DELETE" (label conf deletion) r)
serve_effect_example = serve_effect conf env deletion metrics empty world

abbrev visitors : List Arrival
visitors =
    deletion
    ∷ record deletion { now = 61; clock = 61500 }
    ∷ record deletion {
      call = tasks "t-bob" (delete 50);
      client = some "2.2.2.2";
      now = 61;
      clock = 61900;
    }
    ∷ []

-- Of the client's two requests the first passes.
visitors_pass :
    let_through conf env visitors (metrics, (empty, world))
    ≡ deletion
      ∷ record deletion {
        call = tasks "t-bob" (delete 50);
        client = some "2.2.2.2";
        now = 61;
        clock = 61900;
      }
      ∷ []
unfolding code
visitors_pass = refl

visitors-InOrder : InOrder 0 (calls_of (rate_key "1.1.1.1") visitors)
visitors-InOrder = (omega arith, refl, (omega arith, refl, tt))

serve_all_effect_example :
    let passed = let_through conf env visitors (metrics, (empty, world)) in
    ((serve_all conf env visitors (metrics, (empty, world))).1.1
      ≡ run_calls env (requests passed) world)
    × (visits (rate_key "1.1.1.1") (in_minute 1) passed ≤ 1)
    × (visits (rate_key "1.1.1.1") (in_span 1) passed ≤ 2 * 1)
serve_all_effect_example =
    serve_all_effect conf env visitors metrics world "1.1.1.1" 1 1 refl visitors-InOrder
