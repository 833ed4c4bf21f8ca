-- ===== src/Application/Serve.antt =====
-- application.py: what one HTTP request does, through both middlewares.
use smart_http_requester.Common.{
  ℕ, ◌≡◌, refl, ap, ◌∙◌, String, Bool, true, false, Option, none, some, ◌++◌, ◌&&◌, not,
  if◌then◌else◌, arith, inl, inr, Option-cases,
}
use smart_http_requester.Session.{Outcome, Outcome-cases, ok, err, Env, World, redis_error}
use smart_http_requester.Middleware.Metrics.{HttpMetrics, MeasuredResponse, measure}
use smart_http_requester.Middleware.Metrics.Balance.{counted, measure_balanced}
use smart_http_requester.RateLimit.{Counters, Response, dispatch, check_rate_limit, rate_key}
use smart_http_requester.Api.Router.{
  Request, create, create_batch, info, delete, user_tasks, update, run,
}
use smart_http_requester.Api.Service.{
  Call, tasks, register, login, docs_token, logout, refresh, me, metrics, fake_status, run_call,
}
use smart_http_requester.Application.{
  answered, request_method, task_route, route, Arrival, Configuration, label, measured, limited,
  inner, serve,
}

-- Whether the rate limiter lets the request pass: there is an address, Redis answers, and the limit
-- is not reached.
abbrev pub passes : Option ℕ → Arrival → Counters → Bool
passes none a counters = true
passes (some limit) a counters = elim a.client [
  | none ↦ false
  | some ip ↦ a.redis && (check_rate_limit (rate_key ip) limit 60 a.now a.clock counters).0.allowed
]

answered-world : {A : Type 0} (p : Outcome A × World) → (answered p).1 ≡ p.1
answered-world p = ground arith

task_route-run :
    (env : Env) (token : String) (q : Request) (w : World)
    → (task_route env token q w).1 ≡ run env token q w
unfolding run
task_route-run env token (create body) w = answered-world _
task_route-run env token (create_batch bodies) w = answered-world _
task_route-run env token (info i) w = answered-world _
task_route-run env token (delete i) w = answered-world _
task_route-run env token (user_tasks skip limit) w = answered-world _
task_route-run env token (update i body) w = answered-world _

route-run_call : (env : Env) (c : Call) (w : World) → (route env c w).1 ≡ run_call env c w
unfolding route run_call
route-run_call env (tasks token q) w = task_route-run env token q w
route-run_call env (register username password_hash) w = answered-world _
route-run_call env (login username password_hash) w = answered-world _
route-run_call env (docs_token username password) w = answered-world _
route-run_call env (logout token) w = answered-world _
route-run_call env (refresh token) w = answered-world _
route-run_call env (me token) w = answered-world _
route-run_call env metrics w = refl
route-run_call env (fake_status n) w = refl

-- What the client is answered, by what the endpoint answers; an exception becomes 500 in the
-- server.
abbrev pub expected : Option ℕ → Arrival → Counters → Outcome ℕ → Outcome ℕ
expected none a counters reply = reply
expected (some limit) a counters reply = elim a.client [
  | none ↦ ok 423
  | some ip ↦
      if not a.redis
      then err redis_error
      else if (check_rate_limit (rate_key ip) limit 60 a.now a.clock counters).0.allowed
      then reply
      else ok 429
]

abbrev pub response_status : Outcome Response → Outcome ℕ
response_status (ok r) = ok r.status
response_status (err e) = err e

abbrev pub status_of : Outcome MeasuredResponse → Outcome ℕ
status_of (ok r) = ok r.status_code
status_of (err e) = err e

status-measured :
    (conf : Configuration) (r : Outcome Response) → status_of (measured conf r) ≡ response_status r
status-measured conf (ok r) = refl
status-measured conf (err e) = refl

-- The limiter runs the endpoint where it lets the request pass, and nothing where it does not.
limited_lem :
    (limit : Option ℕ) (a : Arrival) (call_next : World → Outcome ℕ × World) (c : Counters)
    (w : World)
    → let (r, (c', w')) = limited limit a call_next (c, w) in
      (response_status r ≡ expected limit a c (call_next w).0)
      × (w' ≡ (if passes limit a c then (call_next w).1 else w))
unfolding dispatch
limited_lem none a call_next c w = elim (Outcome-cases (call_next w).0) [
  | inl (n, e) ↦ (ground (arith, e), refl)
  | inr (x, e) ↦ (ground (arith, e), refl)
]
limited_lem (some limit) a call_next c w = elim (Option-cases a.client) [
  | inl n ↦ (ground (arith, n), ground (arith, n))
  | inr (ip, n) ↦ elim (Outcome-cases (call_next w).0) [
    | inl (status, e) ↦ (ground (arith, n, e), ground (arith, n, e))
    | inr (x, e) ↦ (ground (arith, n, e), ground (arith, n, e))
  ]
]

-- The rest of the program sees its own state through the metrics.
pub measure_inner :
    (conf : Configuration) (env : Env) (a : Arrival) (m : HttpMetrics) (s : Counters × World)
    → let (r, (m', s')) = serve conf env a (m, s) in
      let (r', s'') = limited conf.rate_limit a (route env a.call) s in
      (r ≡ measured conf r') × (s' ≡ s'')
unfolding serve measure
measure_inner conf env a m s =
    elim (Outcome-cases (measured conf (limited conf.rate_limit a (route env a.call) s).0)) [
      | inl (r, e) ↦ (ground (arith, e), ground (arith, e))
      | inr (x, e) ↦ (ground (arith, e), ground (arith, e))
    ]

-- One HTTP request, through both middlewares. It runs the endpoint exactly if
-- the rate limiter lets it pass, and then is answered as the endpoint answers; if not, with 423
-- without an address, 429 beyond the limit, and by an exception if Redis does not answer, and what
-- the endpoints work on does not change. The gauge of requests in progress is as before, and an
-- answer is counted once under its status, also a 429.
pub serve_effect :
    (conf : Configuration) (env : Env) (a : Arrival) (m : HttpMetrics) (c : Counters) (w : World)
    → let (r, (m', (c', w'))) = serve conf env a (m, (c, w)) in
      (status_of r ≡ expected conf.rate_limit a c (route env a.call w).0)
      × (w' ≡ (if passes conf.rate_limit a c then run_call env a.call w else w))
      × (m'.in_progress (request_method a.call) (label conf a)
          ≡ m.in_progress (request_method a.call) (label conf a))
      × (m'.requests_total ≡ m.requests_total ++ counted (request_method a.call) (label conf a) r)
unfolding serve
serve_effect conf env a m c w =
    let (p, q) = measure_inner conf env a m (c, w) in
    let (x, y) = limited_lem conf.rate_limit a (route env a.call) c w in
    let (gauge, total) =
      measure_balanced conf.parse (request_method a.call) (label conf a) a.content_length a.duration
        (inner conf env a) m (c, w) (λ v t. refl) (λ v t. refl) in
    (
      ap status_of p ∙ status-measured conf _ ∙ x,
      ap (λ (s : Counters × World). s.1) q
          ∙ y
          ∙ ap (λ (v : World). if passes conf.rate_limit a c then v else w)
              (route-run_call env a.call w),
      gauge,
      total,
    )
