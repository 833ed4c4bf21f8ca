-- ===== src/Application/Runs.antt =====
-- application.py: any number of HTTP requests, one after the other, through both middlewares.
use smart_http_requester.Common.{
  ℕ, ◌+◌, ◌*◌, ◌/◌, ◌≤◌, ◌≡◌, refl, ap, ◌∙◌, sym, subst, String, Bool, none, some, ◌&&◌,
  if◌then◌else◌, arith, inl, inr, Bool-cases, List, [], ◌∷◌,
}
use smart_http_requester.Session.{Env, World}
use smart_http_requester.Middleware.Metrics.{HttpMetrics}
use smart_http_requester.RateLimit.{Counters, Verdict, live, rate_key}
use smart_http_requester.RateLimit.Log.{
  in_window, logged, Agrees, Agrees-after, log_verdict, verdict,
}
use smart_http_requester.RateLimit.Limit.{Bounded, Bounded-empty, Bounded-logged}
use smart_http_requester.RateLimit.Runs.{InOrder}
use smart_http_requester.RateLimit.Burst.{in_minute, in_span}
use smart_http_requester.Api.Service.{Call, run_call, run_calls}
use smart_http_requester.Application.{Arrival, Configuration, limited, route, serve}
use smart_http_requester.Application.Serve.{passes, measure_inner, serve_effect}
use smart_http_requester.Application.Gate.{calls, gate, limited-gate, gate_other, gate_own}

abbrev pub State : Type 0
State = HttpMetrics × (Counters × World)

unfoldable pub serve_all : Configuration → Env → List Arrival → State → State
serve_all conf env [] s = s
serve_all conf env (a ∷ arrivals) s = serve_all conf env arrivals (serve conf env a s).1

-- The requests that the rate limiter lets pass.
abbrev pub let_through : Configuration → Env → List Arrival → State → List Arrival
let_through conf env [] s = []
let_through conf env (a ∷ arrivals) s =
    let rest = let_through conf env arrivals (serve conf env a s).1 in
    if passes conf.rate_limit a s.1.0 then a ∷ rest else rest

abbrev pub requests : List Arrival → List Call
requests [] = []
requests (a ∷ arrivals) = a.call ∷ requests arrivals

abbrev pub calls_of : String → List Arrival → List (ℕ × ℕ)
calls_of key [] = []
calls_of key (a ∷ arrivals) =
    let rest = calls_of key arrivals in if calls key a then (a.now, a.clock) ∷ rest else rest

abbrev pub visits : String → (ℕ → Bool) → List Arrival → ℕ
visits key p [] = 0
visits key p (a ∷ arrivals) =
    let rest = visits key p arrivals in if calls key a && p a.now then rest + 1 else rest

world_after :
    (conf : Configuration) (env : Env) (arrivals : List Arrival) (m : HttpMetrics) (c : Counters)
    (w : World)
    → (serve_all conf env arrivals (m, (c, w))).1.1
      ≡ run_calls env (requests (let_through conf env arrivals (m, (c, w)))) w
unfolding serve_all run_calls
world_after conf env [] m c w = refl
world_after conf env (a ∷ arrivals) m c w =
    let (m', (c', w')) = (serve conf env a (m, (c, w))).1 in
    let rest = world_after conf env arrivals m' c' w' in
    let step = (serve_effect conf env a m c w).1 in
    elim (Bool-cases (passes conf.rate_limit a c)) [
      | inl e ↦
          let e' : w' ≡ run_call env a.call w = ground (arith, e, step) in
          rw e
            (rest ∙ ap (run_calls env (requests (let_through conf env arrivals (m', (c', w'))))) e')
      | inr e ↦
          let e' : w' ≡ w = ground (arith, e, step) in
          rw e
            (rest ∙ ap (run_calls env (requests (let_through conf env arrivals (m', (c', w'))))) e')
    ]

module _ (conf : Configuration) (env : Env) (key : String) (limit : ℕ)
    (limited_by : conf.rate_limit ≡ some limit) where
  gated :
      (a : Arrival) (m : HttpMetrics) (c : Counters) (w : World)
      → (serve conf env a (m, (c, w))).1.1.0 ≡ gate limit a c
  gated a m c w =
      ap (λ (s : Counters × World). s.0) (measure_inner conf env a m (c, w)).1
      ∙ ap (λ l. (limited l a (route env a.call) (c, w)).1.0) limited_by
      ∙ limited-gate limit a (route env a.call) c w

  -- What the client has had in a minute, and has in the rest of the run.
  minute_visits :
      (n : ℕ) (arrivals : List Arrival) (m : HttpMetrics) (c : Counters) (w : World) (log : List ℕ)
      (since : ℕ)
      → InOrder since (calls_of key arrivals)
      → Agrees key c log since
      → Bounded limit log since
      → in_window n log + visits key (in_minute n) (let_through conf env arrivals (m, (c, w)))
        ≤ limit
  minute_visits n [] m c w log since o g b = let p = b.windows n in omega (arith, p)
  minute_visits n (a ∷ arrivals) m c w log since o g b =
      let (m', (c', w')) = (serve conf env a (m, (c, w))).1 in
      let step = gated a m c w in
      elim (Bool-cases (calls key a)) [
        | inl e ↦
            let (passed, after) = gate_own key limit a c e in
            let own : (since ≤ a.now)
                × (a.clock / 1000 ≡ a.now)
                × InOrder a.now (calls_of key arrivals) =
              ground (arith, o, e) in
            let (later, instant, order) = own in
            let rest =
              minute_visits n arrivals m' c' w' (logged limit a.now log) a.now order
                (subst (λ k. Agrees key k (logged limit a.now log) a.now) (sym (step ∙ after))
                  (Agrees-after key c log since a.now a.clock g later instant limit))
                (Bounded-logged limit log since a.now b later) in
            let admitted : passes conf.rate_limit a c ≡ (log_verdict limit a.now log).allowed =
              ap (λ l. passes l a c) limited_by
              ∙ passed
              ∙ ap (λ (v : Verdict). v.allowed)
                  (verdict key c log since a.now a.clock g later instant limit) in
            ground (arith, rest, admitted, e)
        | inr e ↦
            let rest =
              minute_visits n arrivals m' c' w' log since (ground (arith, o, e))
                (λ k clock x y.
                  ap (λ (f : Counters). live clock (f key k)) step
                  ∙ ap (live clock) (gate_other key limit a c k e)
                  ∙ g k clock x y)
                b in
            elim (Bool-cases (passes conf.rate_limit a c)) [
              | inl p ↦ ground (arith, rest, e, p)
              | inr p ↦ ground (arith, rest, e, p)
            ]
      ]

span_visits :
    (key : String) (start : ℕ) (arrivals : List Arrival)
    → visits key (in_span start) arrivals
      ≤ visits key (in_minute (start / 60)) arrivals
        + visits key (in_minute (start / 60 + 1)) arrivals
span_visits key start [] = ground arith
span_visits key start (a ∷ arrivals) =
    let rest = span_visits key start arrivals in ground (arith, rest)

-- Any number of HTTP requests, of any clients and with any tokens, one after
-- the other through both middlewares, from an empty store of counters: the endpoints have done what
-- they do for a sublist of the requests, those that the rate limiter let through, and no more. Of a
-- client, whose calls of the script come in order and are each served within their second, this
-- sublist has at most as many requests of an aligned minute as the limit, and at most twice as many
-- of sixty seconds in a row.
pub serve_all_effect :
    (conf : Configuration) (env : Env) (arrivals : List Arrival) (m : HttpMetrics) (w : World)
    (ip : String) (limit start : ℕ)
    → conf.rate_limit ≡ some limit
    → InOrder 0 (calls_of (rate_key ip) arrivals)
    → let passed = let_through conf env arrivals (m, ((λ k n. none), w)) in
      ((serve_all conf env arrivals (m, ((λ k n. none), w))).1.1
        ≡ run_calls env (requests passed) w)
      × (visits (rate_key ip) (in_minute start) passed ≤ limit)
      × (visits (rate_key ip) (in_span start) passed ≤ 2 * limit)
serve_all_effect conf env arrivals m w ip limit start l o =
    let bound : (n : ℕ)
        → visits (rate_key ip) (in_minute n) (let_through conf env arrivals (m, ((λ k n. none), w)))
          ≤ limit =
      λ n.
        let p =
          minute_visits conf env (rate_key ip) limit l n arrivals m (λ k n. none) w [] 0 o
            (λ n clock x y. refl) (Bounded-empty limit) in
        omega (arith, p) in
    let a = bound (start / 60) in
    let b = bound (start / 60 + 1) in
    let c =
      span_visits (rate_key ip) start (let_through conf env arrivals (m, ((λ k n. none), w))) in
    (world_after conf env arrivals m (λ k n. none) w, bound start, omega (arith, a, b, c))
