-- ===== src/Middleware/Metrics/Balance.antt =====
-- middleware/metrics.py: the gauge of requests in progress and the counter of requests.
use smart_http_requester.Common.{
  ℕ, ◌+◌, ◌-◌, ◌≡◌, refl, ap, ◌∙◌, String, Option, none, some, List, [], ◌∷◌, ◌++◌, arith, eq_refl,
  sym, append-nil, inl, inr,
}
use smart_http_requester.Common.Int.{ℤ}
use smart_http_requester.Session.{Outcome, Outcome-cases, ok, err}
use smart_http_requester.Middleware.Metrics.{
  HttpMetrics, MeasuredResponse, set_gauge, inc, dec, observe_request, observe_response,
  observe_result, body_size, measure,
}

-- What an ended request adds to the counter.
abbrev pub counted : String → String → Outcome MeasuredResponse → List (String × String × ℕ)
counted method endpoint (ok response) = (method, endpoint, response.status_code) ∷ []
counted method endpoint (err e) = []

observe_response-keeps :
    (parse : String → Option ℤ) (method endpoint : String) (length : Option String)
    (m : HttpMetrics)
    → ((observe_response parse method endpoint length m).in_progress ≡ m.in_progress)
      × ((observe_response parse method endpoint length m).requests_total ≡ m.requests_total)
observe_response-keeps parse method endpoint none m = (refl, refl)
observe_response-keeps parse method endpoint (some text) m = ground arith

set_gauge-get : (a b : String) (n : ℕ) (m : HttpMetrics) → (set_gauge a b n m).in_progress a b ≡ n
set_gauge-get a b n m = ground (arith, eq_refl a, eq_refl b)

observe_request-keeps :
    (method endpoint : String) (size : ℤ) (m : HttpMetrics)
    → ((observe_request method endpoint size m).in_progress ≡ m.in_progress)
      × ((observe_request method endpoint size m).requests_total ≡ m.requests_total)
observe_request-keeps method endpoint size m = (ground arith, ground arith)

lowered :
    (method endpoint : String) (n : ℕ) (m : HttpMetrics)
    → m.in_progress method endpoint ≡ n + 1
    → (dec method endpoint m).in_progress method endpoint ≡ n
lowered method endpoint n m e =
    set_gauge-get method endpoint (m.in_progress method endpoint - 1) m ∙ omega (arith, e)

-- If the rest of the program leaves the gauge where it finds it, then so does a measured request,
-- whether it answers or raises; the counter of requests gets one more entry, with the status, for
-- an answer, and none for an exception.
pub measure_balanced :
    {S : Type 0} (parse : String → Option ℤ) (method endpoint : String) (length : Option String)
    (duration : ℤ) (call_next : HttpMetrics × S → Outcome MeasuredResponse × (HttpMetrics × S))
    (m : HttpMetrics) (s : S)
    → ((v : HttpMetrics) (t : S)
        → (call_next (v, t)).1.0.in_progress method endpoint ≡ v.in_progress method endpoint)
    → ((v : HttpMetrics) (t : S) → (call_next (v, t)).1.0.requests_total ≡ v.requests_total)
    → let (r, (m', s')) = measure parse method endpoint length duration call_next (m, s) in
      (m'.in_progress method endpoint ≡ m.in_progress method endpoint)
      × (m'.requests_total ≡ m.requests_total ++ counted method endpoint r)
unfolding measure
measure_balanced parse method endpoint length duration call_next m s gauge total =
    let begun = observe_request method endpoint (body_size parse length) m in
    let v = inc method endpoint begun in
    let u = (call_next (v, s)).1.0 in
    let t = (call_next (v, s)).1.1 in
    let (same, kept) = observe_request-keeps method endpoint (body_size parse length) m in
    let here : u.in_progress method endpoint ≡ m.in_progress method endpoint + 1 =
      gauge v s
      ∙ set_gauge-get method endpoint (begun.in_progress method endpoint + 1) begun
      ∙ ap (λ (g : String → String → ℕ). g method endpoint + 1) same in
    let counts : u.requests_total ≡ m.requests_total = total v s ∙ kept in
    elim (Outcome-cases (call_next (v, s)).0) [
      | inl (response, p) ↦
          let after = observe_result parse method endpoint duration response u in
          let (low, more) =
            observe_response-keeps parse method endpoint response.content_length (record u {
              durations = u.durations ++ (method, endpoint, duration) ∷ [];
              requests_total = u.requests_total ++ (method, endpoint, response.status_code) ∷ [];
            }) in
          let run : measure parse method endpoint length duration call_next (m, s)
              ≡ (ok response, (dec method endpoint after, t)) =
            ground (arith, p) in
          rw run (
            lowered method endpoint (m.in_progress method endpoint) after
                (ap (λ (g : String → String → ℕ). g method endpoint) low ∙ here),
            more
                ∙ ap
                    (λ (ns : List (String × String × ℕ)).
                      ns ++ (method, endpoint, response.status_code) ∷ [])
                    counts,
          )
      | inr (e, p) ↦
          let run : measure parse method endpoint length duration call_next (m, s)
              ≡ (err e, (dec method endpoint u, t)) =
            ground (arith, p) in
          rw run (
            lowered method endpoint (m.in_progress method endpoint) u here,
            counts ∙ sym (append-nil m.requests_total),
          )
    ]
