-- ===== src/Middleware/Metrics.antt =====
-- middleware/metrics.py: `MetricsMiddleware.dispatch`. What `get_endpoint_name` makes of the path
-- is an argument, as are the times before and after the request.
pub mod Balance
use smart_http_requester.Common.{
  ℕ, ◌+◌, ◌-◌, String, Bool, Option, none, some, List, [], ◌∷◌, ◌++◌, if◌then◌else◌, str_eq, ◌&&◌,
  not,
}
use smart_http_requester.Common.Int.{ℤ, pos, leb_ℤ}
use smart_http_requester.Session.{Exc, Outcome, ok, err}

-- The metrics of services/metrics.py that the middleware uses, by method and endpoint. A histogram
-- is the list of what it has observed, a counter the list of its labels, once for each `inc`.
pub record HttpMetrics : Type 0 where
  pub requests_total : List (String × String × ℕ)
  pub durations : List (String × String × ℤ)
  pub request_sizes : List (String × String × ℤ)
  pub response_sizes : List (String × String × ℤ)
  pub in_progress : String → String → ℕ

-- A response: its status and its header content-length, as text.
pub record MeasuredResponse : Type 0 where
  pub status_code : ℕ
  pub content_length : Option String

abbrev pub set_gauge : String → String → ℕ → HttpMetrics → HttpMetrics
set_gauge method endpoint n m = record m {
  in_progress = λ a b. if str_eq a method && str_eq b endpoint then n else m.in_progress a b;
}

abbrev pub inc : String → String → HttpMetrics → HttpMetrics
inc method endpoint m = set_gauge method endpoint (m.in_progress method endpoint + 1) m

-- A gauge is at least one where it is decremented: its `inc` comes before.
abbrev pub dec : String → String → HttpMetrics → HttpMetrics
dec method endpoint m = set_gauge method endpoint (m.in_progress method endpoint - 1) m

-- `int(request.headers.get("content-length", 0))`, and 0 where that raises; `parse` is `int`.
abbrev pub body_size : (String → Option ℤ) → Option String → ℤ
body_size parse none = pos 0
body_size parse (some text) = elim (parse text) [ none ↦ pos 0 | some n ↦ n ]

abbrev pub observe_request : String → String → ℤ → HttpMetrics → HttpMetrics
observe_request method endpoint size m =
    if leb_ℤ (pos 1) size
    then record m { request_sizes = m.request_sizes ++ (method, endpoint, size) ∷ [] }
    else m

abbrev pub observe_response :
    (String → Option ℤ) → String → String → Option String → HttpMetrics → HttpMetrics
observe_response parse method endpoint none m = m
observe_response parse method endpoint (some text) m = elim (parse text) [
  | none ↦ m
  | some size ↦ record m { response_sizes = m.response_sizes ++ (method, endpoint, size) ∷ [] }
]

abbrev pub observe_result :
    (String → Option ℤ) → String → String → ℤ → MeasuredResponse → HttpMetrics → HttpMetrics
observe_result parse method endpoint duration response m =
    observe_response parse method endpoint response.content_length (record m {
      durations = m.durations ++ (method, endpoint, duration) ∷ [];
      requests_total = m.requests_total ++ (method, endpoint, response.status_code) ∷ [];
    })

-- `call_next` runs the rest of the program, other requests included; `S` is the state of the rest.
-- The gauge goes down in the `finally`, whether it returns or raises.
unfoldable pub measure :
    {S : Type 0}
    → (String → Option ℤ)
    → String
    → String
    → Option String
    → ℤ
    → (HttpMetrics × S → Outcome MeasuredResponse × (HttpMetrics × S))
    → HttpMetrics × S
    → Outcome MeasuredResponse × (HttpMetrics × S)
measure parse method endpoint length duration call_next (m, s) =
    let (r, (m', s')) =
      call_next
        (inc method endpoint (observe_request method endpoint (body_size parse length) m), s) in
    elim r [
      | ok response ↦ (
        ok response,
        (dec method endpoint (observe_result parse method endpoint duration response m'), s'),
      )
      | err e ↦ (err e, (dec method endpoint m', s'))
    ]
