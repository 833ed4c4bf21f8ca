-- ===== src/Tests/RateLimit.antt =====
-- The rate limiter on short sequences of calls.
use smart_http_requester.Common.{
  ℕ, ◌≤◌, ◌≡◌, refl, true, false, none, List, [], ◌∷◌, map, arith, Bool,
}
use smart_http_requester.RateLimit.{Verdict, check_rate_limit, Counters}
use smart_http_requester.RateLimit.Runs.{run, run_log, InOrder, run-run_log}
use smart_http_requester.RateLimit.Liveness.{window_served}
use smart_http_requester.RateLimit.Burst.{admissions, in_minute}

abbrev calls : List (ℕ × ℕ)
calls = (60, 60500) ∷ (61, 61000) ∷ (62, 62000) ∷ (121, 121000) ∷ (150, 150100) ∷ (300, 300000) ∷ []

-- Each call was served within its second.
calls-InOrder : InOrder 0 calls
calls-InOrder = (
  omega arith,
  refl,
  (
    omega arith,
    refl,
    (omega arith, refl, (omega arith, refl, (omega arith, refl, (omega arith, refl, tt)))),
  ),
)

abbrev allowed_of : Verdict → Bool
allowed_of v = v.allowed

run_test :
    map allowed_of (run "k" 2 calls (λ k n. none)) ≡ true ∷ true ∷ false ∷ true ∷ false ∷ true ∷ []
unfolding check_rate_limit
run_test = refl

run-run_log_example : run "k" 2 calls (λ k n. none) ≡ run_log 2 calls []
run-run_log_example = run-run_log "k" 2 calls calls-InOrder

served_calls-InOrder : InOrder 0 ((60, 60500) ∷ (60, 60600) ∷ (121, 121000) ∷ [])
served_calls-InOrder = (omega arith, refl, (omega arith, refl, (omega arith, refl, tt)))

window_served_example :
    1
    ≤ admissions
        (in_minute 2)
        ((60, 60500) ∷ (60, 60600) ∷ (121, 121000) ∷ [])
        (run "k" 2 ((60, 60500) ∷ (60, 60600) ∷ (121, 121000) ∷ []) (λ k m. none))
window_served_example =
    window_served "k" 2 121 121000 ((60, 60500) ∷ (60, 60600) ∷ []) (omega arith) (omega arith)
      served_calls-InOrder

-- At the time that X-RateLimit-Reset names, a client that has used up its limit is refused,
-- although it has made no request in the new minute.
reset_test :
    run "k" 2 ((60, 60500) ∷ (60, 60600) ∷ (120, 120000) ∷ []) (λ k m. none)
    ≡ record { allowed = true; total = 1; reset_time = 120 }
      ∷ record { allowed = true; total = 2; reset_time = 120 }
      ∷ record { allowed = false; total = 2; reset_time = 180 }
      ∷ []
unfolding check_rate_limit
reset_test = refl

abbrev empty : Counters
empty k n = none
