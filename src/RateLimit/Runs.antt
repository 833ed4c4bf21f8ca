-- ===== src/RateLimit/Runs.antt =====
-- services/redis_service.py: a client's sequence of calls of `check_rate_limit`.
use smart_http_requester.Common.{ℕ, ◌/◌, ◌≤◌, ◌≡◌, refl, String, none, List, [], ◌∷◌}
use smart_http_requester.RateLimit.{Counters, check_rate_limit, Verdict}
use smart_http_requester.RateLimit.Log.{logged, Agrees, Agrees-after, verdict, log_verdict}

-- The calls of one client, each with the caller's time and the store's.
abbrev pub run : String → ℕ → List (ℕ × ℕ) → Counters → List Verdict
run key limit [] counters = []
run key limit ((now, clock) ∷ calls) counters =
    let (v, counters') = check_rate_limit key limit 60 now clock counters in
    v ∷ run key limit calls counters'

-- The same calls by the log of the admitted times.
abbrev pub run_log : ℕ → List (ℕ × ℕ) → List ℕ → List Verdict
run_log limit [] log = []
run_log limit ((now, clock) ∷ calls) log =
    log_verdict limit now log ∷ run_log limit calls (logged limit now log)

-- The times do not decrease, and the script runs in the second in which it was called.
abbrev pub InOrder : ℕ → List (ℕ × ℕ) → Type 0
InOrder since [] = Unit
InOrder since ((now, clock) ∷ calls) = (since ≤ now) × (clock / 1000 ≡ now) × InOrder now calls

run-Agrees :
    (key : String) (limit : ℕ) (calls : List (ℕ × ℕ)) (counters : Counters) (log : List ℕ)
    (since : ℕ)
    → InOrder since calls
    → Agrees key counters log since
    → run key limit calls counters ≡ run_log limit calls log
run-Agrees key limit [] counters log since o a = refl
run-Agrees key limit ((now, clock) ∷ calls) counters log since (later, instant, o) a =
    rw
      (
        verdict key counters log since now clock a later instant limit,
        run-Agrees key limit calls (check_rate_limit key limit 60 now clock counters).1
            (logged limit now log) now o
            (Agrees-after key counters log since now clock a later instant limit),
      )
      refl

-- From an empty store, the counters of the script with their expiry answer a client's calls as
-- the sliding window over the log of the admitted times does: no counter expires while it is of
-- use, provided that times do not decrease and a call reaches Redis within its second.
pub run-run_log :
    (key : String) (limit : ℕ) (calls : List (ℕ × ℕ))
    → InOrder 0 calls
    → run key limit calls (λ k n. none) ≡ run_log limit calls []
run-run_log key limit calls o = run-Agrees key limit calls (λ k n. none) [] 0 o λ n clock p q. refl
