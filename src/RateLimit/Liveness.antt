-- ===== src/RateLimit/Liveness.antt =====
-- services/redis_service.py: a client that calls is not refused for ever.
use native.Mathlib.Nat.{mul-le-mul_left}
use smart_http_requester.Common.{
  ==_iff, ℕ, zero, suc, ◌+◌, ◌-◌, ◌*◌, ◌/◌, ◌%◌, ◌≤◌, ◌<◌, ◌≡◌, String, false, none, ◌++◌, ◌==◌,
  arith, List, [], ◌∷◌, Bool-cases, inl, inr,
}
use smart_http_requester.RateLimit.Log.{in_window, before_window, refuses, logged}
use smart_http_requester.RateLimit.Runs.{run, run_log, InOrder, run-run_log}
use smart_http_requester.RateLimit.Limit.{Bounded, Bounded-empty, Bounded-logged}
use smart_http_requester.RateLimit.Burst.{admissions, in_minute}

module _ (limit now clock : ℕ) (some_limit : 1 ≤ limit) (elapsed : 0 < now % 60) where
  before_le : (log : List ℕ) (since n : ℕ) → Bounded limit log since → before_window n log ≤ limit
  before_le log since zero b = omega arith
  before_le log since (suc n) b = b.windows n

  -- Where the minute has no admission yet, the last one weighs less than it has.
  first_admitted :
      (log : List ℕ) (since : ℕ)
      → Bounded limit log since
      → in_window (now / 60) log ≡ 0
      → refuses limit now log ≡ false
  first_admitted log since b e =
      let p = before_le log since (now / 60) b in
      let q : before_window (now / 60) log * (60 - now % 60) ≤ before_window (now / 60) log * 59 =
        mul-le-mul_left (before_window (now / 60) log) (omega (arith, elapsed)) in
      ground (arith, p, q, e, some_limit)

  run_log-served :
      (calls : List (ℕ × ℕ)) (log : List ℕ) (since : ℕ)
      → InOrder since (calls ++ (now, clock) ∷ [])
      → Bounded limit log since
      → 1
        ≤ in_window (now / 60) log
          + admissions
              (in_minute (now / 60))
              (calls ++ (now, clock) ∷ [])
              (run_log limit (calls ++ (now, clock) ∷ []) log)
  run_log-served [] log since o b = elim (Bool-cases (in_window (now / 60) log == 0)) [
    | inl z ↦
        let r = first_admitted log since b ((==_iff (in_window (now / 60) log) 0).0 z) in
        ground (arith, r)
    | inr z ↦ ground (arith, z)
  ]
  run_log-served ((t, c) ∷ calls) log since (later, instant, o) b =
      let rest =
        run_log-served calls (logged limit t log) t o (Bounded-logged limit log since t b later) in
      ground (arith, rest)

-- From an empty store, with times that do not decrease and calls served within their second, and
-- with a limit of one at least: of a minute in which a client calls after the first second, one
-- call at least is admitted, so that a client that goes on calling is served in each minute,
-- however many calls were refused.
pub window_served :
    (key : String) (limit now clock : ℕ) (calls : List (ℕ × ℕ))
    → 1 ≤ limit
    → 0 < now % 60
    → InOrder 0 (calls ++ (now, clock) ∷ [])
    → 1
      ≤ admissions
          (in_minute (now / 60))
          (calls ++ (now, clock) ∷ [])
          (run key limit (calls ++ (now, clock) ∷ []) (λ k m. none))
window_served key limit now clock calls l e o =
    rw (run-run_log key limit (calls ++ (now, clock) ∷ []) o) (
      let p = run_log-served limit now clock l e calls [] 0 o (Bounded-empty limit) in
      omega (arith, p))
