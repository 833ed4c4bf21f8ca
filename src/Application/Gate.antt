-- ===== src/Application/Gate.antt =====
-- middleware/rate_limit.py in application.py: what one HTTP request does to the counters.
use smart_http_requester.Common.{
  ℕ, ◌≡◌, sym, subst, String, Bool, true, false, none, some, ◌&&◌, if◌then◌else◌, arith, inl, inr,
  Bool-cases, Option-cases, str_eq, eq_iff,
}
use smart_http_requester.Session.{Outcome, Outcome-cases, World}
use smart_http_requester.RateLimit.{Counters, dispatch, check_rate_limit, rate_key}
use smart_http_requester.RateLimit.Burst.{check_keeps}
use smart_http_requester.Application.{Arrival, limited}
use smart_http_requester.Application.Serve.{passes}

-- Whether the script runs for the request, with this key.
abbrev pub calls : String → Arrival → Bool
calls key a = elim a.client [ none ↦ false | some ip ↦ a.redis && str_eq key (rate_key ip) ]

-- The counters after a request.
abbrev pub gate : ℕ → Arrival → Counters → Counters
gate limit a c = elim a.client [
  | none ↦ c
  | some ip ↦ if a.redis then (check_rate_limit (rate_key ip) limit 60 a.now a.clock c).1 else c
]

pub limited-gate :
    (limit : ℕ) (a : Arrival) (call_next : World → Outcome ℕ × World) (c : Counters) (w : World)
    → (limited (some limit) a call_next (c, w)).1.0 ≡ gate limit a c
unfolding dispatch
limited-gate limit a call_next c w = elim (Option-cases a.client) [
  | inl n ↦ ground (arith, n)
  | inr (ip, n) ↦ elim (Outcome-cases (call_next w).0) [
    | inl (status, e) ↦ ground (arith, n, e)
    | inr (x, e) ↦ ground (arith, n, e)
  ]
]

pub gate_other :
    (key : String) (limit : ℕ) (a : Arrival) (c : Counters) (n : ℕ)
    → calls key a ≡ false
    → gate limit a c key n ≡ c key n
gate_other key limit a c n h = elim (Option-cases a.client) [
  | inl e ↦ ground (arith, e)
  | inr (ip, e) ↦ elim (Bool-cases a.redis) [
    | inl r ↦
        let other : str_eq key (rate_key ip) ≡ false = ground (arith, e, r, h) in
        let k = check_keeps (rate_key ip) key limit a.now a.clock n c other in
        ground (arith, e, r, k)
    | inr r ↦ ground (arith, e, r)
  ]
]

pub gate_own :
    (key : String) (limit : ℕ) (a : Arrival) (c : Counters)
    → calls key a ≡ true
    → (passes (some limit) a c ≡ (check_rate_limit key limit 60 a.now a.clock c).0.allowed)
      × (gate limit a c ≡ (check_rate_limit key limit 60 a.now a.clock c).1)
gate_own key limit a c h = elim (Option-cases a.client) [
  | inl e ↦ absurd (ground (arith, e, h))
  | inr (ip, e) ↦
      let r : a.redis ≡ true = ground (arith, e, h) in
      let q : str_eq key (rate_key ip) ≡ true = ground (arith, e, h) in
      subst
        (λ k.
          (passes (some limit) a c ≡ (check_rate_limit k limit 60 a.now a.clock c).0.allowed)
          × (gate limit a c ≡ (check_rate_limit k limit 60 a.now a.clock c).1))
        (sym ((eq_iff key (rate_key ip)).0 q)) (ground (arith, e, r), ground (arith, e, r))
]
