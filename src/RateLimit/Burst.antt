-- ===== src/RateLimit/Burst.antt =====
-- services/redis_service.py and middleware/rate_limit.py: how many requests of a client pass.
use smart_http_requester.Common.{
  ℕ, zero, suc, ◌+◌, ◌*◌, ◌/◌, ◌≤◌, ◌≡◌, refl, String, Bool, true, false, Option, none, some,
  if◌then◌else◌, ◌==◌, ◌&&◌, ltb, leb, str_eq, arith, List, [], ◌∷◌, Bool-cases, ◌⊎◌, inl, inr,
}
use smart_http_requester.RateLimit.{
  Counter, Counters, check_rate_limit, Verdict, set, expire_previous, incremented, dispatch,
  rate_key,
}
use smart_http_requester.Session.{Outcome}
use smart_http_requester.RateLimit.Log.{in_window, logged}
use smart_http_requester.RateLimit.Runs.{run, run_log, InOrder, run-run_log}
use smart_http_requester.RateLimit.Limit.{Bounded, Bounded-empty, Bounded-logged}

-- The calls that pass `p` and were admitted.
abbrev pub admissions : (ℕ → Bool) → List (ℕ × ℕ) → List Verdict → ℕ
admissions p [] vs = 0
admissions p (c ∷ calls) [] = 0
admissions p ((now, clock) ∷ calls) (v ∷ vs) =
    if p now && v.allowed then admissions p calls vs + 1 else admissions p calls vs

abbrev pub in_minute : ℕ → ℕ → Bool
in_minute n now = now / 60 == n

-- The sixty seconds from `start`.
abbrev pub in_span : ℕ → ℕ → Bool
in_span start now = leb start now && ltb now (start + 60)

run_log-admissions :
    (n limit : ℕ) (calls : List (ℕ × ℕ)) (log : List ℕ) (since : ℕ)
    → InOrder since calls
    → Bounded limit log since
    → in_window n log + admissions (in_minute n) calls (run_log limit calls log) ≤ limit
run_log-admissions n limit [] log since o b = let p = b.windows n in omega (arith, p)
run_log-admissions n limit ((now, clock) ∷ calls) log since (later, instant, o) b =
    let rest =
      run_log-admissions n limit calls (logged limit now log) now o
        (Bounded-logged limit log since now b later) in
    ground (arith, rest)

pub window_admissions :
    (key : String) (n limit : ℕ) (calls : List (ℕ × ℕ))
    → InOrder 0 calls
    → admissions (in_minute n) calls (run key limit calls (λ k m. none)) ≤ limit
window_admissions key n limit calls o =
    rw (run-run_log key limit calls o)
      (let p = run_log-admissions n limit calls [] 0 o (Bounded-empty limit) in omega (arith, p))

span_admissions :
    (start : ℕ) (calls : List (ℕ × ℕ)) (vs : List Verdict)
    → admissions (in_span start) calls vs
      ≤ admissions (in_minute (start / 60)) calls vs
        + admissions (in_minute (start / 60 + 1)) calls vs
span_admissions start [] vs = ground arith
span_admissions start (c ∷ calls) [] = ground arith
span_admissions start ((now, clock) ∷ calls) (v ∷ vs) =
    let rest = span_admissions start calls vs in ground (arith, rest)

-- From an empty store, with times that do not decrease and calls served within their second: of a
-- client's calls no aligned minute admits more than the limit, and no sixty seconds in a row admit
-- more than twice the limit.
admissions_bounded :
    (key : String) (limit : ℕ) (calls : List (ℕ × ℕ)) (start : ℕ)
    → InOrder 0 calls
    → (admissions (in_minute start) calls (run key limit calls (λ k m. none)) ≤ limit)
      × (admissions (in_span start) calls (run key limit calls (λ k m. none)) ≤ 2 * limit)
admissions_bounded key limit calls start o =
    let a = window_admissions key (start / 60) limit calls o in
    let b = window_admissions key (start / 60 + 1) limit calls o in
    let c = span_admissions start calls (run key limit calls (λ k m. none)) in
    (window_admissions key start limit calls o, omega (arith, a, b, c))

expire_keeps :
    (key other : String) (clock m n : ℕ) (x : Option Counter) (cs : Counters)
    → str_eq other key ≡ false
    → expire_previous clock 60 key m (set key m x cs) other n ≡ cs other n
expire_keeps key other clock zero n x cs e = ground arith
expire_keeps key other clock (suc m) n x cs e = ground arith

pub check_keeps :
    (key other : String) (limit now clock n : ℕ) (cs : Counters)
    → str_eq other key ≡ false
    → (check_rate_limit key limit 60 now clock cs).1 other n ≡ cs other n
unfolding check_rate_limit
check_keeps key other limit now clock n cs e = ground (
  arith,
  expire_keeps key other clock (now / 60) n (incremented clock 60 (cs key (now / 60))) cs e,
)

refused_keeps :
    (key : String) (limit now clock : ℕ) (cs : Counters)
    → (check_rate_limit key limit 60 now clock cs).0.allowed ≡ false
    → (check_rate_limit key limit 60 now clock cs).1 ≡ cs
unfolding check_rate_limit
refused_keeps key limit now clock cs r = ground arith

-- A request from an address changes no counter of another one; and where the limiter does not
-- admit it, or Redis does not answer, neither its own counters nor the rest of the program's state.
dispatch_isolates :
    {S : Type 0} (redis : Bool) (ip other : String) (limit now clock n : ℕ)
    (call_next : S → Outcome ℕ × S) (cs : Counters) (s : S)
    → str_eq (rate_key other) (rate_key ip) ≡ false
    → let after = (dispatch redis (some ip) limit now clock call_next (cs, s)).1 in
      (after.0 (rate_key other) n ≡ cs (rate_key other) n)
      × (((redis && (check_rate_limit (rate_key ip) limit 60 now clock cs).0.allowed) ≡ true)
          ⊎ (after ≡ (cs, s)))
unfolding dispatch
dispatch_isolates false ip other limit now clock n call_next cs s e = (refl, inr refl)
dispatch_isolates true ip other limit now clock n call_next cs s e =
    let k = check_keeps (rate_key ip) (rate_key other) limit now clock n cs e in
    (
      ground (arith, k),
      elim (Bool-cases (check_rate_limit (rate_key ip) limit 60 now clock cs).0.allowed) [
        | inl r ↦ inl r
        | inr r ↦
            inr (let h = refused_keeps (rate_key ip) limit now clock cs r in ground (arith, h, r))
      ],
    )
