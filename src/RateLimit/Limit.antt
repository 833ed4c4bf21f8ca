-- ===== src/RateLimit/Limit.antt =====
-- services/redis_service.py and middleware/rate_limit.py: what the limiter admits, and the header
-- X-RateLimit-Remaining.
use native.Mathlib.Nat.{mul-le-mul_left}
use smart_http_requester.Common.{
  ℕ, zero, suc, ◌+◌, ◌-◌, ◌*◌, ◌/◌, ◌%◌, ◌≤◌, ◌<◌, ◌≡◌, ◌≢◌, refl, sym, String, true, false, none,
  ◌==◌, ltb, arith, List, [], ◌∷◌, Bool-cases, inl, inr, ap, All, ==_iff, subst,
}
use smart_http_requester.Common.Int.{pos, ◌≤ℤ◌}
use smart_http_requester.RateLimit.{Verdict, weigh, headers_of}
use smart_http_requester.RateLimit.Log.{
  in_window, before_window, weight, refuses, logged, log_verdict,
}
use smart_http_requester.RateLimit.Runs.{run, run_log, InOrder, run-run_log}

-- What holds of the log: nothing lies in the future, no window is over the limit, nor is the
-- sliding one by a whole admission.
pub record Bounded (limit : ℕ) (log : List ℕ) (since : ℕ) : Type 0 where
  pub past : (n : ℕ) → since / 60 < n → in_window n log ≡ 0
  pub windows : (n : ℕ) → in_window n log ≤ limit
  pub sliding : (now : ℕ) → since ≤ now → weight now log < limit * 60 + 60

lt_of : (a b : ℕ) → ltb a b ≡ true → a < b
lt_of a b h = ground arith

gt_of : (a b : ℕ) → (a == b) ≡ false → ltb a b ≡ false → b < a
gt_of a b h k = ground arith

ne_of : (m n : ℕ) → (m == n) ≡ false → m ≢ n
ne_of m n h = ground arith

at :
    (t n : ℕ) (log : List ℕ)
    → t / 60 ≡ n
    → weight t log ≡ weigh 60 (in_window n log) (before_window n log) t
at t n log e = ap (λ (k : ℕ). weigh 60 (in_window k log) (before_window k log) t) e

pub Bounded-empty : (limit : ℕ) → Bounded limit [] 0
Bounded-empty limit = record {
  past = λ n h. refl;
  windows = λ n. omega arith;
  sliding = λ now h. ground arith;
}

admitted :
    (limit now : ℕ) (log : List ℕ) → refuses limit now log ≡ false → weight now log < limit * 60
admitted limit now log r = ground arith

module _ (limit : ℕ) (log : List ℕ) (since now : ℕ) (b : Bounded limit log since)
    (later : since ≤ now) (r : refuses limit now log ≡ false) where
  in_window_new : (n : ℕ) → n ≡ now / 60 → in_window n (now ∷ log) ≡ in_window n log + 1
  in_window_new n e = ground arith

  in_window_old : (n : ℕ) → n ≢ now / 60 → in_window n (now ∷ log) ≡ in_window n log
  in_window_old n e = ground arith

  room : in_window (now / 60) log < limit
  room = let p = admitted limit now log r in omega arith

  before_old : (k : ℕ) → k ≡ now / 60 → before_window k (now ∷ log) ≡ before_window k log
  before_old zero e = refl
  before_old (suc n) e = in_window_old n (omega arith)

  same_window : (t : ℕ) → now ≤ t → t / 60 ≡ now / 60 → weight t (now ∷ log) < limit * 60 + 60
  same_window t h e =
      let p = admitted limit now log r in
      let q : before_window (now / 60) log * (60 - t % 60)
          ≤ before_window (now / 60) log * (60 - now % 60) =
        mul-le-mul_left (before_window (now / 60) log) (omega arith) in
      rw (at t (now / 60) (now ∷ log) e, in_window_new (now / 60) refl, before_old (now / 60) refl)
        (omega arith)

  next_window :
      (t n : ℕ)
      → t / 60 ≡ suc n
      → n ≡ now / 60
      → weigh 60 (in_window (suc n) (now ∷ log)) (in_window n (now ∷ log)) t < limit * 60 + 60
  next_window t n e f =
      let q : (in_window n log + 1) * (60 - t % 60) ≤ (in_window n log + 1) * 60 =
        mul-le-mul_left (in_window n log + 1) (omega arith) in
      let m : in_window n log < limit = subst (λ (k : ℕ). in_window k log < limit) (sym f) room in
      rw (in_window_old (suc n) (omega arith), in_window_new n f, b.past (suc n) (omega arith))
        (omega (arith, f, m))

  later_window :
      (t n : ℕ)
      → now / 60 < n
      → weigh 60 (in_window (suc n) (now ∷ log)) (in_window n (now ∷ log)) t < limit * 60 + 60
  later_window t n h =
      rw
        (
          in_window_old (suc n) (omega arith),
          in_window_old n (omega arith),
          b.past (suc n) (omega arith),
          b.past n (omega arith),
        )
        (omega arith)

  sliding_new : (t m : ℕ) → now ≤ t → t / 60 ≡ m → weight t (now ∷ log) < limit * 60 + 60
  sliding_new t zero h e = same_window t h (omega arith)
  sliding_new t (suc n) h e = elim (Bool-cases (n == now / 60)) [
    | inl f ↦ rw (at t (suc n) (now ∷ log) e) (next_window t n e ((==_iff n (now / 60)).0 f))
    | inr f ↦ elim (Bool-cases (ltb n (now / 60))) [
      | inl g ↦ same_window t h (let p = lt_of n (now / 60) g in omega (arith, p))
      | inr g ↦ rw (at t (suc n) (now ∷ log) e) (later_window t n (gt_of n (now / 60) f g))
    ]
  ]

  Bounded-admit : Bounded limit (now ∷ log) now
  Bounded-admit = record {
    past = λ n h. rw (in_window_old n (omega (arith, h))) (b.past n (omega (arith, h)));
    windows = λ n. elim (Bool-cases (n == now / 60)) [
      | inl f ↦
          let p : n ≡ now / 60 = (==_iff n (now / 60)).0 f in
          let m : in_window n log < limit =
            subst (λ (k : ℕ). in_window k log < limit) (sym p) room in
          rw (in_window_new n p) (omega (arith, m))
      | inr f ↦ rw (in_window_old n (ne_of n (now / 60) f)) (b.windows n)
    ];
    sliding = λ t h. sliding_new t (t / 60) h refl;
  }

pub Bounded-logged :
    (limit : ℕ) (log : List ℕ) (since now : ℕ)
    → Bounded limit log since
    → since ≤ now
    → Bounded limit (logged limit now log) now
Bounded-logged limit log since now b later = elim (Bool-cases (refuses limit now log)) [
  | inl r ↦ rw r (record {
    past = λ n h. b.past n (omega (arith, h));
    windows = b.windows;
    sliding = λ t h. b.sliding t (omega (arith, h));
  })
  | inr r ↦ rw r (Bounded-admit limit log since now b later r)
]

reply-Bounded :
    (limit : ℕ) (log : List ℕ) (since now : ℕ)
    → Bounded limit log since
    → since ≤ now
    → (log_verdict limit now log).total ≤ limit
reply-Bounded limit log since now b later = elim (Bool-cases (refuses limit now log)) [
  | inl r ↦ let p = b.sliding now later in rw r (omega (arith, p))
  | inr r ↦ let p = admitted limit now log r in rw r (omega (arith, p))
]

run_log-Bounded :
    (limit : ℕ) (calls : List (ℕ × ℕ)) (log : List ℕ) (since : ℕ)
    → InOrder since calls
    → Bounded limit log since
    → All (λ (v : Verdict). v.total ≤ limit) (run_log limit calls log)
run_log-Bounded limit [] log since o b = tt
run_log-Bounded limit ((now, clock) ∷ calls) log since (later, instant, o) b = (
  reply-Bounded limit log since now b later,
  run_log-Bounded limit calls (logged limit now log) now o
      (Bounded-logged limit log since now b later),
)

remaining_of :
    (limit : ℕ) (calls : List (ℕ × ℕ)) (vs : List Verdict)
    → All (λ (v : Verdict). v.total ≤ limit) vs
    → All (λ (v : Verdict). pos 0 ≤ℤ (headers_of limit v).remaining) vs
remaining_of limit calls [] h = tt
remaining_of limit calls (v ∷ vs) (h, hs) = (ground arith, remaining_of limit calls vs hs)

-- In no reply to a client's calls, from an empty store, in order and each served within its second,
-- is the header X-RateLimit-Remaining negative.
remaining_nonneg :
    (key : String) (limit : ℕ) (calls : List (ℕ × ℕ))
    → InOrder 0 calls
    → All
        (λ (v : Verdict). pos 0 ≤ℤ (headers_of limit v).remaining)
        (run key limit calls (λ k n. none))
remaining_nonneg key limit calls o =
    rw (run-run_log key limit calls o)
      (remaining_of limit calls _ (run_log-Bounded limit calls [] 0 o (Bounded-empty limit)))
