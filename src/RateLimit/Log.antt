-- ===== src/RateLimit/Log.antt =====
-- services/redis_service.py: the limiter of `check_rate_limit` by the admitted times, without a
-- store and without expiry.
use smart_http_requester.Common.{
  ℕ, zero, suc, ◌+◌, ◌*◌, ◌/◌, ◌≤◌, ◌<◌, ◌≡◌, ◌≢◌, refl, String, Bool, true, false, Option, none,
  some, if◌then◌else◌, ◌==◌, leb, eq_refl, ==_iff, sym, arith, List, [], ◌∷◌, Bool-cases, inl, inr,
  ap, ◌∙◌,
}
use smart_http_requester.RateLimit.{
  Counter, Counters, live, get, set, incremented, prolonged, previous_count, expire_previous, weigh,
  check_rate_limit, Verdict,
}

-- The admissions of a window.
abbrev pub in_window : ℕ → List ℕ → ℕ
in_window n [] = 0
in_window n (t ∷ ts) = if t / 60 == n then in_window n ts + 1 else in_window n ts

abbrev pub before_window : ℕ → List ℕ → ℕ
before_window zero ts = 0
before_window (suc n) ts = in_window n ts

abbrev pub weight : ℕ → List ℕ → ℕ
weight now log = weigh 60 (in_window (now / 60) log) (before_window (now / 60) log) now

-- The sliding window: this window's admissions, and those of the last by its share.
abbrev pub refuses : ℕ → ℕ → List ℕ → Bool
refuses limit now log = leb (limit * 60) (weight now log)

abbrev pub logged : ℕ → ℕ → List ℕ → List ℕ
logged limit now log = if refuses limit now log then log else now ∷ log

abbrev pub log_verdict : ℕ → ℕ → List ℕ → Verdict
log_verdict limit now log =
    if refuses limit now log
    then record { allowed = false; total = weight now log / 60; reset_time = now / 60 * 60 + 60 }
    else record {
      allowed = true;
      total = (weight now log + 60) / 60;
      reset_time = now / 60 * 60 + 60;
    }

-- The counters that are still of use at `since` or later are those of the log.
abbrev pub Agrees : String → Counters → List ℕ → ℕ → Type 0
Agrees key counters log since =
    (n clock : ℕ)
    → since * 1000 ≤ clock
    → clock < n * 60000 + 120000
    → get clock counters key n ≡ in_window n log

ne_of : (m n : ℕ) → (m == n) ≡ false → m ≢ n
ne_of m n h = ground arith

set_same : (key : String) (n : ℕ) (c : Option Counter) (cs : Counters) → set key n c cs key n ≡ c
set_same key n c cs = ground (arith, eq_refl key)

set_other :
    (key : String) (n m : ℕ) (c : Option Counter) (cs : Counters)
    → m ≢ n
    → set key n c cs key m ≡ cs key m
set_other key n m c cs e = ground (arith, eq_refl key)

live-incremented :
    (clock c : ℕ) (x : Option Counter)
    → c < clock + 120000
    → live c (incremented clock 60 x) ≡ live clock x + 1
live-incremented clock c x h = ground arith

live-prolonged :
    (clock c : ℕ) (x : Option Counter)
    → c < clock + 120000
    → live c (prolonged clock 60 x) ≡ live clock x
live-prolonged clock c none h = refl
live-prolonged clock c (some x) h = ground arith

module _ (key : String) (counters : Counters) (log : List ℕ) (since now clock : ℕ)
    (agrees : Agrees key counters log since) (later : since ≤ now)
    (instant : clock / 1000 ≡ now) where
  current : get clock counters key (now / 60) ≡ in_window (now / 60) log
  current = agrees (now / 60) clock (omega arith) (omega arith)

  previous : (n : ℕ) → n ≡ now / 60 → previous_count clock counters key n ≡ before_window n log
  previous zero e = refl
  previous (suc n) e = agrees n clock (omega arith) (omega arith)

  -- The reply of the script is the sliding window's, from the log alone.
  pub verdict :
      (limit : ℕ) → (check_rate_limit key limit 60 now clock counters).0 ≡ log_verdict limit now log
  unfolding check_rate_limit
  verdict limit = rw (current, previous (now / 60) refl) ground arith

  stepped : ℕ → Counters
  stepped n =
      expire_previous clock 60 key n (set key n (incremented clock 60 (counters key n)) counters)

  stepped_current :
      (n c : ℕ)
      → n ≡ now / 60
      → c < n * 60000 + 120000
      → get c (stepped n) key n ≡ in_window n log + 1
  unfolding stepped
  stepped_current zero c e b = ground (
    arith,
    set_same key zero (incremented clock 60 (counters key zero)) counters,
    live-incremented clock c (counters key zero) (omega arith),
    agrees zero clock (omega arith) (omega arith),
  )
  stepped_current (suc n) c e b = ground (
    arith,
    set_other key n (suc n)
        (prolonged clock 60
          (set key (suc n) (incremented clock 60 (counters key (suc n))) counters key n))
        (set key (suc n) (incremented clock 60 (counters key (suc n))) counters) (omega arith),
    set_same key (suc n) (incremented clock 60 (counters key (suc n))) counters,
    live-incremented clock c (counters key (suc n)) (omega arith),
    agrees (suc n) clock (omega arith) (omega arith),
  )

  stepped_other :
      (n m c : ℕ)
      → n ≡ now / 60
      → m ≢ n
      → now * 1000 ≤ c
      → c < m * 60000 + 120000
      → get c (stepped n) key m ≡ in_window m log
  unfolding stepped
  stepped_other zero m c e d a b = ground (
    arith,
    set_other key zero m (incremented clock 60 (counters key zero)) counters d,
    agrees m c (omega arith) b,
  )
  stepped_other (suc n) m c e d a b =
      let x = incremented clock 60 (counters key (suc n)) in
      let y = prolonged clock 60 (set key (suc n) x counters key n) in
      elim (Bool-cases (m == n)) [
        | inl h ↦
            let p : m ≡ n = (==_iff m n).0 h in
            rw p (
              ap (live c) (set_same key n y (set key (suc n) x counters))
              ∙ ap (λ (o : Option Counter). live c (prolonged clock 60 o))
                  (set_other key (suc n) n x counters (omega arith))
              ∙ live-prolonged clock c (counters key n) (omega arith)
              ∙ agrees n clock (omega arith) (omega arith))
        | inr h ↦
            ap (live c) (
              set_other key n m y (set key (suc n) x counters) (ne_of m n h)
              ∙ set_other key (suc n) m x counters d)
            ∙ agrees m c (omega arith) b
      ]

  state :
      (limit : ℕ)
      → (check_rate_limit key limit 60 now clock counters).1
        ≡ (if refuses limit now log then counters else stepped (now / 60))
  unfolding check_rate_limit stepped
  state limit = rw (current, previous (now / 60) refl) ground arith

  -- After the script the counters agree with the new log.
  pub Agrees-after :
      (limit : ℕ)
      → Agrees key (check_rate_limit key limit 60 now clock counters).1 (logged limit now log) now
  Agrees-after limit m c a b = elim (Bool-cases (refuses limit now log)) [
    | inl r ↦ rw (state limit, r) (agrees m c (omega arith) b)
    | inr r ↦ elim (Bool-cases (now / 60 == m)) [
      | inl h ↦
          let p : now / 60 ≡ m = (==_iff (now / 60) m).0 h in
          rw (state limit, r, h)
            (ap (λ (k : ℕ). get c (stepped (now / 60)) key k) (sym p)
              ∙ stepped_current (now / 60) c refl (omega (arith, p))
              ∙ ap (λ (k : ℕ). in_window k log + 1) p)
      | inr h ↦
          rw (state limit, r, h)
            (stepped_other (now / 60) m c refl (λ q. ne_of (now / 60) m h (sym q)) a b)
    ]
  ]
