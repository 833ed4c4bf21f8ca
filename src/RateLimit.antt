-- ===== src/RateLimit.antt =====
-- services/redis_service.py: the script of `check_rate_limit`; middleware/rate_limit.py:
-- `dispatch`.
--
-- Redis keeps a counter for each client and each window of time, with the moment of its expiry in
-- milliseconds of its own clock; the script gets the time in seconds from the caller. The script's
-- numbers are taken as exact: what it multiplies by `1 - elapsed / window` stands here times
-- `window`, and a reply is cut to a whole number, as Redis does with a number of Lua.
pub mod Log
pub mod Runs
pub mod Limit
pub mod Burst
pub mod Liveness
use Prim.Native.String
use smart_http_requester.Common.{
  ℕ, zero, suc, ◌+◌, ◌-◌, ◌*◌, ◌/◌, ◌%◌, String, Bool, true, false, Option, none, some,
  if◌then◌else◌, ◌==◌, ◌&&◌, leb, str_eq, not,
}
use smart_http_requester.Common.Int.{ℤ, sub_ℕ}
use smart_http_requester.Session.{Outcome, ok, err, redis_error}

pub record Counter : Type 0 where
  pub count : ℕ
  pub expires : ℕ

-- By the client's key and the number of the window.
abbrev pub Counters : Type 0
Counters = String → ℕ → Option Counter

-- `GET`, `or "0"`: a counter is there up to the millisecond of its expiry.
abbrev pub live : ℕ → Option Counter → ℕ
live clock none = 0
live clock (some c) = if leb clock c.expires then c.count else 0

abbrev pub get : ℕ → Counters → String → ℕ → ℕ
get clock counters key n = live clock (counters key n)

abbrev pub set : String → ℕ → Option Counter → Counters → Counters
set key n c counters key' n' = if str_eq key' key && n' == n then c else counters key' n'

-- `INCR` and `EXPIRE` of the current counter.
abbrev pub incremented : ℕ → ℕ → Option Counter → Option Counter
incremented clock window c =
    some (record { count = live clock c + 1; expires = clock + window * 2 * 1000 })

-- `EXPIRE` of the previous one, which does nothing without a counter.
abbrev pub prolonged : ℕ → ℕ → Option Counter → Option Counter
prolonged clock window none = none
prolonged clock window (some c) =
    if leb clock c.expires then some (record c { expires = clock + window * 2 * 1000 }) else none

-- There is no counter before the window 0.
abbrev pub previous_count : ℕ → Counters → String → ℕ → ℕ
previous_count clock counters key zero = 0
previous_count clock counters key (suc n) = get clock counters key n

abbrev pub expire_previous : ℕ → ℕ → String → ℕ → Counters → Counters
expire_previous clock window key zero counters = counters
expire_previous clock window key (suc n) counters =
    set key n (prolonged clock window (counters key n)) counters

-- `total`, times `window`.
abbrev pub weigh : ℕ → ℕ → ℕ → ℕ → ℕ
weigh window current previous now = current * window + previous * (window - now % window)

pub record Verdict : Type 0 where
  pub allowed : Bool
  pub total : ℕ
  pub reset_time : ℕ

unfoldable pub check_rate_limit : String → ℕ → ℕ → ℕ → ℕ → Counters → Verdict × Counters
check_rate_limit key limit window now clock counters =
    let n = now / window in
    let total = weigh window (get clock counters key n) (previous_count clock counters key n) now in
    let reset_time = n * window + window in
    if leb (limit * window) total
    then (record { allowed = false; total = total / window; reset_time = reset_time }, counters)
    else (
      record { allowed = true; total = (total + window) / window; reset_time = reset_time },
      expire_previous clock window key n
          (set key n (incremented clock window (counters key n)) counters),
    )

-- A response by its status and the three headers; a client without an address gets none.
pub record RateHeaders : Type 0 where
  pub limit : ℕ
  pub remaining : ℤ
  pub reset : ℕ

abbrev pub headers_of : ℕ → Verdict → RateHeaders
headers_of limit v = record { limit = limit; remaining = sub_ℕ limit v.total; reset = v.reset_time }

pub record Response : Type 0 where
  pub status : ℕ
  pub headers : Option RateHeaders

abbrev pub rate_key : String → String
rate_key ip = String.◌++◌ "rate_limit:" ip

-- Redis answers or not, and then the call of the script raises. `call_next` answers with a status
-- or raises; `S` is the rest of the program's state. An exception passes through, without the
-- headers.
unfoldable pub dispatch :
    {S : Type 0}
    → Bool
    → Option String
    → ℕ
    → ℕ
    → ℕ
    → (S → Outcome ℕ × S)
    → Counters × S
    → Outcome Response × (Counters × S)
dispatch redis none limit now clock call_next (counters, s) =
    (ok (record { status = 423; headers = none }), (counters, s))
dispatch false (some ip) limit now clock call_next (counters, s) = (err redis_error, (counters, s))
dispatch true (some ip) limit now clock call_next (counters, s) =
    let (v, counters') = check_rate_limit (rate_key ip) limit 60 now clock counters in
    let headers = headers_of limit v in
    if v.allowed
    then (let (r, s') = call_next s in
        (
          elim r [
            | ok status ↦ ok (record { status = status; headers = some headers })
            | err e ↦ err e
          ],
          (counters', s'),
        ))
    else (ok (record { status = 429; headers = some headers }), (counters', s))
