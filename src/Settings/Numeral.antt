-- ===== src/Settings/Numeral.antt =====
-- The digits that Python's `str` writes for a port.
use Prim.Native.Char.{code}
use smart_http_requester.Common.{
  ℕ, zero, suc, ◌+◌, ◌*◌, ◌/◌, ◌%◌, ◌<◌, ◌≡◌, refl, ap, ◌∙◌, String, Bool, true, false, arith, ◌&&◌,
  ◌==◌, Bool-cases, inl, inr, some, ltb,
}
use smart_http_requester.Common.Int.{pos}
use smart_http_requester.Middleware.Endpoint.{size}
use smart_http_requester.Settings.{char_at, digit, digits, str_int}
use smart_http_requester.Settings.Url.{in_set, free, number_from}

-- The characters of a text have the numbers from `k` on.
abbrev counts : ℕ → String → Bool
counts k String.[] = true
counts k (String.◌∷◌ c s) = (code c == k) && counts (suc k) s

code-char_at : (s : String) (k n : ℕ) → counts k s ≡ true → n < size s → code (char_at s n) ≡ k + n
code-char_at String.[] k n h l = absurd (omega arith)
code-char_at (String.◌∷◌ c s) k zero h l = ground (arith, h)
code-char_at (String.◌∷◌ c s) k (suc n) h l =
    code-char_at s (suc k) n (ground (arith, h)) (omega (arith, l)) ∙ omega arith

code-digit : (d : ℕ) → d < 10 → code (digit d) ≡ b'0' + d
code-digit d h = code-char_at "0123456789" b'0' d refl h

number_from-digit :
    (d n : ℕ) (s : String)
    → d < 10
    → number_from (String.◌∷◌ (digit d) s) n ≡ number_from s (n * 10 + d)
number_from-digit d n s h = let e = code-digit d h in ground (arith, e)

-- A number is read back from its digits.
number_from-digits :
    (fuel n : ℕ) (rest : String)
    → n < fuel
    → number_from (digits fuel n rest) 0 ≡ number_from rest n
unfolding digits
number_from-digits zero n rest h = absurd (omega arith)
number_from-digits (suc fuel) n rest h =
    let last = number_from-digit (n % 10) (n / 10) rest (omega arith) in
    let value : n / 10 * 10 + n % 10 ≡ n = omega arith in
    elim (Bool-cases (ltb n 10)) [
      | inl e ↦
          let same : 0 * 10 + n % 10 ≡ n = ground (arith, e) in
          rw e (number_from-digit (n % 10) 0 rest (omega arith) ∙ ap (number_from rest) same)
      | inr e ↦ rw e (
          number_from-digits fuel (n / 10) (String.◌∷◌ (digit (n % 10)) rest) (ground (arith, e, h))
          ∙ last
          ∙ ap (number_from rest) value)
    ]

free-digits :
    (set : String)
    → ((d : ℕ) → d < 10 → in_set set (digit d) ≡ false)
    → (fuel n : ℕ) (rest : String) → free set rest ≡ true
    → free set (digits fuel n rest) ≡ true
unfolding digits
free-digits set none_of zero n rest h = h
free-digits set none_of (suc fuel) n rest h =
    let begun : free set (String.◌∷◌ (digit (n % 10)) rest) ≡ true =
      rw (none_of (n % 10) (omega arith)) h in
    elim (Bool-cases (ltb n 10)) [
      | inl e ↦ rw e begun
      | inr e ↦
          rw e (free-digits set none_of fuel (n / 10) (String.◌∷◌ (digit (n % 10)) rest) begun)
    ]

no_mark : (d : ℕ) → d < 10 → in_set "/?#@" (digit d) ≡ false
no_mark d h = let e = code-digit d h in ground (arith, e)

pub free-str_int : (n : ℕ) → free "/?#@" (str_int (pos n)) ≡ true
free-str_int n = free-digits "/?#@" no_mark (n + 1) n "" refl

pub number_from-str_int : (n : ℕ) → number_from (str_int (pos n)) 0 ≡ some n
number_from-str_int n = number_from-digits (n + 1) n "" (omega arith)
