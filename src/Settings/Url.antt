-- ===== src/Settings/Url.antt =====
-- services/rabbitmq.py: what the URL of `get_rabbitmq` says to a reader of URLs.
use Prim.Native.Char.{Char, code}
use smart_http_requester.Common.{
  ℕ, ◌+◌, ◌-◌, ◌*◌, ◌≡◌, refl, ap, String, Bool, true, false, not, ◌&&◌, ◌||◌, ◌==◌, Option, none,
  some, if◌then◌else◌, leb, arith, Bool-cases, inl, inr,
}
use smart_http_requester.Common.Text.{onto}

abbrev pub in_set : String → Char → Bool
in_set String.[] c = false
in_set (String.◌∷◌ d ds) c = (code c == code d) || in_set ds c

-- No character of the text is in the set.
abbrev pub free : String → String → Bool
free set String.[] = true
free set (String.◌∷◌ c s) = not (in_set set c) && free set s

-- A text up to the first character of a set, and from it on.
abbrev pub before : String → String → String
before set String.[] = ""
before set (String.◌∷◌ c s) =
    let more = before set s in if in_set set c then "" else String.◌∷◌ c more

abbrev pub from : String → String → String
from set String.[] = ""
from set (String.◌∷◌ c s) = let more = from set s in if in_set set c then String.◌∷◌ c s else more

-- The first parts of a text round the first character of a set.
abbrev pub split : String → String → Option (String × String)
split set String.[] = none
split set (String.◌∷◌ c s) =
    let more = split set s in
    if in_set set c
    then some ("", s)
    else elim more [ none ↦ none | some (a, b) ↦ some (String.◌∷◌ c a, b) ]

abbrev pub without_prefix : String → String → Option String
without_prefix String.[] s = some s
without_prefix (String.◌∷◌ d ds) String.[] = none
without_prefix (String.◌∷◌ d ds) (String.◌∷◌ c s) =
    if code c == code d then without_prefix ds s else none

abbrev pub number_from : String → ℕ → Option ℕ
number_from String.[] n = some n
number_from (String.◌∷◌ c s) n =
    let more = number_from s (n * 10 + (code c - b'0')) in
    if leb b'0' (code c) && leb (code c) b'9' then more else none

-- A URL of the scheme amqp with a user, a password and a port, as RFC 3986 divides it: the
-- authority ends at the first of / ? and #, the path at the first of ? and #. The parts are as they
-- are written, before a percent is decoded.
pub record AmqpParts : Type 0 where
  pub user : String
  pub password : String
  pub host : String
  pub port : ℕ
  pub vhost : String

infixl 5 ◌>>=◌
abbrev pub ◌>>=◌ : {A B : Type 0} → Option A → (A → Option B) → Option B
none >>= f = none
(some a) >>= f = f a

abbrev pub read_amqp : String → Option AmqpParts
read_amqp url = do
  rest ← without_prefix "amqp://" url
  (userinfo, address) ← split "@" (before "/?#" rest)
  (user, password) ← split ":" userinfo
  (host, port) ← split ":" address
  number ← number_from port 0
  vhost ← without_prefix "/" (before "?#" (from "/?#" rest))
  some (record { user = user; password = password; host = host; port = number; vhost = vhost })

-- The authority of a URL as RFC 3986 divides it: what stands before the first @ is the userinfo,
-- and what follows the first colon after that the port, which may be empty and has digits else.
-- Hosts in brackets aside.
pub record Authority : Type 0 where
  pub userinfo : Option String
  pub host : String
  pub port : Option ℕ

abbrev pub read_port : String → Option (Option ℕ)
read_port String.[] = some none
read_port (String.◌∷◌ c s) = number_from (String.◌∷◌ c s) 0 >>= λ n. some (some n)

abbrev pub read_address : Option String → String → Option Authority
read_address userinfo address = elim (split ":" address) [
  | none ↦ some (record { userinfo = userinfo; host = address; port = none })
  | some (host, port) ↦
      read_port port >>= λ n. some (record { userinfo = userinfo; host = host; port = n })
]

abbrev pub divide : String → Option Authority
divide authority = elim (split "@" authority) [
  | none ↦ read_address none authority
  | some (userinfo, address) ↦ read_address (some userinfo) address
]

abbrev pub read_authority : String → Option Authority
read_authority url = without_prefix "amqp://" url >>= λ rest. divide (before "/?#" rest)

module _ (set : String) where
  pub before-onto :
      (a s : String) (c : Char)
      → free set a ≡ true
      → in_set set c ≡ true
      → before set (onto a (String.◌∷◌ c s)) ≡ a
  before-onto String.[] s c h k = rw k refl
  before-onto (String.◌∷◌ d a) s c h k = elim (Bool-cases (in_set set d)) [
    | inl e ↦ absurd (ground (arith, e, h))
    | inr e ↦ rw e (ap (String.◌∷◌ d) (before-onto a s c (ground (arith, e, h)) k))
  ]

  pub from-onto : (a s : String) → free set a ≡ true → from set (onto a s) ≡ from set s
  from-onto String.[] s h = refl
  from-onto (String.◌∷◌ c a) s h = elim (Bool-cases (in_set set c)) [
    | inl e ↦ absurd (ground (arith, e, h))
    | inr e ↦ rw e (from-onto a s (ground (arith, e, h)))
  ]

  pub before-free : (a : String) → free set a ≡ true → before set a ≡ a
  before-free String.[] h = refl
  before-free (String.◌∷◌ c a) h = elim (Bool-cases (in_set set c)) [
    | inl e ↦ absurd (ground (arith, e, h))
    | inr e ↦ rw e (ap (String.◌∷◌ c) (before-free a (ground (arith, e, h))))
  ]

  pub split-onto :
      (a s : String) (c : Char)
      → free set a ≡ true
      → in_set set c ≡ true
      → split set (onto a (String.◌∷◌ c s)) ≡ some (a, s)
  split-onto String.[] s c h k = rw k refl
  split-onto (String.◌∷◌ d a) s c h k = elim (Bool-cases (in_set set d)) [
    | inl e ↦ absurd (ground (arith, e, h))
    | inr e ↦ rw e (rw (split-onto a s c (ground (arith, e, h)) k) refl)
  ]

  pub split-free : (a : String) → free set a ≡ true → split set a ≡ none
  split-free String.[] h = refl
  split-free (String.◌∷◌ c a) h = elim (Bool-cases (in_set set c)) [
    | inl e ↦ absurd (ground (arith, e, h))
    | inr e ↦ rw e (rw (split-free a (ground (arith, e, h))) refl)
  ]

  pub free-onto :
      (a s : String) → free set a ≡ true → free set s ≡ true → free set (onto a s) ≡ true
  free-onto String.[] s h k = k
  free-onto (String.◌∷◌ c a) s h k = elim (Bool-cases (in_set set c)) [
    | inl e ↦ absurd (ground (arith, e, h))
    | inr e ↦ rw e (free-onto a s (ground (arith, e, h)) k)
  ]

-- A smaller set.
pub free_fewer :
    (set fewer : String)
    → ((c : Char) → in_set set c ≡ false → in_set fewer c ≡ false)
    → (s : String) → free set s ≡ true
    → free fewer s ≡ true
free_fewer set fewer less String.[] h = refl
free_fewer set fewer less (String.◌∷◌ c s) h = elim (Bool-cases (in_set set c)) [
  | inl e ↦ absurd (ground (arith, e, h))
  | inr e ↦ rw (less c e) (free_fewer set fewer less s (ground (arith, e, h)))
]
