-- ===== src/Middleware/Endpoint.antt =====
-- services/metrics.py: `get_endpoint_name`, the label that a path has in the metrics, with Python's
-- `re.sub` for its two patterns. What Unicode counts as a decimal digit, `\d`, is an argument.
pub mod Returns
pub mod Substitution
pub mod Labels
use Prim.Native.Char.{Char, code}
use Prim.Native.String.{◌++◌ as append}
use mathlib.Core.Option
use smart_http_requester.Common.{
  ℕ, zero, suc, String, Bool, true, false, Option, none, some, List, [], ◌∷◌, ◌++◌, if◌then◌else◌,
  ◌&&◌, ◌||◌, ◌==◌, leb,
}

abbrev pub within : ℕ → ℕ → Char → Bool
within low high c = leb low (code c) && leb (code c) high

-- `[0-9a-f]` under IGNORECASE.
abbrev pub is_hex : Char → Bool
is_hex c = within b'0' b'9' c || within b'a' b'f' c || within b'A' b'F' c

abbrev pub is_dash : Char → Bool
is_dash c = code c == b'-'

abbrev pub is_slash : Char → Bool
is_slash c = code c == b'/'

abbrev pub repeated : ℕ → (Char → Bool) → List (Char → Bool) → List (Char → Bool)
repeated zero p ps = ps
repeated (suc n) p ps = p ∷ repeated n p ps

abbrev pub uuid_pattern : List (Char → Bool)
uuid_pattern = repeated 8 is_hex (
    is_dash
    ∷ repeated 4 is_hex (
        is_dash
        ∷ repeated 4 is_hex (is_dash ∷ repeated 4 is_hex (is_dash ∷ repeated 12 is_hex []))))

-- A match at the beginning of a text gives what follows it.
unfoldable pub match : List (Char → Bool) → String → Option String
match [] s = some s
match (p ∷ ps) String.[] = none
match (p ∷ ps) (String.◌∷◌ c s) = if p c then match ps s else none

-- `\d*/`: no digit is a slash, so that the longest run of digits is the one to take.
abbrev pub match_digits : (Char → Bool) → String → Option String
match_digits digit String.[] = none
match_digits digit (String.◌∷◌ c s) =
    let rest = match_digits digit s in if digit c then rest else if is_slash c then some s else none

-- `/\d+/`
unfoldable pub match_number : (Char → Bool) → String → Option String
match_number digit (String.◌∷◌ c (String.◌∷◌ d s)) =
    if is_slash c && digit d then match_digits digit s else none
match_number digit s = none

-- `re.sub` for a pattern that matches no empty text: from left to right, and from the end of a
-- match. With no fuel left there is no result.
unfoldable pub sub : ℕ → (String → Option String) → String → String → Option String
sub fuel pattern text String.[] = some ""
sub zero pattern text (String.◌∷◌ c s) = none
sub (suc fuel) pattern text (String.◌∷◌ c s) = elim (pattern (String.◌∷◌ c s)) [
  | some rest ↦ Option.map (append text) (sub fuel pattern text rest)
  | none ↦ Option.map (String.◌∷◌ c) (sub fuel pattern text s)
]

-- A step takes one character at least.
abbrev pub size : String → ℕ
size String.[] = 0
size (String.◌∷◌ c s) = suc (size s)

unfoldable pub get_endpoint_name : (Char → Bool) → String → Option String
get_endpoint_name digit path = elim (sub (size path) (match uuid_pattern) "{id}" path) [
  | none ↦ none
  | some endpoint ↦ sub (size endpoint) (match_number digit) "/{id}/" endpoint
]
