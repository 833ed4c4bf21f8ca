-- ===== src/Middleware/Endpoint/Labels.antt =====
-- services/metrics.py: what `get_endpoint_name` makes of the identifiers in a path.
use Prim.Native.Char.{Char, code}
use smart_http_requester.Common.Text.{onto, append-onto}
use Prim.Native.String.{◌++◌ as append}
use smart_http_requester.Common.{
  some_inj, suc, ◌≤◌, String, Bool, false, Option, some, ◌≡◌, ◌≢◌, refl, subst, arith, Bool-cases,
  inl, inr,
}
use smart_http_requester.Middleware.Endpoint.{
  within, is_hex, is_slash, uuid_pattern, match, match_digits, match_number, sub, size,
  get_endpoint_name,
}
use smart_http_requester.Middleware.Endpoint.Returns.{
  match-Consumes, match_number-Consumes, sub-returns,
}
use smart_http_requester.Middleware.Endpoint.Substitution.{occurs, occurs-suffix, replaced, kept}

passes_id :
    (r : String) → occurs (match uuid_pattern) (append "{id}" r) ≡ occurs (match uuid_pattern) r
unfolding match
passes_id r = rw (append-onto "{id}" r) refl

passes_number :
    (r : String) → occurs (match uuid_pattern) (append "/{id}/" r) ≡ occurs (match uuid_pattern) r
unfolding match
passes_number r = rw (append-onto "/{id}/" r) refl

module _ (digit : Char → Bool) where
  digits_suffix :
      (pattern : String → Option String) (s rest : String)
      → match_digits digit s ≡ some rest
      → occurs pattern s ≡ false
      → occurs pattern rest ≡ false
  digits_suffix pattern String.[] rest h k = absurd (ground arith)
  digits_suffix pattern (String.◌∷◌ c s) rest h k = elim (Bool-cases (digit c)) [
    | inl d ↦ digits_suffix pattern s rest (ground (arith, d, h)) (occurs-suffix pattern c s k).1
    | inr d ↦ elim (Bool-cases (is_slash c)) [
      | inl e ↦
          subst (λ t. occurs pattern t ≡ false) (some_inj (ground (arith, d, e, h)))
            (occurs-suffix pattern c s k).1
      | inr e ↦ absurd (ground (arith, d, e, h))
    ]
  ]

  number_suffix :
      (pattern : String → Option String) (s rest : String)
      → match_number digit s ≡ some rest
      → occurs pattern s ≡ false
      → occurs pattern rest ≡ false
  unfolding match_number
  number_suffix pattern String.[] rest h k = absurd (ground arith)
  number_suffix pattern (String.◌∷◌ c String.[]) rest h k = absurd (ground arith)
  number_suffix pattern (String.◌∷◌ c (String.◌∷◌ d s)) rest h k =
      let (here, later) = occurs-suffix pattern c (String.◌∷◌ d s) k in
      let (here', later') = occurs-suffix pattern d s later in
      ground (arith, digits_suffix pattern s rest)

  -- For every path there is a name, within the fuel that the function gives itself, and no part of
  -- it reads as a UUID.
  pub get_endpoint_name-hides :
      (path : String)
      → (endpoint : String) × (get_endpoint_name digit path ≡ some endpoint)
        × (occurs (match uuid_pattern) endpoint ≡ false)
  unfolding get_endpoint_name
  get_endpoint_name-hides path =
      let (e, p) =
        sub-returns (match uuid_pattern) (match-Consumes is_hex _) "{id}" (size path) path
          (omega arith) in
      let (r, q) =
        sub-returns (match_number digit) (match_number-Consumes digit) "/{id}/" (size e) e
          (omega arith) in
      (
        r,
        ground (arith, p, q),
        kept _ _ is_hex _ refl passes_number (match_number digit)
            (number_suffix (match uuid_pattern)) (size e) e r q
            (replaced _ _ is_hex _ refl passes_id (size path) path e p),
      )

-- What Python documents of `\d` for the characters of ASCII.
abbrev pub DecimalInAscii : (Char → Bool) → Type 0
DecimalInAscii digit = (c : Char) → code c ≤ 127 → digit c ≡ within b'0' b'9' c

abbrev after_requests : String → String
after_requests s = onto "/v1/requests/" s

sub-after_requests :
    (s r : String)
    → sub (size s) (match uuid_pattern) "{id}" s ≡ some r
    → sub (size (after_requests s)) (match uuid_pattern) "{id}" (after_requests s)
      ≡ some (after_requests r)
unfolding sub match
sub-after_requests s r h = rw h refl

sub_whole :
    (c : Char) (s : String)
    → match uuid_pattern (String.◌∷◌ c s) ≡ some ""
    → sub (suc (size s)) (match uuid_pattern) "{id}" (String.◌∷◌ c s) ≡ some "{id}"
unfolding sub
sub_whole c s h = rw (sub, h) refl

unnumbered :
    (digit : Char → Bool)
    → DecimalInAscii digit
    → sub 17 (match_number digit) "/{id}/" "/v1/requests/{id}" ≡ some "/v1/requests/{id}"
unfolding sub match_number
unnumbered digit ascii =
    rw (ascii "v" (omega arith), ascii "r" (omega arith), ascii "{" (omega arith)) refl

nothing : match uuid_pattern "" ≢ some ""
unfolding match
nothing h = ground arith

-- The requests for one task have one label, whichever task: what reads as a UUID after the path of
-- the requests is replaced by a placeholder, where `\d` is as documented for ASCII.
get_endpoint_name-merges :
    (digit : Char → Bool)
    → DecimalInAscii digit
    → (id : String) → match uuid_pattern id ≡ some ""
    → get_endpoint_name digit (append "/v1/requests/" id) ≡ some "/v1/requests/{id}"
unfolding get_endpoint_name
get_endpoint_name-merges digit ascii String.[] h = absurd (nothing h)
get_endpoint_name-merges digit ascii (String.◌∷◌ c s) h =
    rw
      (
        append-onto "/v1/requests/" (String.◌∷◌ c s),
        get_endpoint_name,
        sub-after_requests (String.◌∷◌ c s) "{id}" (sub_whole c s h),
      )
      (unnumbered digit ascii)
