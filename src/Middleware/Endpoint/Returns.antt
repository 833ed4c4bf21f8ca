-- ===== src/Middleware/Endpoint/Returns.antt =====
-- services/metrics.py: the substitutions of `get_endpoint_name` end.
use Prim.Native.Char.{Char}
use Prim.Native.String.{◌++◌ as append}
use smart_http_requester.Common.{
  ℕ, zero, suc, ◌≤◌, String, Bool, Option, some, List, [], ◌∷◌, ◌≡◌, refl, inl, inr, arith,
  Option-cases,
}
use smart_http_requester.Middleware.Endpoint.{match, match_digits, match_number, sub, size}

-- A pattern takes one character at least.
abbrev pub Consumes : (String → Option String) → Type 0
Consumes pattern = (s rest : String) → pattern s ≡ some rest → suc (size rest) ≤ size s

match_le : (ps : List (Char → Bool)) (s rest : String) → match ps s ≡ some rest → size rest ≤ size s
unfolding match
match_le [] s rest h = ground arith
match_le (p ∷ ps) String.[] rest h = ground arith
match_le (p ∷ ps) (String.◌∷◌ c s) rest h = ground (arith, match_le ps s rest)

pub match-Consumes : (p : Char → Bool) (ps : List (Char → Bool)) → Consumes (match (p ∷ ps))
unfolding match
match-Consumes p ps String.[] rest h = ground arith
match-Consumes p ps (String.◌∷◌ c s) rest h = ground (arith, match_le ps s rest)

match_digits_le :
    (digit : Char → Bool) (s rest : String) → match_digits digit s ≡ some rest → size rest ≤ size s
match_digits_le digit String.[] rest h = ground arith
match_digits_le digit (String.◌∷◌ c s) rest h = ground (arith, match_digits_le digit s rest)

pub match_number-Consumes : (digit : Char → Bool) → Consumes (match_number digit)
unfolding match_number
match_number-Consumes digit String.[] rest h = ground arith
match_number-Consumes digit (String.◌∷◌ c String.[]) rest h = ground arith
match_number-Consumes digit (String.◌∷◌ c (String.◌∷◌ d s)) rest h =
    ground (arith, match_digits_le digit s rest)

pub sub-returns :
    (pattern : String → Option String)
    → Consumes pattern
    → (text : String) (fuel : ℕ) (s : String) → size s ≤ fuel
    → (r : String) × (sub fuel pattern text s ≡ some r)
unfolding sub
sub-returns pattern c text fuel String.[] h = ("", refl)
sub-returns pattern c text zero (String.◌∷◌ a s) h = absurd (omega (arith, h))
sub-returns pattern c text (suc fuel) (String.◌∷◌ a s) h =
    elim (Option-cases (pattern (String.◌∷◌ a s))) [
      | inl e ↦
          let (r, p) = sub-returns pattern c text fuel s (omega (arith, h)) in
          (String.◌∷◌ a r, ground (arith, e, p))
      | inr (rest, e) ↦
          let (r, p) =
            sub-returns pattern c text fuel rest (omega (arith, h, c (String.◌∷◌ a s) rest e)) in
          (append text r, ground (arith, e, p))
    ]
