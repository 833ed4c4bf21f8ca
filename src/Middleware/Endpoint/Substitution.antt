-- ===== src/Middleware/Endpoint/Substitution.antt =====
-- services/metrics.py: the texts that the substitutions of `get_endpoint_name` leave.
use Prim.Native.Char.{Char}
use text.Mathlib.TextLemmas.{cons-append}
use Prim.Native.String.{◌++◌ as append}
use smart_http_requester.Common.{
  some_inj, ℕ, zero, suc, String, Bool, true, false, not, Option, none, some, List, [], ◌∷◌, ◌&&◌,
  ◌||◌, ◌≡◌, ◌≢◌, refl, ◌∙◌, sym, subst, inl, inr, arith, Bool-cases, Option-cases,
}
use smart_http_requester.Middleware.Endpoint.{match, sub}

abbrev pub is_some : Option String → Bool
is_some none = false
is_some (some s) = true

-- Whether a pattern matches anywhere in a text.
abbrev pub occurs : (String → Option String) → String → Bool
occurs pattern String.[] = is_some (pattern String.[])
occurs pattern (String.◌∷◌ c s) = is_some (pattern (String.◌∷◌ c s)) || occurs pattern s

-- No part of the pattern takes the character.
abbrev pub rejects : Char → List (Char → Bool) → Bool
rejects c [] = true
rejects c (p ∷ ps) = not (p c) && rejects c ps

-- Where the pattern matches, where it does not, and what is left then.
data Found (pattern : String → Option String) (text : String) (fuel : ℕ) (c : Char) (s r : String)
    : Type 0 where
  matched :
      (rest r' : String)
      → pattern (String.◌∷◌ c s) ≡ some rest
      → sub fuel pattern text rest ≡ some r'
      → r ≡ append text r'
      → Found pattern text fuel c s r
  unmatched :
      (r' : String)
      → pattern (String.◌∷◌ c s) ≡ none
      → sub fuel pattern text s ≡ some r'
      → r ≡ String.◌∷◌ c r'
      → Found pattern text fuel c s r

step :
    (pattern : String → Option String) (text : String) (fuel : ℕ) (c : Char) (s r : String)
    → sub (suc fuel) pattern text (String.◌∷◌ c s) ≡ some r
    → Found pattern text fuel c s r
unfolding sub
step pattern text fuel c s r h = elim (Option-cases (pattern (String.◌∷◌ c s))) [
  | inr (rest, e) ↦ elim (Option-cases (sub fuel pattern text rest)) [
    | inl n ↦ absurd (ground (arith, e, n))
    | inr (r', n) ↦ matched rest r' e n (some_inj (ground (arith, e, n, h)))
  ]
  | inl e ↦ elim (Option-cases (sub fuel pattern text s)) [
    | inl n ↦ absurd (ground (arith, e, n))
    | inr (r', n) ↦ unmatched r' e n (some_inj (ground (arith, e, n, h)))
  ]
]

sub-nil :
    (pattern : String → Option String) (text : String) (fuel : ℕ) (r : String)
    → sub fuel pattern text "" ≡ some r
    → r ≡ ""
unfolding sub
sub-nil pattern text fuel r h = sym (some_inj h)

stopped :
    (pattern : String → Option String) (text : String) (c : Char) (s r : String)
    → sub 0 pattern text (String.◌∷◌ c s) ≢ some r
unfolding sub
stopped pattern text c s r h = ground arith

pub occurs-cons :
    (pattern : String → Option String) (c : Char) (s : String)
    → is_some (pattern (String.◌∷◌ c s)) ≡ false
    → occurs pattern s ≡ false
    → occurs pattern (String.◌∷◌ c s) ≡ false
occurs-cons pattern c s h k = ground arith

pub occurs-suffix :
    (pattern : String → Option String) (c : Char) (s : String)
    → occurs pattern (String.◌∷◌ c s) ≡ false
    → (is_some (pattern (String.◌∷◌ c s)) ≡ false) × (occurs pattern s ≡ false)
occurs-suffix pattern c s h = ground arith

module _ (first : Char) (others : String) where
  abbrev replacement : String
  replacement = String.◌∷◌ first others

  -- Where the pattern qs takes no `first`, what it takes of the result it takes of the text too: it
  -- does not reach a replacement.
  back :
      (pattern : String → Option String) (qs : List (Char → Bool))
      → rejects first qs ≡ true
      → (fuel : ℕ) (s r : String) → sub fuel pattern replacement s ≡ some r
      → is_some (match qs r) ≡ true
      → is_some (match qs s) ≡ true
  unfolding match
  back pattern [] a fuel s r h k = refl
  back pattern (q ∷ qs) a fuel String.[] r h k =
      subst (λ t. is_some (match (q ∷ qs) t) ≡ true) (sub-nil pattern replacement fuel r h) k
  back pattern (q ∷ qs) a zero (String.◌∷◌ c s) r h k = absurd (stopped pattern replacement c s r h)
  back pattern (q ∷ qs) a (suc fuel) (String.◌∷◌ c s) r h k =
      elim (step pattern replacement fuel c s r h) [
        | matched rest r' e n o ↦
            let k' =
              subst (λ t. is_some (match (q ∷ qs) t) ≡ true) (o ∙ cons-append first others r') k in
            ground (arith, a, k')
        | unmatched r' e n o ↦
            let k' = subst (λ t. is_some (match (q ∷ qs) t) ≡ true) o k in
            ground (arith, k', back pattern qs (ground (arith, a)) fuel s r' n)
      ]

  -- Where a pattern does not take the replacement apart, the result has no match of it: of the
  -- pattern replaced, and of another that the text has no match of.
  module _ (p : Char → Bool) (ps : List (Char → Bool)) (apart : rejects first (p ∷ ps) ≡ true)
      (passes : (r : String)
        → occurs (match (p ∷ ps)) (append replacement r) ≡ occurs (match (p ∷ ps)) r) where
    untaken :
        (pattern : String → Option String) (fuel : ℕ) (s r : String)
        → sub fuel pattern replacement s ≡ some r
        → is_some (match (p ∷ ps) s) ≡ false
        → is_some (match (p ∷ ps) r) ≡ false
    untaken pattern fuel s r h k = elim (Bool-cases (is_some (match (p ∷ ps) r))) [
      | inr e ↦ e
      | inl e ↦ absurd (ground (arith, back pattern (p ∷ ps) apart fuel s r h e))
    ]

    pub replaced :
        (fuel : ℕ) (s r : String)
        → sub fuel (match (p ∷ ps)) replacement s ≡ some r
        → occurs (match (p ∷ ps)) r ≡ false
    unfolding match
    replaced fuel String.[] r h = rw (sub-nil (match (p ∷ ps)) replacement fuel r h) refl
    replaced zero (String.◌∷◌ c s) r h = absurd (stopped (match (p ∷ ps)) replacement c s r h)
    replaced (suc fuel) (String.◌∷◌ c s) r h =
        elim (step (match (p ∷ ps)) replacement fuel c s r h) [
          | matched rest r' e n o ↦ rw o (passes r' ∙ replaced fuel rest r' n)
          | unmatched r' e n o ↦ rw o (
              occurs-cons (match (p ∷ ps)) c r'
                (untaken (match (p ∷ ps)) (suc fuel) (String.◌∷◌ c s) (String.◌∷◌ c r')
                  (subst
                    (λ t. sub (suc fuel) (match (p ∷ ps)) replacement (String.◌∷◌ c s) ≡ some t) o
                    h)
                  (rw e refl))
                (replaced fuel s r' n))
        ]

    pub kept :
        (pattern : String → Option String)
        → ((s rest : String)
            → pattern s ≡ some rest
            → occurs (match (p ∷ ps)) s ≡ false
            → occurs (match (p ∷ ps)) rest ≡ false)
        → (fuel : ℕ) (s r : String) → sub fuel pattern replacement s ≡ some r
        → occurs (match (p ∷ ps)) s ≡ false
        → occurs (match (p ∷ ps)) r ≡ false
    kept pattern suffix fuel String.[] r h k = rw (sub-nil pattern replacement fuel r h) k
    kept pattern suffix zero (String.◌∷◌ c s) r h k = absurd (stopped pattern replacement c s r h)
    kept pattern suffix (suc fuel) (String.◌∷◌ c s) r h k =
        elim (step pattern replacement fuel c s r h) [
          | matched rest r' e n o ↦
              rw o
                (passes r' ∙ kept pattern suffix fuel rest r' n (suffix (String.◌∷◌ c s) rest e k))
          | unmatched r' e n o ↦
              let (here, later) = occurs-suffix (match (p ∷ ps)) c s k in
              rw o (
                occurs-cons (match (p ∷ ps)) c r'
                  (untaken pattern (suc fuel) (String.◌∷◌ c s) (String.◌∷◌ c r')
                    (subst (λ t. sub (suc fuel) pattern replacement (String.◌∷◌ c s) ≡ some t) o h)
                    here)
                  (kept pattern suffix fuel s r' n later))
        ]
