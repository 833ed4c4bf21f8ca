-- ===== src/Common/Text.antt =====
-- Concatenation of texts that computes where the first one is a literal.
use Prim.Native.String.{String, ◌++◌ as append}
use text.Mathlib.TextLemmas.{cons-append, nil-append}
use mathlib.Core.Path.{◌≡◌, ap, ◌∙◌}

abbrev pub onto : String → String → String
onto String.[] t = t
onto (String.◌∷◌ c s) t = String.◌∷◌ c (onto s t)

pub append-onto : (s t : String) → append s t ≡ onto s t
append-onto String.[] t = nil-append t
append-onto (String.◌∷◌ c s) t = cons-append c s t ∙ ap (String.◌∷◌ c) (append-onto s t)
