-- ===== src/Base/Text.antt =====
-- Text as Python's `str`: splitting at a character and what does not contain it.
use Prim.Native.Nat.{ℕ}
use Prim.Native.Char.{Char, code}
use Prim.Native.String
use Prim.Native.String.{String, [], ◌∷◌}
use mathlib.Core.Path.{◌≡◌, refl, ap, ◌∙◌}
use mathlib.Core.Logic.{◌≢◌}
use mathlib.Core.List.{List, [], ◌∷◌}
use native.Mathlib.Omega.{arith}
use text.Mathlib.TextLemmas.{nil-append, cons-append}
use package.lite_mcp.Base.Tests.{eqb, if◌then◌else◌}

abbrev pub push_head : Char → List String → List String
push_head c [] = (c ∷ []) ∷ []
push_head c (p ∷ ps) = (c ∷ p) ∷ ps

-- `s.split(sep)` for a separator of one character, given by its code point.
unfoldable pub split : ℕ → String → List String
split sep [] = "" ∷ []
split sep (c ∷ s) =
    let rest = split sep s in if eqb (code c) sep then "" ∷ rest else push_head c rest

-- `sep not in s`
abbrev pub Lacks : ℕ → String → Type 0
Lacks sep [] = Unit
Lacks sep (c ∷ s) = (code c ≢ sep) × Lacks sep s

pub split_of_Lacks : (sep : ℕ) (s : String) → Lacks sep s → split sep s ≡ s ∷ []
unfolding split
split_of_Lacks sep [] h = refl
split_of_Lacks sep (c ∷ s) (h, hs) = ground (arith, split_of_Lacks sep s hs)

-- A text with the separator behind a piece that lacks it.
pub split-append :
    (sep : ℕ) (a : String) (c : Char) (b : String)
    → code c ≡ sep
    → Lacks sep a
    → split sep (String.◌++◌ a (c ∷ b)) ≡ a ∷ split sep b
unfolding split
split-append sep [] c b e h = rw nil-append (ground arith)
split-append sep (x ∷ a) c b e (h, hs) =
    rw cons-append (ground (arith, split-append sep a c b e hs))

infixr 66 ◌&◌
abbrev pub ◌&◌ : String → String → String
a & b = String.◌++◌ a b

-- Two pieces that lack the dot, joined by one.
pub split-dot : (a b : String) → Lacks b'.' a → Lacks b'.' b → split b'.' (a & "." & b) ≡ a ∷ b ∷ []
split-dot a b ha hb =
    rw (cons-append, nil-append)
      (split-append b'.' a _ b refl ha ∙ ap (λ r. a ∷ r) (split_of_Lacks b'.' b hb))
