-- ===== src/Base/Pieces.antt =====
-- The pieces of a text between separators: `sep.join(pieces)` and `s.split(sep)`.
use Prim.Native.Nat.{ℕ}
use Prim.Native.Char.{Char, code}
use Prim.Native.String
use Prim.Native.String.{String, [], ◌∷◌}
use mathlib.Core.Path.{◌≡◌, refl, ap, ◌∙◌}
use mathlib.Core.Logic.{◌≢◌, inl, inr}
use mathlib.Core.List.{List, [], ◌∷◌}
use native.Mathlib.Omega.{arith}
use package.lite_mcp.Base.Tests.{eqb, Bool-cases}
use package.lite_mcp.Base.Lists.{All}
use package.lite_mcp.Base.Text.{Lacks, split, push_head, split_of_Lacks, split-append}

-- `sep.join(pieces)` for a separator of one character
unfoldable pub join : Char → List String → String
join sep [] = ""
join sep (p ∷ []) = p
join sep (p ∷ q ∷ ps) = String.◌++◌ p (sep ∷ join sep (q ∷ ps))

pub join-cons :
    (sep : Char) (p q : String) (ps : List String)
    → join sep (p ∷ q ∷ ps) ≡ String.◌++◌ p (String.◌∷◌ sep (join sep (q ∷ ps)))
unfolding join
join-cons sep p q ps = refl

push_head-Lacks :
    (sep : ℕ) (c : Char) (ps : List String)
    → code c ≢ sep
    → All (Lacks sep) ps
    → All (Lacks sep) (push_head c ps)
push_head-Lacks sep c [] ne h = ((ne, tt), tt)
push_head-Lacks sep c (p ∷ ps) ne (hp, hps) = ((ne, hp), hps)

pub split-Lacks : (sep : ℕ) (s : String) → All (Lacks sep) (split sep s)
unfolding split
split-Lacks sep [] = (tt, tt)
split-Lacks sep (c ∷ s) = elim (Bool-cases (eqb (code c) sep)) [
  | inl e ↦ rw e (tt, split-Lacks sep s)
  | inr e ↦
      rw e (push_head-Lacks sep c (split sep s) (λ q. ground (arith, e, q)) (split-Lacks sep s))
]

pub split-join :
    (sep : Char) (p : String) (ps : List String)
    → All (Lacks (code sep)) (p ∷ ps)
    → split (code sep) (join sep (p ∷ ps)) ≡ (p ∷ ps)
unfolding join
split-join sep p [] (h, hs) = split_of_Lacks (code sep) p h
split-join sep p (q ∷ ps) (h, hs) =
    split-append (code sep) p sep _ refl h ∙ ap (λ r. p ∷ r) (split-join sep q ps hs)
