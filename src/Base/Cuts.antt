-- ===== src/Base/Cuts.antt =====
-- What the slices and the tests of a text say of the text: the converse of the laws of Slices.
use Prim.Native.Nat.{ℕ, zero, suc, ◌+◌}
use Prim.Native.Char.{Char, code}
use Prim.Native.String
use Prim.Native.String.{String, [], ◌∷◌}
use mathlib.Core.Path.{◌≡◌, refl, ap, sym, ◌∙◌}
use mathlib.Core.Bool.{Bool, true, ◌&&◌}
use mathlib.Core.List.{[], ◌∷◌}
use mathlib.Core.Logic.{◌⊎◌, inl, inr}
use native.Mathlib.Omega.{arith}
use native.Mathlib.Numerals.{unary_clauses}
use text.Mathlib.TextLemmas.{nil-append, cons-append}
use text.Mathlib.TextEquality.{Char-path}
use package.lite_mcp.Base.Tests.{eqb, Bool-cases}
use package.lite_mcp.Base.Length.{len}
use package.lite_mcp.Base.Text.{◌&◌, Lacks}
use package.lite_mcp.Base.Slices.{starts_with, take, drop, split_at_most}

and_parts : (a b : Bool) → (a && b) ≡ true → (a ≡ true) × (b ≡ true)
and_parts a b h = ground arith

eqb_to : (a b : ℕ) → eqb a b ≡ true → a ≡ b
eqb_to a b h = ground arith

pub starts_with-eq : (p s : String) → starts_with p s ≡ true → s ≡ p & drop (len p) s
unfolding starts_with drop len
starts_with-eq [] s h = sym (nil-append s)
starts_with-eq (c ∷ p) [] h = absurd cc
starts_with-eq (c ∷ p) (d ∷ s) h =
    let (a, b) = and_parts (eqb (code c) (code d)) (starts_with p s) h in
    rw (cons-append, Char-path c d (eqb_to (code c) (code d) a))
      (ap (λ t. d ∷ t) (starts_with-eq p s b))

pub take-drop : (n : ℕ) (s : String) → take n s & drop n s ≡ s
unfolding take drop
take-drop zero s = nil-append s
take-drop (suc n) [] = nil-append ""
take-drop (suc n) (c ∷ s) = rw cons-append (ap (λ t. c ∷ t) (take-drop n s))

pub drop-drop : (m n : ℕ) (s : String) → drop m (drop n s) ≡ drop (n + m) s
unfolding drop
drop-drop m zero s = ap (λ t. drop t s) (omega arith)
drop-drop zero (suc n) [] = simp unary_clauses refl
drop-drop (suc m) (suc n) [] = simp unary_clauses refl
drop-drop m (suc n) (c ∷ s) =
    let e : suc (n + m) ≡ suc n + m = omega arith in
    drop-drop m n s ∙ ap (λ t. drop t (String.◌∷◌ c s)) e

-- The two sides of the first separator, where there is one.
pub record IsCut (sep : Char) (s a b : String) : Type 0 where
  pub joined : s ≡ String.◌++◌ a (sep ∷ b)
  pub before : Lacks (code sep) a

pub split-IsCut :
    (sep : Char) (s : String)
    → (split_at_most 1 (code sep) s ≡ s ∷ [])
      ⊎ ((a : String) × (b : String) × IsCut sep s a b
          × (split_at_most 1 (code sep) s ≡ a ∷ b ∷ []))
unfolding split_at_most
split-IsCut sep [] = inl refl
split-IsCut sep (c ∷ s) = elim (Bool-cases (eqb (code c) (code sep))) [
  | inl e ↦ inr (
    "",
    s,
    record {
      joined = ap (λ d. d ∷ s) (Char-path c sep (eqb_to _ _ e)) ∙ sym (nil-append (sep ∷ s));
      before = tt;
    },
    rw e refl,
  )
  | inr e ↦ elim (split-IsCut sep s) [
    | inl h ↦ inl (rw (e, h) refl)
    | inr (a, b, cut, h) ↦ inr (
      c ∷ a,
      b,
      record {
        joined = ap (λ t. c ∷ t) cut.joined ∙ sym (cons-append c a (sep ∷ b));
        before = (λ q. ground (arith, e, q), cut.before);
      },
      rw (e, h) refl,
    )
  ]
]
