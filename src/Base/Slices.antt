-- ===== src/Base/Slices.antt =====
-- Slices, prefixes and suffixes of a text.
use Prim.Native.Nat.{ℕ, zero, suc, ◌+◌, ◌≤◌}
use Prim.Native.Char.{Char, code}
use Prim.Native.String
use Prim.Native.String.{String, [], ◌∷◌}
use mathlib.Core.Path.{◌≡◌, refl, ap, sym, ◌∙◌}
use mathlib.Core.Bool.{Bool, true, false, ◌&&◌, ◌||◌, false≢true}
use mathlib.Core.List.{List, [], ◌∷◌}
use native.Mathlib.Omega.{arith}
use text.Mathlib.TextLemmas.{nil-append, cons-append}
use package.lite_mcp.Base.Tests.{eqb, if◌then◌else◌}
use package.lite_mcp.Base.Length.{len}
use package.lite_mcp.Base.Text.{◌&◌, Lacks, push_head}

-- `s.startswith(p)`
unfoldable pub starts_with : String → String → Bool
starts_with [] s = true
starts_with (p ∷ ps) [] = false
starts_with (p ∷ ps) (c ∷ s) = eqb (code p) (code c) && starts_with ps s

-- `marker in s`
unfoldable pub contains : String → String → Bool
unfolding starts_with
contains marker [] = starts_with marker []
contains marker (c ∷ s) = starts_with marker (c ∷ s) || contains marker s

-- `s[:n]` and `s[n:]`
unfoldable pub take : ℕ → String → String
take zero s = ""
take (suc n) [] = ""
take (suc n) (c ∷ s) = c ∷ take n s

unfoldable pub drop : ℕ → String → String
drop zero s = s
drop (suc n) [] = ""
drop (suc n) (c ∷ s) = drop n s

-- Every character has a property of its code.
unfoldable pub all_codes : (ℕ → Bool) → String → Bool
all_codes p [] = true
all_codes p (c ∷ s) = p (code c) && all_codes p s

-- `s.split(sep, n)` for a separator of one character.
unfoldable pub split_at_most : ℕ → ℕ → String → List String
split_at_most zero sep s = s ∷ []
split_at_most (suc n) sep [] = "" ∷ []
split_at_most (suc n) sep (c ∷ s) =
    let cut : List String = "" ∷ split_at_most n sep s in
    let longer = push_head c (split_at_most (suc n) sep s) in
    if eqb (code c) sep then cut else longer

pub len-append : (a b : String) → len (a & b) ≡ len a + len b
unfolding len
len-append [] b = rw nil-append (omega arith)
len-append (c ∷ a) b = rw cons-append (omega (arith, len-append a b))

pub take-append : (n : ℕ) (a b : String) → len a ≡ n → take n (a & b) ≡ a
unfolding len take
take-append zero [] b h = refl
take-append zero (c ∷ a) b h = absurd (omega (arith, h))
take-append (suc n) [] b h = absurd (omega (arith, h))
take-append (suc n) (c ∷ a) b h =
    rw cons-append (ap (λ s. c ∷ s) (take-append n a b (omega (arith, h))))

pub drop-append : (n : ℕ) (a b : String) → len a ≡ n → drop n (a & b) ≡ b
unfolding len drop
drop-append zero [] b h = nil-append b
drop-append zero (c ∷ a) b h = absurd (omega (arith, h))
drop-append (suc n) [] b h = absurd (omega (arith, h))
drop-append (suc n) (c ∷ a) b h = rw cons-append (drop-append n a b (omega (arith, h)))

pub starts_with-append : (p s : String) → starts_with p (p & s) ≡ true
unfolding starts_with
starts_with-append [] s = refl
starts_with-append (c ∷ p) s = rw cons-append (ground (arith, starts_with-append p s))

and_parts : (a b : Bool) → (a && b) ≡ true → (a ≡ true) × (b ≡ true)
and_parts a b h = ground arith

pub all_codes-append :
    (p : ℕ → Bool) (a b : String) → all_codes p (a & b) ≡ (all_codes p a && all_codes p b)
unfolding all_codes
all_codes-append p [] b = rw nil-append refl
all_codes-append p (c ∷ a) b = rw cons-append (ground (arith, all_codes-append p a b))

-- A piece without the separator, in front of it.
pub split_at_most-append :
    (n sep : ℕ) (a : String) (c : Char) (b : String)
    → code c ≡ sep
    → Lacks sep a
    → split_at_most (suc n) sep (String.◌++◌ a (c ∷ b)) ≡ (a ∷ split_at_most n sep b)
unfolding split_at_most
split_at_most-append n sep [] c b e h = rw nil-append (ground arith)
split_at_most-append n sep (x ∷ a) c b e (h, hs) =
    rw cons-append (ground (arith, split_at_most-append n sep a c b e hs))

pub take-prefix : (n : ℕ) (a b : String) → n ≤ len a → take n (a & b) ≡ take n a
unfolding len take
take-prefix zero a b h = refl
take-prefix (suc n) [] b h = absurd (omega (arith, h))
take-prefix (suc n) (c ∷ a) b h =
    rw cons-append (ap (λ s. c ∷ s) (take-prefix n a b (omega (arith, h))))

-- A separator without a property that every character has.
pub all_codes-Lacks :
    (p : ℕ → Bool) (sep : ℕ) (s : String) → p sep ≡ false → all_codes p s ≡ true → Lacks sep s
unfolding all_codes
all_codes-Lacks p sep [] out h = tt
all_codes-Lacks p sep (c ∷ s) out h =
    let (here, rest) = and_parts (p (code c)) (all_codes p s) h in
    (λ e. false≢true (sym out ∙ sym (ap p e) ∙ here), all_codes-Lacks p sep s out rest)
